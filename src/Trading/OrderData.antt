-- ===== src/Trading/OrderData.antt =====
-- src/trading/order_manager.py: the data of orders, of the manager, and of what it asks the broker.
-- How an awaited call of the broker's client ends is a `Response`; `api_calls` lists, in order, the
-- calls made. The fields `trail_distance` and `created_at` of an order are never read, and a time is
-- a number of microseconds.
use ig_trading_bot.Common.{ℕ, String, Option, List, [], ◌∷◌, ◌++◌, Arith, Dict, insert}

pub data OrderType : Type 0 where
  market limit stop trailing_stop : OrderType

pub data OrderStatus : Type 0 where
  pending submitted filled rejected failed closed partially_closed : OrderStatus

-- The error texts, as constructors that hold what they print.
pub data OrderError (A : Arith) : Type 0 where
  message : String → OrderError A
  no_market_info : String → OrderError A
  not_active : String → String → OrderError A
  below_minimum : A.Num → A.Num → OrderError A
  insufficient_margin : A.Num → A.Num → OrderError A
  trail_not_positive close_pct_out_of_range close_size_zero : OrderError A

pub record Order (A : Arith) : Type 0 where
  pub id : String
  pub instrument : String
  pub direction : String
  pub order_type : OrderType
  pub size : A.Num
  pub price : Option A.Num
  pub stop_distance : Option A.Num
  pub limit_distance : Option A.Num
  pub status : OrderStatus
  pub deal_reference : Option String
  pub deal_id : Option String
  pub filled_at : Option ℕ
  pub closed_at : Option ℕ
  pub error_message : Option (OrderError A)
  pub retry_count : ℕ
  pub entry_price : Option A.Num

pub record TrailingStopConfig (A : Arith) : Type 0 where
  pub deal_id : String
  pub instrument : String
  pub direction : String
  pub trail_distance : A.Num
  pub current_stop : A.Num
  pub highest_price : A.Num
  pub lowest_price : A.Num

-- The client's methods that change something at the broker, with all their arguments; those of
-- `place_order` end with the price, the stop distance and the limit distance.
pub data ApiCall (A : Arith) : Type 0 where
  place_order_call :
      String → String → A.Num → OrderType → Option A.Num → Option A.Num → Option A.Num → ApiCall A
  close_position_call : String → String → A.Num → ApiCall A
  update_position_call : String → A.Num → ApiCall A

-- The response to a placed order or a close: one that is read to the end, one whose entry price is
-- no number, one that is no dictionary, or the text of the client's exception. A response that is
-- read in part has the text of the exception that the reading raises.
pub data Response (A : Arith) : Type 0 where
  accepted : Option String → Option String → Option A.Num → Response A
  price_unreadable : Option String → Option String → String → Response A
  malformed raised : String → Response A

-- The keys of `get_market_info` that are read, their numbers as numbers, or the text of the exception.
pub data MarketInfo (A : Arith) : Type 0 where
  info : Option String → Option A.Num → Option A.Num → Option A.Num → MarketInfo A
  unavailable : String → MarketInfo A

pub record OrderManager (A : Arith) : Type 0 where
  pub orders : Dict (Order A)
  pub active_trailing_stops : Dict (TrailingStopConfig A)
  pub api_calls : List (ApiCall A)

-- How a method ends: with an order, or with one of the exceptions.
pub data Ending (A : Arith) : Type 0 where
  returned : Order A → Ending A
  validation_error : OrderError A → Ending A
  execution_error : OrderError A → Ending A
  client_error : String → Ending A

module _ (A : Arith) where
  -- `self._orders[order.id] = order`, and each later change of the object.
  abbrev pub store : OrderManager A → Order A → OrderManager A
  store m o = record m { orders = insert o.id o m.orders }

  abbrev pub sends : OrderManager A → ApiCall A → OrderManager A
  sends m c = record m { api_calls = m.api_calls ++ c ∷ [] }
