-- ===== src/Trading/Orders.antt =====
-- src/trading/order_manager.py: the life of an order, its retry, and its closing.
-- Notifications and published events only report, and their failures are caught. An order is one
-- object that the dict holds: each change is written back under its id, which is an argument where
-- the source draws a random one. The sleep before a retry is left out.
pub mod Lifecycle
pub mod Closing
mod Tests
use text.Mathlib.Text.{◌==◌ as str_eq}
use ig_trading_bot.Common.{
  ℕ, suc, ◌+◌, String, Bool, true, false, ◌||◌, ◌&&◌, Option, none, some, List, [], ◌∷◌, ◌++◌,
  Arith, if◌then◌else◌, ltb, ◌⊎◌, inl, inr, Dict, lookup, insert, erase,
}
use ig_trading_bot.Trading.OrderData.{
  OrderType, market, limit, stop, trailing_stop, OrderStatus, pending, submitted, filled, rejected,
  failed, closed, partially_closed, OrderError, message, no_market_info, not_active, below_minimum,
  insufficient_margin, trail_not_positive, close_pct_out_of_range, close_size_zero, Order,
  TrailingStopConfig, ApiCall, place_order_call, close_position_call, update_position_call,
  Response, accepted, price_unreadable, malformed, raised, MarketInfo, info, unavailable,
  OrderManager, Ending, returned, validation_error, execution_error, client_error, store, sends,
}
use ig_trading_bot.Trading.TrailingStops.{remove_trailing_stop}

module _ (A : Arith) where
  open A use {Num, dec, add, sub, mul, lt, le}

  abbrev get_or {ℓ} : {B : Type ℓ} → B → Option B → B
  get_or d none = d
  get_or d (some b) = b

  abbrev short_of_margin : Option Num → Option Num → Option (OrderError A)
  short_of_margin (some available) (some required) =
      if lt available required then some (insufficient_margin available required) else none
  short_of_margin _ _ = none

  -- `none` is a valid order.
  pub validate_order : MarketInfo A → String → Num → Option (OrderError A)
  validate_order (unavailable e) instrument size = some (no_market_info e)
  validate_order (info status min_size available required) instrument size =
      let s = get_or "" status in
      let least = get_or (dec 1 2) min_size in
      if str_eq s "TRADEABLE"
      then (if lt size least
          then some (below_minimum size least)
          else short_of_margin available required)
      else some (not_active instrument s)

  -- `_execute_on_ig`, as the call that it makes.
  abbrev pub execute_on_ig : OrderManager A → Order A → OrderManager A
  execute_on_ig m o = sends A m (
      place_order_call o.instrument o.direction o.size o.order_type o.price o.stop_distance
        o.limit_distance)

  abbrev pub fill : Order A → Option String → Option String → Option Num → ℕ → Order A
  fill o reference deal price now = record o {
    status = filled;
    deal_reference = reference;
    deal_id = deal;
    filled_at = some now;
    entry_price = price;
  }

  -- What the code sets from a response before it returns, or before an exception stops it.
  abbrev pub read_response : Order A → Response A → ℕ → Order A × Option String
  read_response o (accepted reference deal price) now = (fill o reference deal price now, none)
  read_response o (price_unreadable reference deal e) now =
      (fill o reference deal o.entry_price now, some e)
  read_response o (malformed e) now = (record o { status = filled }, some e)
  read_response o (raised e) now = (o, some e)

  -- The end of `_handle_failure`.
  abbrev pub give_up : OrderManager A → Order A → String → OrderManager A × Ending A
  give_up m o e = (
    store A m (record o { status = failed; error_message = some (message e) }),
    execution_error (message e),
  )

  abbrev pub end_retry :
      OrderManager A → String → Order A × Option String → OrderManager A × Ending A
  end_retry m e (o, none) = (store A m o, returned o)
  end_retry m e (o, some e') = give_up m o e

  -- The retry, with the client's response to it.
  pub retry_order : OrderManager A → Order A → String → Response A → ℕ → OrderManager A × Ending A
  retry_order m o e retry later = end_retry (execute_on_ig m o) e (read_response o retry later)

  pub handle_failure :
      OrderManager A → Order A → String → Response A → ℕ → OrderManager A × Ending A
  handle_failure m o e retry later =
      if ltb o.retry_count 1
      then retry_order m (record o { retry_count = o.retry_count + 1 }) e retry later
      else give_up m o e

  abbrev pub end_submit :
      OrderManager A → Order A × Option String → Response A → ℕ → OrderManager A × Ending A
  end_submit m (o, none) retry later = (store A m o, returned o)
  end_submit m (o, some e) retry later = handle_failure m o e retry later

  -- `_submit_order`, with the client's responses to the order and to a retry, and the clock after
  -- each of them.
  pub submit_order :
      OrderManager A → Order A → Response A → Response A → ℕ → ℕ → OrderManager A × Ending A
  submit_order m o first retry now later =
      let o' = record o { status = submitted } in
      end_submit (execute_on_ig (store A m o') o') (read_response o' first now) retry later

  pub new_order :
      OrderType → String → String → String → Num → Option Num → Option Num → Option Num → Order A
  new_order kind i instrument direction size price stop_dist limit_dist = record {
    id = i;
    instrument = instrument;
    direction = direction;
    order_type = kind;
    size = size;
    price = price;
    stop_distance = stop_dist;
    limit_distance = limit_dist;
    status = pending;
    deal_reference = none;
    deal_id = none;
    filled_at = none;
    closed_at = none;
    error_message = none;
    retry_count = 0;
    entry_price = none;
  }

  -- What the three placing methods share, from the new order on.
  pub place_new :
      OrderManager A
      → Order A
      → MarketInfo A
      → Response A
      → Response A
      → ℕ
      → ℕ
      → OrderManager A × Ending A
  place_new m o market_info first retry now later =
      let m' = store A m o in
      elim (validate_order market_info o.instrument o.size) [
        | none ↦ submit_order m' o first retry now later
        | some e ↦ (
          store A m' (record o { status = rejected; error_message = some e }),
          validation_error e,
        )
      ]

  pub place_market_order :
      OrderManager A
      → String
      → String
      → String
      → Num
      → Option Num
      → Option Num
      → MarketInfo A
      → Response A
      → Response A
      → ℕ
      → ℕ
      → OrderManager A × Ending A
  place_market_order m i instrument direction size sd ld =
      place_new m (new_order market i instrument direction size none sd ld)

  pub place_limit_order :
      OrderManager A
      → String
      → String
      → String
      → Num
      → Num
      → Option Num
      → Option Num
      → MarketInfo A
      → Response A
      → Response A
      → ℕ
      → ℕ
      → OrderManager A × Ending A
  place_limit_order m i instrument direction size price sd ld =
      place_new m (new_order limit i instrument direction size (some price) sd ld)

  pub place_stop_order :
      OrderManager A
      → String
      → String
      → String
      → Num
      → Num
      → Option Num
      → Option Num
      → MarketInfo A
      → Response A
      → Response A
      → ℕ
      → ℕ
      → OrderManager A × Ending A
  place_stop_order m i instrument direction size price sd ld =
      place_new m (new_order stop i instrument direction size (some price) sd ld)

  -- What a close sets from its response; the entry price is not read.
  abbrev pub read_close : Order A → Response A → ℕ → Order A × Option String
  read_close o (accepted reference _ _) now =
      (record o { status = closed; deal_reference = reference; closed_at = some now }, none)
  read_close o (price_unreadable reference _ _) now =
      (record o { status = closed; deal_reference = reference; closed_at = some now }, none)
  read_close o (malformed e) now = (record o { status = closed }, some e)
  read_close o (raised e) now = (o, some e)

  abbrev pub end_close :
      OrderManager A → String → Order A × Option String → Response A → ℕ → OrderManager A × Ending A
  end_close m deal (o, none) retry later = (remove_trailing_stop A (store A m o) deal, returned o)
  end_close m deal (o, some e) retry later = handle_failure m o e retry later

  pub close_order :
      OrderManager A
      → String
      → String
      → String
      → Num
      → Response A
      → Response A
      → ℕ
      → ℕ
      → OrderManager A × Ending A
  unfolding remove_trailing_stop
  close_order m i deal direction size first retry now later =
      let fresh = new_order market i "" direction size none none none in
      let o = record fresh { deal_id = some deal; status = submitted } in
      let sent = sends A (store A m o) (close_position_call deal direction size) in
      end_close sent deal (read_close o first now) retry later

  -- The keys of `get_position` that are read, with their defaults put in.
  pub record PositionInfo : Type 0 where
    pub direction : String
    pub total_size : Num
    pub entry_price : Num
    pub spread : Num

  abbrev is_filled : OrderStatus → Bool
  is_filled filled = true
  is_filled _ = false

  abbrev has_deal : String → Option String → Bool
  has_deal deal none = false
  has_deal deal (some d) = str_eq d deal

  -- The first filled order of the deal becomes partially closed.
  pub mark_partial : String → Dict (Order A) → Dict (Order A)
  mark_partial deal [] = []
  mark_partial deal ((i, o) ∷ os) =
      if has_deal deal o.deal_id && is_filled o.status
      then (i, record o { status = partially_closed }) ∷ os
      else (i, o) ∷ mark_partial deal os

  abbrev pub move_stop : String → Num → Dict (TrailingStopConfig A) → Dict (TrailingStopConfig A)
  move_stop deal new_stop stops = elim (lookup deal stops) [
    | none ↦ stops
    | some c ↦ insert deal (record c { current_stop = new_stop }) stops
  ]

  -- What follows a close that has returned its order.
  pub after_partial_close :
      OrderManager A → String → PositionInfo → Order A → OrderManager A × Ending A
  unfolding mark_partial
  after_partial_close m deal position close_result =
      let breakeven =
        if str_eq position.direction "BUY"
        then sub position.entry_price position.spread
        else add position.entry_price position.spread in
      let told = sends A m (update_position_call deal breakeven) in
      (
        record told {
          active_trailing_stops = move_stop deal breakeven told.active_trailing_stops;
          orders = mark_partial deal told.orders;
        },
        returned close_result,
      )

  abbrev pub continue_partial :
      String → PositionInfo → OrderManager A × Ending A → OrderManager A × Ending A
  continue_partial deal position (m, returned o) = after_partial_close m deal position o
  continue_partial deal position (m, validation_error e) = (m, validation_error e)
  continue_partial deal position (m, execution_error e) = (m, execution_error e)
  continue_partial deal position (m, client_error e) = (m, client_error e)

  -- `quantize` rounds to hundredths; the position is what the broker says, or an exception's text.
  pub partial_take_profit :
      (Num → Num)
      → OrderManager A
      → String
      → Num
      → (String ⊎ PositionInfo)
      → String
      → Response A
      → Response A
      → ℕ
      → ℕ
      → OrderManager A × Ending A
  unfolding after_partial_close
  partial_take_profit quantize m deal close_pct position i first retry now later =
      if lt close_pct (dec 25 2) || lt (dec 75 2) close_pct
      then (m, validation_error close_pct_out_of_range)
      else elim position [
        | inl e ↦ (m, client_error e)
        | inr p ↦
            let close_size = quantize (mul p.total_size close_pct) in
            if le close_size (dec 0 0)
            then (m, validation_error close_size_zero)
            else continue_partial deal p (
                close_order m i deal (if str_eq p.direction "BUY" then "SELL" else "BUY") close_size
                  first retry now later)
      ]
