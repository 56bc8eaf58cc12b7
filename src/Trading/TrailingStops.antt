-- ===== src/Trading/TrailingStops.antt =====
-- src/trading/order_manager.py: trailing stops, set up for a deal and moved by each tick.
pub mod Motion
mod Tests
use text.Mathlib.Text.{◌==◌ as str_eq}
use ig_trading_bot.Common.{
  ℕ, suc, ◌+◌, String, Bool, true, false, ◌||◌, ◌&&◌, Option, none, some, List, [], ◌∷◌, ◌++◌,
  Arith, if◌then◌else◌, ltb, ◌⊎◌, inl, inr, Dict, lookup, insert, erase,
}
use ig_trading_bot.Trading.OrderData.{
  OrderType, market, limit, stop, trailing_stop, OrderStatus, pending, submitted, filled, rejected,
  failed, closed, partially_closed, OrderError, message, no_market_info, not_active, below_minimum,
  insufficient_margin, trail_not_positive, close_pct_out_of_range, close_size_zero, Order,
  TrailingStopConfig, ApiCall, place_order_call, close_position_call, update_position_call,
  Response, accepted, raised, MarketInfo, info, unavailable, OrderManager, Ending, returned,
  validation_error, execution_error, client_error, store, sends,
}

module _ (A : Arith) where
  open A use {Num, dec, add, sub, mul, lt, le}

  unfoldable pub remove_trailing_stop : OrderManager A → String → OrderManager A
  remove_trailing_stop m deal = record m {
    active_trailing_stops = erase deal m.active_trailing_stops;
  }

  -- `setup_trailing_stop`
  pub setup_trailing_stop :
      OrderManager A
      → String
      → Num
      → String
      → String
      → Num
      → Num
      → OrderManager A × Option (OrderError A)
  setup_trailing_stop m deal distance direction instrument price current =
      if le distance (dec 0 0) then (m, some trail_not_positive) else (
        record m {
          active_trailing_stops =
              insert deal
                (record {
                  deal_id = deal;
                  instrument = instrument;
                  direction = direction;
                  trail_distance = distance;
                  current_stop = current;
                  highest_price = (if str_eq direction "BUY" then price else dec 0 0);
                  lowest_price = (if str_eq direction "SELL" then price else dec 999999 0);
                })
                m.active_trailing_stops;
        },
        none,
      )

  -- One configuration at a tick of its instrument; the Boolean says that its stop advances.
  pub advance_buy : TrailingStopConfig A → Num → TrailingStopConfig A × Bool
  advance_buy c price =
      let highest = if lt c.highest_price price then price else c.highest_price in
      let new_stop = sub highest c.trail_distance in
      if lt c.current_stop new_stop
      then (record c { highest_price = highest; current_stop = new_stop }, true)
      else (record c { highest_price = highest }, false)

  pub advance_sell : TrailingStopConfig A → Num → TrailingStopConfig A × Bool
  advance_sell c price =
      let lowest = if lt price c.lowest_price then price else c.lowest_price in
      let new_stop = add lowest c.trail_distance in
      if lt new_stop c.current_stop
      then (record c { lowest_price = lowest; current_stop = new_stop }, true)
      else (record c { lowest_price = lowest }, false)

  pub advance : TrailingStopConfig A → Num → TrailingStopConfig A × Bool
  advance c price =
      if str_eq c.direction "BUY"
      then advance_buy c price
      else if str_eq c.direction "SELL"
      then advance_sell c price
      else (c, false)

  abbrev pub tell : String → TrailingStopConfig A × Bool → TrailingStopConfig A × List (ApiCall A)
  tell deal (c, moved) = (c, if moved then update_position_call deal c.current_stop ∷ [] else [])

  -- One round of the loop of `_update_trailing_stops`: the configuration and the call it makes.
  pub tick_one :
      String → Num → String → TrailingStopConfig A → TrailingStopConfig A × List (ApiCall A)
  unfolding advance
  tick_one instrument price deal c =
      if str_eq c.instrument instrument then tell deal (advance c price) else (c, [])

  pub tick_each :
      String → Num → Dict (TrailingStopConfig A) → Dict (TrailingStopConfig A) × List (ApiCall A)
  tick_each instrument price [] = ([], [])
  tick_each instrument price ((deal, c) ∷ cs) =
      let (c', calls) = tick_one instrument price deal c in
      let (cs', calls') = tick_each instrument price cs in ((deal, c') ∷ cs', calls ++ calls')

  pub update_trailing_stops : OrderManager A → String → Num → OrderManager A
  update_trailing_stops m instrument price =
      let (stops, calls) = tick_each instrument price m.active_trailing_stops in
      record m { active_trailing_stops = stops; api_calls = m.api_calls ++ calls }
