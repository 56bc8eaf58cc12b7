-- ===== src/Risk/Crisis/Tests.antt =====
-- A crisis on concrete positions, and the theorem applied to it.
use ig_trading_bot.Common.{
  ◌≡◌, refl, String, false, none, List, [], ◌∷◌, ℕ, fixed, pos, fixed-IsOrdered, insert,
}
use ig_trading_bot.Risk.Stops.{widen_stop_for_event}
use ig_trading_bot.Risk.Crisis.{CrisisPosition, handle_crisis_response, handle_crisis_alert}
use ig_trading_bot.Risk.Crisis.Response.{IsResponse, handle_crisis_response-IsResponse}

abbrev position : String → ℕ → ℕ → CrisisPosition fixed
position i notional atr = record {
  instrument = i;
  direction = "LONG";
  notional_value = pos notional;
  atr = pos atr;
  entry_price = pos 1000000;
  current_stop = pos 900000;
}

abbrev others : List (CrisisPosition fixed)
others = position "oil" 300000 20000 ∷ position "gold" 500000 10000 ∷ []

-- Of 1000, oil's 300 and silver's 200 are half.
handle_crisis_response-halves :
    let r = handle_crisis_response fixed (position "silver" 200000 15000 ∷ others) in
    (r.positions_closed ≡ "oil" ∷ "silver" ∷ []) × (r.new_stops ≡ ("gold", pos 880000) ∷ [])
unfolding handle_crisis_response widen_stop_for_event insert
handle_crisis_response-halves = (refl, refl)

-- Two positions of one instrument leave a single new stop, that of the second.
handle_crisis_response-overwrites :
    (handle_crisis_response fixed (
      position "oil" 900000 20000
      ∷ position "gold" 50000 10000
      ∷ position "gold" 50000 5000
      ∷ [])).new_stops
    ≡ ("gold", pos 890000) ∷ []
unfolding handle_crisis_response widen_stop_for_event insert
handle_crisis_response-overwrites = refl

handle_crisis_response-IsResponse_example :
    IsResponse fixed
      (position "silver" 200000 15000 ∷ others)
      (handle_crisis_response fixed (position "silver" 200000 15000 ∷ others))
handle_crisis_response-IsResponse_example =
    handle_crisis_response-IsResponse fixed fixed-IsOrdered (position "silver" 200000 15000) others

-- An alert without positions closes nothing and tells nobody.
handle_crisis_alert-empty : (handle_crisis_alert fixed none).notification_sent ≡ false
unfolding handle_crisis_alert handle_crisis_response
handle_crisis_alert-empty = refl
