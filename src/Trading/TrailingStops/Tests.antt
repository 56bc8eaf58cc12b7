-- ===== src/Trading/TrailingStops/Tests.antt =====
-- Trailing stops on concrete inputs, and the theorems applied to them.
use ig_trading_bot.Common.{
  ◌≡◌, refl, String, true, some, List, [], ◌∷◌, fixed, pos, ℤ, fixed-IsOrdered, lookup,
}
use ig_trading_bot.Trading.OrderData.{OrderManager, TrailingStopConfig}
use ig_trading_bot.Trading.TrailingStops.Motion.{run_ticks, stops_never_retreat}

abbrev gold_stop : TrailingStopConfig fixed
gold_stop = record {
  deal_id = "D1";
  instrument = "gold";
  direction = "BUY";
  trail_distance = pos 100000;
  current_stop = pos 19900000;
  highest_price = pos 20000000;
  lowest_price = pos 0;
}

abbrev manager : OrderManager fixed
manager = record { orders = []; active_trailing_stops = ("D1", gold_stop) ∷ []; api_calls = [] }

abbrev ticks : List (String × ℤ)
ticks = ("gold", pos 20200000) ∷ ("oil", pos 1) ∷ ("gold", pos 20000000) ∷ []

-- The stop rises with the price and stays when the price falls back.
abbrev moved_stop : TrailingStopConfig fixed
moved_stop = record gold_stop { current_stop = pos 20100000; highest_price = pos 20200000 }

stops_never_retreat_example :
    (c' : TrailingStopConfig fixed) × (lookup "D1"
        (run_ticks fixed manager ticks).active_trailing_stops
      ≡ some c')
    × (c'.direction ≡ "BUY")
    × (c'.trail_distance ≡ pos 100000)
    × (gold_stop.direction ≡ "BUY" → fixed.le (pos 19900000) c'.current_stop ≡ true)
    × (gold_stop.direction ≡ "SELL" → fixed.le c'.current_stop (pos 19900000) ≡ true)
unfolding lookup
stops_never_retreat_example =
    stops_never_retreat fixed fixed-IsOrdered ticks manager "D1" gold_stop refl
