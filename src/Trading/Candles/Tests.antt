-- ===== src/Trading/Candles/Tests.antt =====
-- A buffer on concrete inputs, and the theorem applied to it.
use ig_trading_bot.Common.{
  ◌*◌, ◌/◌, ◌≤◌, ◌≡◌, refl, true, false, List, [], ◌∷◌, All, fixed, pos, ℤ, fixed-IsOrdered, lookup,
  insert, trim,
}
use ig_trading_bot.Trading.Candles.{
  CandleBuffer, Candle, Tick, quoted, missing, malformed, new, run, on_tick, place, price_of,
  update, get_candles, candle_count,
}
use ig_trading_bot.Trading.Candles.Shapes.{IsCandle, candles_stay_in_range}

-- Floor division of times that are not negative.
abbrev floor_div : ℤ → ℤ → ℤ
floor_div (pos a) (pos b) = pos (a / b * 10000)
floor_div a b = pos 0

-- Ticks at 0, 30, 59 and 61 seconds, and a malformed one.
abbrev ticks : List (Tick fixed)
ticks =
    record { epic = "gold"; bid = quoted (pos 90000); ask = quoted (pos 110000); time = pos 0 }
    ∷ record { epic = "gold"; bid = quoted (pos 120000); ask = missing; time = pos 300000 }
    ∷ record { epic = "gold"; bid = malformed; ask = quoted (pos 10000); time = pos 400000 }
    ∷ record { epic = "gold"; bid = missing; ask = quoted (pos 80000); time = pos 590000 }
    ∷ record { epic = "gold"; bid = quoted (pos 95000); ask = missing; time = pos 610000 }
    ∷ []

abbrev buffer : CandleBuffer fixed
buffer = new fixed floor_div (pos 600000) 200

abbrev first : Candle fixed
first = record {
  period_start = pos 0;
  open_price = pos 100000;
  high = pos 120000;
  low = pos 80000;
  close = pos 80000;
  tick_count = 3;
}

run-ticks : get_candles fixed floor_div (run fixed floor_div buffer ticks) "gold" false ≡ first ∷ []
unfolding run on_tick place price_of update new get_candles lookup insert trim
run-ticks = refl

candles_stay_in_range_example :
    let b = run fixed floor_div (new fixed floor_div (pos 600000) 200) ticks in
    All (IsCandle fixed) (get_candles fixed floor_div b "gold" true)
    × (candle_count fixed floor_div b "gold" ≤ 200)
candles_stay_in_range_example =
    candles_stay_in_range fixed floor_div fixed-IsOrdered (pos 600000) 200 ticks "gold" true
