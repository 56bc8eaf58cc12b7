-- ===== src/Risk/Stops/Tests.antt =====
-- Stops on concrete inputs, and the theorem applied to them.
use ig_trading_bot.Common.{
  ◌≡◌, ◌*◌, ◌/◌, refl, some, none, List, [], ◌∷◌, fixed, pos, ℤ, fixed-IsOrdered,
}
use ig_trading_bot.Risk.Stops.{Position, long, calculate_take_profits, update_trailing_stop}
use ig_trading_bot.Risk.Stops.Motion.{Move, trail, tighten, move_all, IsAdvance, stops_move_one_way}

-- Rounding towards zero of a number that is not negative.
abbrev int : ℤ → ℤ
int (pos n) = pos (n / 10000 * 10000)
int n = n

abbrev bought : Position fixed
bought = record {
  entry_price = pos 1000000;
  direction = long;
  initial_stop = pos 985000;
  current_stop = pos 985000;
  atr_at_entry = pos 10000;
}

-- At 2.7 of profit and a risk of 1.5, two half steps.
update_trailing_stop-steps :
    update_trailing_stop fixed int bought (pos 1027000) (pos 10000) ≡ some (pos 1010000)
unfolding update_trailing_stop
update_trailing_stop-steps = refl

calculate_take_profits-levels :
    calculate_take_profits fixed (pos 1000000) (pos 985000) long none
    ≡ pos 1030000 ∷ pos 1045000 ∷ []
unfolding calculate_take_profits
calculate_take_profits-levels = refl

abbrev moves : List (Move fixed)
moves =
    trail (pos 1027000) (pos 10000)
    ∷ trail (pos 1001000) (pos 10000)
    ∷ tighten (pos 1012000) (pos 10000)
    ∷ tighten (pos 1018000) (pos 10000)
    ∷ []

stops_move_one_way_example : IsAdvance fixed bought (move_all fixed int bought moves)
stops_move_one_way_example = stops_move_one_way fixed int fixed-IsOrdered bought moves
