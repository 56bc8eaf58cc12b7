-- ===== src/Risk/Stops.antt =====
-- src/risk/stop_manager.py: initial stops, take profits, trailing stops, and stops around events.
-- `Decimal` prices are numbers of `A`, and scores numbers of `F`. `int` is the library's rounding
-- towards zero, which the program only calls.
pub mod Motion
mod Tests
use ig_trading_bot.Common.{
  ℕ, zero, suc, Bool, true, false, ◌&&◌, ◌||◌, Option, none, some, List, [], ◌∷◌, Arith, abs_of,
  equal, if◌then◌else◌,
}

pub data Direction : Type 0 where
  long short : Direction

pub record Position (A : Arith) : Type 0 where
  pub entry_price : A.Num
  pub direction : Direction
  pub initial_stop : A.Num
  pub current_stop : A.Num
  pub atr_at_entry : A.Num

module _ (A : Arith) where
  open A use {Num, dec, neg, add, sub, mul, div, lt, le}

  unfoldable pub calculate_initial_stop : Num → Direction → Num → Num → Num
  calculate_initial_stop entry long atr multiplier = sub entry (mul atr multiplier)
  calculate_initial_stop entry short atr multiplier = add entry (mul atr multiplier)

  abbrev pub first {ℓ} : {B : Type ℓ} → ℕ → List B → List B
  first zero xs = []
  first (suc n) [] = []
  first (suc n) (x ∷ xs) = x ∷ first n xs

  abbrev pub level : Num → Num → Direction → Num → Num
  level entry risk long ratio = add entry (mul risk ratio)
  level entry risk short ratio = sub entry (mul risk ratio)

  abbrev pub levels : Num → Num → Direction → List Num → List Num
  levels entry risk d [] = []
  levels entry risk d (r ∷ rs) = level entry risk d r ∷ levels entry risk d rs

  abbrev ratios_or : Option (List Num) → List Num
  ratios_or none = dec 20 1 ∷ dec 30 1 ∷ []
  ratios_or (some rs) = rs

  unfoldable pub calculate_take_profits : Num → Num → Direction → Option (List Num) → List Num
  calculate_take_profits entry stop d ratios =
      levels entry (abs_of A (sub entry stop)) d (first 5 (ratios_or ratios))

  abbrev pub profit_of : Position A → Num → Num
  profit_of p price = elim p.direction [
    | long ↦ sub price p.entry_price
    | short ↦ sub p.entry_price price
  ]

  -- The new stop where it is an advance.
  abbrev pub advanced : Position A → Num → Option Num
  advanced p gain = elim p.direction [
    | long ↦
        if le (add p.entry_price gain) p.current_stop then none else some (add p.entry_price gain)
    | short ↦
        if le p.current_stop (sub p.entry_price gain) then none else some (sub p.entry_price gain)
  ]

  pub update_trailing_stop : (Num → Num) → Position A → Num → Num → Option Num
  update_trailing_stop int p price atr =
      let risk = abs_of A (sub p.entry_price p.initial_stop) in
      let profit = profit_of p price in
      let step = mul atr (dec 5 1) in
      if equal A risk (dec 0 0)
      then none
      else if lt profit risk
      then none
      else if equal A step (dec 0 0)
      then none
      else advanced p (mul step (int (div (sub profit risk) step)))

  unfoldable pub validate_risk_reward : Num → Num → Num → Num → Bool
  validate_risk_reward entry stop target min_rr =
      let risk = abs_of A (sub entry stop) in
      let reward = abs_of A (sub target entry) in
      if equal A risk (dec 0 0) then false else le min_rr (div reward risk)

  unfoldable pub tighten_stop_on_news : Position A → Num → Num → Num
  tighten_stop_on_news p price atr = elim p.direction [
    | long ↦
        let new_stop = sub price (mul atr (dec 5 1)) in
        if lt new_stop p.current_stop then p.current_stop else new_stop
    | short ↦
        let new_stop = add price (mul atr (dec 5 1)) in
        if lt p.current_stop new_stop then p.current_stop else new_stop
  ]

  unfoldable pub widen_stop_for_event : Position A → Num → Num → Num
  widen_stop_for_event p atr multiplier = elim p.direction [
    | long ↦ sub p.current_stop (mul multiplier atr)
    | short ↦ add p.current_stop (mul multiplier atr)
  ]

module _ (A F : Arith) where
  pub is_sentiment_aligned : Position A → F.Num → Bool
  is_sentiment_aligned p score = elim p.direction [
    | long ↦ F.lt (F.dec 0 0) score
    | short ↦ F.lt score (F.dec 0 0)
  ]

  pub maintain_position_on_aligned_sentiment : Position A → F.Num → Bool
  unfolding is_sentiment_aligned
  maintain_position_on_aligned_sentiment p score =
      if is_sentiment_aligned p score then true else false
