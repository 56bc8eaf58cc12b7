-- ===== src/Risk/Sizing/Bounds.antt =====
-- What an accepted size satisfies.
use ig_trading_bot.Common.{◌≡◌, false, some, List, Arith, arith, Option-cases, inl, inr}
use ig_trading_bot.Risk.Sizing.{
  ReductionFactor, PositionSizeResult, applied_to, reduced, within_limits, calculate_size,
}

module _ (R : Type 0) (A F : Arith) (decimal : F.Num → A.Num) (quantize : A.Num → A.Num) where
  open A use {Num, dec, mul, div, lt, le}

  -- What is known of the inputs and the size where one is accepted.
  pub record IsSized (equity risk_pct atr atr_multiplier : Num) (zscore : F.Num)
      (factors : List (ReductionFactor R F)) (min_lot size : Num)
      (result : PositionSizeResult R A F) : Type 0 where
    pub solvent : le equity (dec 0 0) ≡ false
    pub risked : le risk_pct (dec 0 0) ≡ false
    pub in_range : lt (dec 5 2) risk_pct ≡ false
    pub moving : le atr (dec 0 0) ≡ false
    pub under_cap : lt (mul equity (dec 5 2)) size ≡ false
    pub over_minimum : lt size min_lot ≡ false
    pub accepted : result.rejected ≡ false
    pub applied : result.applied_reductions ≡ applied_to R A F decimal quantize zscore factors
    pub sized :
        size
        ≡ quantize (
            reduced R A F decimal quantize
              (div (mul equity risk_pct) (mul atr atr_multiplier))
              result.applied_reductions)

  -- A signal that is not rejected has a size.
  pub calculate_size-size :
      (equity risk_pct atr atr_multiplier : Num) (zscore : F.Num)
      (factors : List (ReductionFactor R F)) (min_lot : Num) (result : PositionSizeResult R A F)
      → calculate_size R A F decimal quantize equity risk_pct atr atr_multiplier zscore factors
          min_lot
        ≡ some result
      → result.rejected ≡ false
      → (size : Num) × (result.size ≡ some size)
  unfolding calculate_size within_limits
  calculate_size-size equity risk_pct atr atr_multiplier zscore factors min_lot result e r =
      elim (Option-cases result.size) [ inl missing ↦ absurd (ground arith) | inr found ↦ found ]

  -- A size is given only for a positive equity, a risk over 0 and up to 5%, and a positive volatility.
  -- It is then neither over 5% of the equity nor under the minimum lot, the signal is not rejected,
  -- and the size is the formula's, with the reduction for the volatility and every given factor
  -- applied once and in order, and rounded at the end.
  pub calculate_size-IsSized :
      (equity risk_pct atr atr_multiplier : Num) (zscore : F.Num)
      (factors : List (ReductionFactor R F)) (min_lot size : Num)
      (result : PositionSizeResult R A F)
      → calculate_size R A F decimal quantize equity risk_pct atr atr_multiplier zscore factors
          min_lot
        ≡ some result
      → result.size ≡ some size
      → IsSized equity risk_pct atr atr_multiplier zscore factors min_lot size result
  unfolding calculate_size within_limits
  calculate_size-IsSized equity risk_pct atr atr_multiplier zscore factors min_lot size result e s =
      ground arith
