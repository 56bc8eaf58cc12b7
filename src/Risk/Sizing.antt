-- ===== src/Risk/Sizing.antt =====
-- src/risk/position_sizer.py: the size of a position from the volatility, and its reductions.
-- `Decimal` amounts are numbers of `A`, floats numbers of `F`. `decimal` is `Decimal(str(x))`, and
-- `quantize` rounds down to hundredths: both are the library's, which the program only calls. `R`
-- holds the reasons of the reductions that a caller gives.
pub mod Bounds
mod Tests
use ig_trading_bot.Common.{
  String, Bool, true, false, ◌||◌, Option, none, some, List, [], ◌∷◌, ◌++◌, Arith, equal,
  if◌then◌else◌,
}

-- The text of a reason, with the value that it prints.
pub data Reason (R : Type 0) (F : Arith) : Type 0 where
  volatile : F.Num → Reason R F
  given : R → Reason R F

pub record ReductionFactor (R : Type 0) (F : Arith) : Type 0 where
  pub source : String
  pub factor : F.Num
  pub reason : Reason R F

pub data Rejection : Type 0 where
  equity_not_positive risk_out_of_range no_volatility_data size_limit_exceeded : Rejection
  below_minimum_lot : Rejection

pub record PositionSizeResult (R : Type 0) (A F : Arith) : Type 0 where
  pub size : Option A.Num
  pub rejected : Bool
  pub rejection_reason : Option Rejection
  pub applied_reductions : List (ReductionFactor R F)

module _ (R : Type 0) (A F : Arith) (decimal : F.Num → A.Num) (quantize : A.Num → A.Num) where
  open A use {Num, dec, mul, div, lt, le}

  abbrev pub reject : Rejection → List (ReductionFactor R F) → PositionSizeResult R A F
  reject r applied = record {
    size = none;
    rejected = true;
    rejection_reason = some r;
    applied_reductions = applied;
  }

  abbrev pub accept : Num → List (ReductionFactor R F) → PositionSizeResult R A F
  accept size applied = record {
    size = some size;
    rejected = false;
    rejection_reason = none;
    applied_reductions = applied;
  }

  -- The reduction for a z-score over 2, and then those of the caller.
  pub applied_to : F.Num → List (ReductionFactor R F) → List (ReductionFactor R F)
  applied_to zscore factors =
      if F.lt (F.dec 20 1) zscore
      then record { source = "volatility"; factor = F.dec 5 1; reason = volatile zscore } ∷ factors
      else factors

  pub reduced : Num → List (ReductionFactor R F) → Num
  reduced size [] = size
  reduced size (r ∷ rs) = reduced (mul size (decimal r.factor)) rs

  -- The hard cap and the minimum lot, on the rounded size.
  pub within_limits : Num → Num → Num → List (ReductionFactor R F) → PositionSizeResult R A F
  within_limits equity min_lot size applied =
      if lt (mul equity (dec 5 2)) size
      then reject size_limit_exceeded applied
      else if lt size min_lot
      then reject below_minimum_lot applied
      else accept size applied

  -- `calculate_size`; `none` is the exception of a division by a stop distance of zero.
  unfoldable pub calculate_size :
      Num
      → Num
      → Num
      → Num
      → F.Num
      → List (ReductionFactor R F)
      → Num
      → Option (PositionSizeResult R A F)
  unfolding applied_to reduced within_limits
  calculate_size equity risk_pct atr atr_multiplier zscore factors min_lot =
      if le equity (dec 0 0)
      then some (reject equity_not_positive [])
      else if le risk_pct (dec 0 0) || lt (dec 5 2) risk_pct
      then some (reject risk_out_of_range [])
      else if le atr (dec 0 0)
      then some (reject no_volatility_data [])
      else if equal A (mul atr atr_multiplier) (dec 0 0)
      then none
      else let applied = applied_to zscore factors in
        let base_size = div (mul equity risk_pct) (mul atr atr_multiplier) in
        some (within_limits equity min_lot (quantize (reduced base_size applied)) applied)
