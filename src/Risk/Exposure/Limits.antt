-- ===== src/Risk/Exposure/Limits.antt =====
-- What an allowed position keeps to, and where a region's score halves a limit.
use ig_trading_bot.Common.{◌≡◌, ◌&&◌, negate, Option, List, Arith, arith, abs_of, Dict, present}
use ig_trading_bot.Risk.Exposure.{
  Position, ExposureManager, check_exposure, get_class_exposure, get_total_exposure,
  get_effective_class_limit, scores_for,
}

module _ (A F : Arith) where
  open A use {Num, dec, add, div, lt, le}

  -- A position is allowed exactly when the equity is positive and neither the projected exposure of
  -- its class, at the limit for its region, nor the projected exposure in total is over its limit;
  -- and a reason is given exactly when it is not allowed.
  pub check_exposure-decides :
      (m : ExposureManager A F) (p : Position A) (ps : List (Position A)) (equity : Num)
      (given : Option (Dict F.Num))
      → let share = div (abs_of A p.notional_value) equity in
        let limit = get_effective_class_limit A F m p.region (scores_for A F m given) in
        let result = check_exposure A F m p ps equity given in
        (result.allowed
          ≡ negate (le equity (dec 0 0))
            && (negate (lt limit (add (get_class_exposure A F p.asset_class ps equity) share))
                && negate (lt m.max_total (add (get_total_exposure A F ps equity) share))))
        × (result.allowed ≡ negate (present result.rejection_reason))
  unfolding check_exposure
  check_exposure-decides m p ps equity given = ground arith
