-- ===== src/Risk/Exposure.antt =====
-- src/risk/exposure_manager.py: limits on the exposure of an asset class and in total.
-- `Decimal` amounts are numbers of `A`, and scores of regions numbers of `F`. The text of a
-- rejection is a constructor with the values that it prints.
pub mod Limits
mod Tests
use text.Mathlib.Text.{◌==◌ as str_eq}
use ig_trading_bot.Common.{
  ℤ, pos, negsuc, ℕ, min, max, String, Bool, true, false, ◌&&◌, Option, none, some, List, [], ◌∷◌,
  Arith, abs_of, if◌then◌else◌, Dict, lookup_or, insert,
}

pub data AssetClass : Type 0 where
  forex indices commodities crypto stocks : AssetClass

abbrev pub same_class : AssetClass → AssetClass → Bool
same_class forex forex = true
same_class indices indices = true
same_class commodities commodities = true
same_class crypto crypto = true
same_class stocks stocks = true
same_class _ _ = false

pub record Position (A : Arith) : Type 0 where
  pub instrument : String
  pub asset_class : AssetClass
  pub notional_value : A.Num
  pub region : Option String

-- Of the class: projected, limit, and whether the limit was halved for its region.
pub data Rejection (A : Arith) : Type 0 where
  equity_not_positive : Rejection A
  class_limit_breached : AssetClass → A.Num → A.Num → Bool → Rejection A
  total_limit_breached : A.Num → A.Num → Rejection A

pub record ExposureCheckResult (A : Arith) : Type 0 where
  pub allowed : Bool
  pub rejection_reason : Option (Rejection A)
  pub current_class_exposure : A.Num
  pub current_total_exposure : A.Num

pub record ExposureManager (A F : Arith) : Type 0 where
  pub max_per_class : A.Num
  pub max_total : A.Num
  pub geo_risk_scores : Dict F.Num

module _ (A F : Arith) where
  open A use {Num, dec, add, mul, div, lt, le}

  abbrev default_to : Num → Option Num → Num
  default_to d none = d
  default_to d (some x) = x

  unfoldable pub new : Option Num → Option Num → ExposureManager A F
  new per_class total = record {
    max_per_class = default_to (dec 30 2) per_class;
    max_total = default_to (dec 70 2) total;
    geo_risk_scores = [];
  }

  -- `max(0, min(100, score))`, of an integer.
  abbrev clamp_score : ℤ → ℕ
  clamp_score (pos score) = min 100 score
  clamp_score (negsuc _) = 0

  pub update_geo_risk : ExposureManager A F → String → ℤ → ExposureManager A F
  update_geo_risk m region score = record m {
    geo_risk_scores = insert region (F.dec (clamp_score score) 0) m.geo_risk_scores;
  }

  abbrev pub class_notional : AssetClass → Num → List (Position A) → Num
  class_notional c total [] = total
  class_notional c total (p ∷ ps) =
      class_notional c
        (if same_class p.asset_class c then add total (abs_of A p.notional_value) else total) ps

  abbrev pub total_notional : Num → List (Position A) → Num
  total_notional total [] = total
  total_notional total (p ∷ ps) = total_notional (add total (abs_of A p.notional_value)) ps

  pub get_class_exposure : AssetClass → List (Position A) → Num → Num
  get_class_exposure c ps equity =
      if le equity (dec 0 0) then dec 0 0 else div (class_notional c (dec 0 0) ps) equity

  pub get_total_exposure : List (Position A) → Num → Num
  get_total_exposure ps equity =
      if le equity (dec 0 0) then dec 0 0 else div (total_notional (dec 0 0) ps) equity

  -- The score to look at: none without a region, or where no region has a score.
  abbrev pub score_of : Option String → Dict F.Num → Option F.Num
  score_of none scores = none
  score_of (some r) [] = none
  score_of (some r) (s ∷ scores) =
      if str_eq r "" then none else some (lookup_or r (F.dec 0 1) (s ∷ scores))

  abbrev pub is_elevated : Option F.Num → Bool
  is_elevated none = false
  is_elevated (some score) = F.lt (F.dec 700 1) score

  pub get_effective_class_limit : ExposureManager A F → Option String → Dict F.Num → Num
  get_effective_class_limit m region scores =
      if is_elevated (score_of region scores)
      then div m.max_per_class (dec 2 0)
      else m.max_per_class

  abbrev pub scores_for : ExposureManager A F → Option (Dict F.Num) → Dict F.Num
  scores_for m none = m.geo_risk_scores
  scores_for m (some scores) = scores

  unfoldable pub check_exposure :
      ExposureManager A F
      → Position A
      → List (Position A)
      → Num
      → Option (Dict F.Num)
      → ExposureCheckResult A
  unfolding get_class_exposure get_total_exposure get_effective_class_limit
  check_exposure m p ps equity given =
      if le equity (dec 0 0)
      then record {
        allowed = false;
        rejection_reason = some equity_not_positive;
        current_class_exposure = dec 0 0;
        current_total_exposure = dec 0 0;
      }
      else let of_class = get_class_exposure p.asset_class ps equity in
        let in_total = get_total_exposure ps equity in
        let notional = abs_of A p.notional_value in
        let projected_class = add of_class (div notional equity) in
        let projected_total = add in_total (div notional equity) in
        let limit = get_effective_class_limit m p.region (scores_for m given) in
        if lt limit projected_class
        then record {
          allowed = false;
          rejection_reason =
              some (
                class_limit_breached p.asset_class projected_class limit
                  (lt limit m.max_per_class));
          current_class_exposure = of_class;
          current_total_exposure = in_total;
        }
        else if lt m.max_total projected_total
        then record {
          allowed = false;
          rejection_reason = some (total_limit_breached projected_total m.max_total);
          current_class_exposure = of_class;
          current_total_exposure = in_total;
        }
        else record {
          allowed = true;
          rejection_reason = none;
          current_class_exposure = of_class;
          current_total_exposure = in_total;
        }
