-- ===== src/Strategy/Overtrading.antt =====
-- src/strategy/overtrading_guard.py: how often a strategy may trade an instrument. Times and
-- spans are numbers of microseconds, none negative; a clock reading is an argument. The text that
-- explains a refusal is a constructor that holds the values it prints.
pub mod Cooldown
pub mod Limits
pub mod Interval
mod Tests
use ig_trading_bot.Common.{
  ℕ, suc, ◌+◌, ◌-◌, ◌*◌, ◌/◌, min, max, String, Bool, true, false, ◌&&◌, Option, none, some, List,
  [], ◌∷◌, Arith, if◌then◌else◌, ltb, leb, negate, present, Dict, lookup, lookup_or, insert, erase,
}

-- src/config/constants.py
abbrev pub consecutive_loss_threshold : ℕ
consecutive_loss_threshold = 3

abbrev pub confidence_threshold_elevated : ℕ
confidence_threshold_elevated = 75

pub data Refusal : Type 0 where
  daily_limit_reached : ℕ → ℕ → Refusal
  interval_not_met : ℕ → Refusal
  cooldown_active : ℕ → ℕ → Refusal

pub record TradeDecision : Type 0 where
  pub allowed : Bool
  pub reason : Option Refusal
  pub elevated_threshold : Option ℕ

pub record OvertradingGuard : Type 0 where
  pub max_trades_per_day : ℕ
  pub min_interval : ℕ
  pub cooldown_duration : ℕ
  pub trade_counts : Dict (Dict ℕ)
  pub last_trade_times : Dict ℕ
  pub consecutive_losses : Dict ℕ
  pub cooldown_start : Dict ℕ

-- `__init__`, with the intervals in minutes and hours.
pub new : ℕ → ℕ → ℕ → OvertradingGuard
new trades minutes hours = record {
  max_trades_per_day = max 1 (min trades 100);
  min_interval = minutes * 60000000;
  cooldown_duration = hours * 3600000000;
  trade_counts = [];
  last_trade_times = [];
  consecutive_losses = [];
  cooldown_start = [];
}

-- `get_trade_count`
abbrev pub get_trade_count : OvertradingGuard → String → String → ℕ
get_trade_count g s i = lookup_or i 0 (lookup_or s [] g.trade_counts)

abbrev pub losses_of : OvertradingGuard → String → ℕ
losses_of g i = lookup_or i 0 g.consecutive_losses

abbrev pub refuse : Refusal → TradeDecision
refuse r = record { allowed = false; reason = some r; elevated_threshold = none }

abbrev pub allow : Option ℕ → TradeDecision
allow elevated = record { allowed = true; reason = none; elevated_threshold = elevated }

-- The third rule, which forgets a cooldown that is over, and the decision that is left.
abbrev pub cooldown_rule :
    OvertradingGuard → String → ℕ → Option ℕ → Option ℕ → OvertradingGuard × TradeDecision
cooldown_rule g i now elevated none = (g, allow elevated)
cooldown_rule g i now elevated (some start) =
    if ltb now (start + g.cooldown_duration)
    then (g, refuse (cooldown_active (losses_of g i) (start + g.cooldown_duration - now)))
    else (
      record g {
        consecutive_losses = insert i 0 g.consecutive_losses;
        cooldown_start = erase i g.cooldown_start;
      },
      allow elevated,
    )

-- `last_time is not None and current_time - last_time < self._min_interval`
abbrev pub too_soon : OvertradingGuard → ℕ → Option ℕ → Bool
too_soon g now none = false
too_soon g now (some last) = ltb now (last + g.min_interval)

-- `self._min_interval - elapsed`
abbrev pub remaining : OvertradingGuard → ℕ → Option ℕ → ℕ
remaining g now none = 0
remaining g now (some last) = last + g.min_interval - now

-- The rules after the first, at the effective limit and the threshold that the win rate gives.
pub later_rules :
    OvertradingGuard → String → String → ℕ → ℕ → Option ℕ → OvertradingGuard × TradeDecision
later_rules g s i now effective_max elevated =
    if leb effective_max (get_trade_count g s i)
    then (g, refuse (daily_limit_reached (get_trade_count g s i) effective_max))
    else if too_soon g now (lookup i g.last_trade_times)
    then (g, refuse (interval_not_met (remaining g now (lookup i g.last_trade_times))))
    else if leb consecutive_loss_threshold (losses_of g i)
    then cooldown_rule g i now elevated (lookup i g.cooldown_start)
    else (g, allow elevated)

pub record_trade : OvertradingGuard → String → String → ℕ → OvertradingGuard
record_trade g s i now =
    let counts = lookup_or s [] g.trade_counts in
    record g {
      trade_counts = insert s (insert i (lookup_or i 0 counts + 1) counts) g.trade_counts;
      last_trade_times = insert i now g.last_trade_times;
    }

pub record_loss : OvertradingGuard → String → ℕ → OvertradingGuard
record_loss g i utc_now =
    let current = losses_of g i + 1 in
    record g {
      consecutive_losses = insert i current g.consecutive_losses;
      cooldown_start =
          (if leb consecutive_loss_threshold current && negate (present (lookup i g.cooldown_start))
            then insert i utc_now g.cooldown_start
            else g.cooldown_start);
    }

pub record_win : OvertradingGuard → String → OvertradingGuard
record_win g i = record g {
  consecutive_losses = insert i 0 g.consecutive_losses;
  cooldown_start = erase i g.cooldown_start;
}

pub reset_daily : OvertradingGuard → OvertradingGuard
reset_daily g = record g { trade_counts = [] }

abbrev before_end : OvertradingGuard → ℕ → Option ℕ → Bool
before_end g now none = false
before_end g now (some start) = ltb now (start + g.cooldown_duration)

pub is_in_cooldown : OvertradingGuard → String → ℕ → Bool
is_in_cooldown g i now =
    if ltb (losses_of g i) consecutive_loss_threshold
    then false
    else before_end g now (lookup i g.cooldown_start)

module _ (A : Arith) where
  pub can_trade :
      OvertradingGuard → String → String → ℕ → A.Num → Bool → OvertradingGuard × TradeDecision
  unfolding later_rules
  can_trade g s i now win_rate is_hft_signal =
      if is_hft_signal
      then (g, allow none)
      else if A.lt win_rate (A.dec 40 2)
      then later_rules g s i now (max 1 (g.max_trades_per_day / 2))
          (some confidence_threshold_elevated)
      else later_rules g s i now g.max_trades_per_day none

  -- How the guard is used: a trade is recorded if it was allowed.
  pub try_trade : OvertradingGuard → String → String → ℕ → A.Num → Bool → OvertradingGuard × Bool
  try_trade g s i now win_rate is_hft_signal =
      let (g', decision) = can_trade g s i now win_rate is_hft_signal in
      if decision.allowed then (record_trade g' s i now, true) else (g', false)

pub data Call (A : Arith) : Type 0 where
  try_call : String → String → ℕ → A.Num → Bool → Call A
  loss_call : String → ℕ → Call A
  win_call : String → Call A
  reset_call : Call A

module _ (A : Arith) where
  pub step : OvertradingGuard → Call A → OvertradingGuard
  unfolding try_trade record_loss record_win reset_daily
  step g (try_call s i now w is_hft_signal) = (try_trade A g s i now w is_hft_signal).0
  step g (loss_call i now) = record_loss g i now
  step g (win_call i) = record_win g i
  step g reset_call = reset_daily g

  pub run : OvertradingGuard → List (Call A) → OvertradingGuard
  run g [] = g
  run g (c ∷ cs) = run (step g c) cs
