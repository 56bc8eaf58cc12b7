-- ===== src/CopyTrading/Engine.antt =====
-- src/copy_trading/copy_engine.py: the replication of other traders' trades and their closing.
-- `Decimal` amounts are numbers of `A`, floats numbers of `F`. `label` is the text of a deal's number,
-- and `cents` rounds to hundredths: both are the language's. The remaining parameters are those of
-- the risk engine, which validates the trades. The readings of the clock are arguments.
pub mod Replication
pub mod Stopping
pub mod Validation
pub mod Window
mod Tests
use text.Mathlib.Text.{◌==◌ as str_eq}
use ig_trading_bot.Common.{
  ℕ, suc, ◌-◌, String, Bool, true, false, negate, Option, none, some, List, [], ◌∷◌, ◌++◌, Arith,
  equal, if◌then◌else◌, leb, Dict, lookup, insert, erase, keys, keep,
}
use ig_trading_bot.Risk.Drawdown
use ig_trading_bot.Risk.Engine.{RiskEngine, TradeSignal, ValidationResult, validate_signal}

pub data CopyStatus : Type 0 where
  pending executed closed cancelled timed_out risk_rejected : CopyStatus

pub record SourceTrade (A : Arith) : Type 0 where
  pub trade_id : String
  pub trader_id : String
  pub instrument : String
  pub direction : String
  pub entry_price : A.Num
  pub stop_loss : A.Num
  pub take_profit : A.Num
  pub size : A.Num
  pub asset_class : String

-- `source` holds the fields that are copied from the source trade, whose size is not among them.
pub record CopiedTrade (A F : Arith) : Type 0 where
  pub deal_id : String
  pub source : SourceTrade A
  pub size : A.Num
  pub status : CopyStatus
  pub opened_at : ℕ
  pub closed_at : Option ℕ
  pub execution_time_ms : F.Num

pub record TraderAllocation (A : Arith) : Type 0 where
  pub allocated_equity : A.Num
  pub current_pnl : A.Num
  pub start_date : ℕ
  pub open_positions : List String
  pub pnl_history : List (ℕ × A.Num)

pub record CopyEngine (A F : Arith) : Type 0 where
  pub risk_engine : Option (RiskEngine A F)
  pub execution_timeout : F.Num
  pub drawdown_stop_pct : A.Num
  pub active_copies : Dict (CopiedTrade A F)
  pub trader_allocations : Dict (TraderAllocation A)
  pub deal_counter : ℕ

-- It ends in time, or the timeout comes before it begins, or while what it publishes is sent.
pub data ValidationEnd : Type 0 where
  in_time never_begun cut_off : ValidationEnd

-- The seconds that have passed at each look at the clock, how the validation ends
-- with its timeout, and the clock's readings for the trade and for the risk engine.
pub record Timing (F : Arith) : Type 0 where
  pub before_validation : F.Num
  pub after_validation : F.Num
  pub at_end : F.Num
  pub validation : ValidationEnd
  pub opened_at : ℕ
  pub first_reading : ℕ
  pub second_reading : ℕ
  pub last_reading : ℕ

-- The microseconds of seven days.
abbrev pub seven_days : ℕ
seven_days = 604800000000

module _ (A F : Arith) where
  open A use {Num, dec, sub, mul, div, lt, le}

  pub register_trader : CopyEngine A F → String → Num → ℕ → CopyEngine A F
  register_trader e trader equity now = record e {
    trader_allocations =
        insert trader
          (record {
            allocated_equity = equity;
            current_pnl = dec 0 0;
            start_date = now;
            open_positions = [];
            pnl_history = [];
          })
          e.trader_allocations;
  }

  abbrev pub signal_of : SourceTrade A → Num → TradeSignal A F
  signal_of t size = record {
    instrument = t.instrument;
    direction = t.direction;
    entry_price = t.entry_price;
    stop_loss = t.stop_loss;
    take_profit = t.take_profit;
    strategy = "copy_trading";
    asset_class = t.asset_class;
    notional_value = mul size t.entry_price;
    region = none;
    atr = dec 0 0;
    atr_zscore = F.dec 0 1;
    risk_pct = none;
  }

  -- `list.remove`, of the first occurrence.
  abbrev remove_first : String → List String → List String
  remove_first x [] = []
  remove_first x (y ∷ ys) = if str_eq x y then ys else y ∷ remove_first x ys

  abbrev forget : String → TraderAllocation A → TraderAllocation A
  forget id a = record a { open_positions = remove_first id a.open_positions }

  abbrev pub add_position : String → TraderAllocation A → TraderAllocation A
  add_position id a = record a { open_positions = a.open_positions ++ id ∷ [] }

  -- An allocation changed in place, where the trader has one.
  abbrev pub changed :
      String
      → (TraderAllocation A → TraderAllocation A)
      → Dict (TraderAllocation A)
      → Dict (TraderAllocation A)
  changed trader f d = elim (lookup trader d) [ none ↦ d | some a ↦ insert trader (f a) d ]

  -- `close_copied_position`: nothing is raised in its body, and its timeout is only logged.
  pub close_copied_position :
      CopyEngine A F → String → ℕ → CopyEngine A F × Option (CopiedTrade A F)
  close_copied_position e id now = elim (lookup id e.active_copies) [
    | none ↦ (e, none)
    | some t ↦ (
      record e {
        active_copies = erase id e.active_copies;
        trader_allocations = changed t.source.trader_id (forget id) e.trader_allocations;
      },
      some (record t { status = closed; closed_at = some now }),
    )
  ]

  abbrev pub copied_from : String → Option (CopiedTrade A F) → Bool
  copied_from trader none = false
  copied_from trader (some t) = str_eq t.source.trader_id trader

  abbrev pub positions_of : CopyEngine A F → String → List String
  positions_of e trader =
      keep (λ id. copied_from trader (lookup id e.active_copies)) (keys e.active_copies)

  abbrev taken {ℓ} : {B : Type ℓ} → Option B → List B → List B
  taken none bs = bs
  taken (some b) bs = b ∷ bs

  pub close_each :
      CopyEngine A F → List String → (String → ℕ) → CopyEngine A F × List (CopiedTrade A F)
  unfolding close_copied_position
  close_each e [] now = (e, [])
  close_each e (id ∷ ids) now =
      let (e', one) = close_copied_position e id (now id) in
      let (e'', rest) = close_each e' ids now in (e'', taken one rest)

  pub stop_copying_trader :
      CopyEngine A F → String → (String → ℕ) → CopyEngine A F × List (CopiedTrade A F)
  unfolding close_each
  stop_copying_trader e trader now =
      let (e', trades) = close_each e (positions_of e trader) now in
      (record e' { trader_allocations = erase trader e'.trader_allocations }, trades)

  pub handle_drawdown_stop :
      CopyEngine A F → String → (String → ℕ) → CopyEngine A F × List (CopiedTrade A F)
  unfolding stop_copying_trader
  handle_drawdown_stop e trader now = stop_copying_trader e trader now

  abbrev pub in_window : ℕ → ℕ × Num → Bool
  in_window now entry = leb (now - seven_days) entry.0

  abbrev pub peak_of : Num → List (ℕ × Num) → Num
  peak_of best [] = best
  peak_of best (p ∷ ps) = peak_of (if lt best p.1 then p.1 else best) ps

  -- The test on the history of the window; `none` where the text of the warning divides by zero.
  pub exceeds_limit : Num → Num → Num → List (ℕ × Num) → Option Bool
  exceeds_limit share equity pnl [] = some false
  exceeds_limit share equity pnl (p ∷ ps) =
      if le (mul equity share) (sub (peak_of p.1 ps) pnl)
      then (if equal A equity (dec 0 0) then none else some true)
      else some false

  abbrev pub recent : TraderAllocation A → Num → ℕ → List (ℕ × Num)
  recent a pnl now = keep (in_window now) (a.pnl_history ++ (now, pnl) ∷ [])

  pub check_drawdown_stop : CopyEngine A F → String → Num → ℕ → CopyEngine A F × Option Bool
  unfolding exceeds_limit
  check_drawdown_stop e trader pnl now = elim (lookup trader e.trader_allocations) [
    | none ↦ (e, some false)
    | some a ↦ (
      record e {
        trader_allocations =
            insert trader (record a { current_pnl = pnl; pnl_history = recent a pnl now })
              e.trader_allocations;
      },
      exceeds_limit e.drawdown_stop_pct a.allocated_equity pnl (recent a pnl now),
    )
  ]
