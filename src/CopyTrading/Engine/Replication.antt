-- ===== src/CopyTrading/Engine/Replication.antt =====
-- src/copy_trading/copy_engine.py: the replication of a trade, with the validation by the risk engine.
use ig_trading_bot.Common.{
  ℕ, suc, String, Bool, true, false, negate, Option, none, some, [], Arith, if◌then◌else◌, insert,
}
use ig_trading_bot.Risk.Drawdown
use ig_trading_bot.Risk.Engine.{RiskEngine, ValidationResult, validate_signal}
use ig_trading_bot.CopyTrading.Engine.{
  CopyStatus, executed, cancelled, timed_out, risk_rejected, SourceTrade, CopiedTrade, CopyEngine,
  in_time, never_begun, cut_off, Timing, signal_of, changed, add_position,
}

module _ (A F : Arith) (lower : String → String) (decimal : F.Num → A.Num) (float : A.Num → F.Num)
    (quantize : A.Num → A.Num) (describe : Drawdown.Reason A → String) (cents : A.Num → A.Num)
    (label : ℕ → String) where
  open A use {Num, dec, mul, div, lt, le}

  abbrev pub copied : ℕ → SourceTrade A → Num → CopyStatus → Timing F → CopiedTrade A F
  copied n trade size status t = record {
    deal_id = label n;
    source = trade;
    size = size;
    status = status;
    opened_at = t.opened_at;
    closed_at = none;
    execution_time_ms = F.dec 0 1;
  }

  -- The trade's execution, which is a record of it. The deal has the counter's number.
  unfoldable pub execute :
      CopyEngine A F → SourceTrade A → Num → Timing F → CopyEngine A F × CopiedTrade A F
  execute e trade size t =
      let id = label e.deal_counter in
      let done : CopiedTrade A F = record (copied e.deal_counter trade size executed t) {
        execution_time_ms = F.mul t.at_end (F.dec 1000 0);
      } in
      if F.lt e.execution_timeout t.after_validation
      then (e, copied e.deal_counter trade size timed_out t)
      else (
        record e {
          active_copies = insert id done e.active_copies;
          trader_allocations =
              changed A F trade.trader_id (add_position A F id) e.trader_allocations;
        },
        done,
      )

  abbrev pub validated :
      RiskEngine A F
      → SourceTrade A
      → Num
      → Num
      → Timing F
      → RiskEngine A F × Option (ValidationResult A F)
  validated r trade size equity t =
      validate_signal A F lower decimal float quantize describe r (signal_of A F trade size) equity
        [] t.first_reading t.second_reading t.last_reading

  -- What follows a validation that ran, to its end or until its timeout.
  abbrev pub after_validation :
      CopyEngine A F
      → SourceTrade A
      → Num
      → Timing F
      → Bool
      → Option (ValidationResult A F)
      → CopyEngine A F × Option (CopiedTrade A F)
  after_validation e trade size t ended none = (e, none)
  after_validation e trade size t ended (some v) =
      let (e', done) = execute e trade size t in
      if negate ended
      then (e, some (copied e.deal_counter trade size timed_out t))
      else if negate v.allowed
      then (e, some (copied e.deal_counter trade size risk_rejected t))
      else (e', some done)

  unfoldable pub with_risk_engine :
      CopyEngine A F
      → RiskEngine A F
      → SourceTrade A
      → Num
      → Num
      → Timing F
      → CopyEngine A F × Option (CopiedTrade A F)
  unfolding execute
  with_risk_engine e r trade size equity t =
      let (r', v) = validated r trade size equity t in
      elim t.validation [
        | in_time ↦ after_validation (record e { risk_engine = some r' }) trade size t true v
        | never_begun ↦ (e, some (copied e.deal_counter trade size timed_out t))
        | cut_off ↦
            after_validation
              (record e { risk_engine = some (record r' { published = r.published }) }) trade size t
              false v
      ]

  -- The size, proportional to the allocation and at least a hundredth.
  abbrev pub size_of : SourceTrade A → Num → Num → Num
  size_of trade allocation equity =
      let size = cents (mul trade.size (div allocation equity)) in
      if lt size (dec 1 2) then dec 1 2 else size

  -- `replicate_trade`: the second part is `none` where an exception leaves it.
  unfoldable pub replicate_trade :
      CopyEngine A F
      → SourceTrade A
      → Num
      → Num
      → Timing F
      → CopyEngine A F × Option (CopiedTrade A F)
  unfolding with_risk_engine execute
  replicate_trade e trade allocation equity t =
      let e' : CopyEngine A F = record e { deal_counter = suc e.deal_counter } in
      let size = size_of trade allocation equity in
      if le equity (dec 0 0)
      then (e', some (copied e'.deal_counter trade (dec 0 0) cancelled t))
      else if F.lt e.execution_timeout t.before_validation
      then (e', some (copied e'.deal_counter trade size timed_out t))
      else elim e.risk_engine [
        | none ↦ let (e'', done) = execute e' trade size t in (e'', some done)
        | some r ↦ with_risk_engine e' r trade size equity t
      ]
