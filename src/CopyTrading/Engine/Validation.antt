-- ===== src/CopyTrading/Engine/Validation.antt =====
-- What the risk engine makes of copied trades.
use ig_trading_bot.Common.{
  ℕ, ◌≡◌, refl, String, Bool, true, false, Option, none, some, [], Arith, IsOrdered, arith,
  Bool-cases, inl, inr,
}
use ig_trading_bot.Risk.Drawdown
use ig_trading_bot.Risk.Engine.{RiskEngine, ValidationResult}
use ig_trading_bot.Risk.Engine.Safety.{allowed_signal_is_safe}
use ig_trading_bot.CopyTrading.Engine.{
  CopyStatus, executed, SourceTrade, CopiedTrade, CopyEngine, ValidationEnd, in_time, never_begun,
  cut_off, Timing, signal_of,
}
use ig_trading_bot.CopyTrading.Engine.Replication.{
  validated, after_validation, with_risk_engine, replicate_trade, size_of,
}

abbrev pub is_executed : CopyStatus → Bool
is_executed executed = true
is_executed _ = false

module _ (A F : Arith) (lower : String → String) (decimal : F.Num → A.Num) (float : A.Num → F.Num)
    (quantize : A.Num → A.Num) (describe : Drawdown.Reason A → String) (cents : A.Num → A.Num)
    (label : ℕ → String) where
  abbrev pub executed_in : Option (CopiedTrade A F) → Bool
  executed_in none = false
  executed_in (some copy) = is_executed copy.status

  -- The signal of a copied trade has no volatility, so the sizer rejects it.
  copies_not_allowed :
      (o : IsOrdered A) (r : RiskEngine A F) (trade : SourceTrade A) (size equity : A.Num)
      (t : Timing F) (v : ValidationResult A F)
      → (validated A F lower decimal float quantize describe cents label r trade size equity t).1
        ≡ some v
      → v.allowed ≡ false
  copies_not_allowed o r trade size equity t v h = elim (Bool-cases v.allowed) [
    | inl allowed ↦
        let safe =
          allowed_signal_is_safe A F lower decimal float quantize describe r
            (signal_of A F trade size) equity [] t.first_reading t.second_reading t.last_reading v h
            allowed in
        absurd (ground (arith, safe.2.by_formula.moving, o.le_refl (A.dec 0 0)))
    | inr refused ↦ refused
  ]

  -- After a validation that refuses, nothing is executed.
  after_validation-refused :
      (e : CopyEngine A F) (trade : SourceTrade A) (size : A.Num) (t : Timing F) (ended : Bool)
      (v : Option (ValidationResult A F))
      → ((w : ValidationResult A F) → v ≡ some w → w.allowed ≡ false)
      → let out =
          after_validation A F lower decimal float quantize describe cents label e trade size t
            ended v in
        (out.0.active_copies ≡ e.active_copies) × (executed_in out.1 ≡ false)
  after_validation-refused e trade size t ended none refuses = (refl, refl)
  after_validation-refused e trade size t true (some v) refuses = rw (refuses v refl) (refl, refl)
  after_validation-refused e trade size t false (some v) refuses = (refl, refl)

  with_risk_engine-refuses :
      (o : IsOrdered A) (e : CopyEngine A F) (r : RiskEngine A F) (trade : SourceTrade A)
      (size equity : A.Num) (t : Timing F) (ending : ValidationEnd)
      → t.validation ≡ ending
      → let out =
          with_risk_engine A F lower decimal float quantize describe cents label e r trade size
            equity t in
        (out.0.active_copies ≡ e.active_copies) × (executed_in out.1 ≡ false)
  unfolding with_risk_engine
  with_risk_engine-refuses o e r trade size equity t in_time ends =
      rw (ends, with_risk_engine)
        (after_validation-refused _ trade size t true _
          (copies_not_allowed o r trade size equity t))
  with_risk_engine-refuses o e r trade size equity t never_begun ends =
      rw (ends, with_risk_engine) (refl, refl)
  with_risk_engine-refuses o e r trade size equity t cut_off ends =
      rw (ends, with_risk_engine)
        (after_validation-refused _ trade size t false _
          (copies_not_allowed o r trade size equity t))

  -- A copy engine that has a risk engine executes no trade at all: whatever the trade, the amounts,
  -- the states and the timing, the replication never returns an executed trade, and the active
  -- copies stay as they are.
  pub replicate_trade_never_executes :
      (o : IsOrdered A) (e : CopyEngine A F) (r : RiskEngine A F) (trade : SourceTrade A)
      (allocation equity : A.Num) (t : Timing F)
      → e.risk_engine ≡ some r
      → let out =
          replicate_trade A F lower decimal float quantize describe cents label e trade allocation
            equity t in
        (out.0.active_copies ≡ e.active_copies) × (executed_in out.1 ≡ false)
  unfolding replicate_trade
  replicate_trade_never_executes o e r trade allocation equity t has =
      elim (Bool-cases (A.le equity (A.dec 0 0))) [
        | inl broke ↦ rw (broke, replicate_trade) (refl, refl)
        | inr solvent ↦ elim (Bool-cases (F.lt e.execution_timeout t.before_validation)) [
          | inl late ↦ rw (solvent, late, replicate_trade) (refl, refl)
          | inr early ↦
              rw (solvent, early, has, replicate_trade)
                (with_risk_engine-refuses o _ r trade
                  (size_of A F lower decimal float quantize describe cents label trade allocation
                    equity)
                  equity t t.validation refl)
        ]
      ]
