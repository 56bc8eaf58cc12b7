-- ===== src/Strategy/Overtrading/Limits.antt =====
-- What a decision leaves alone, and the daily limit.
use text.Mathlib.Text.{◌==◌}
use text.Mathlib.TextEquality.{eq_iff}
use ig_trading_bot.Common.{
  ℕ, ◌+◌, ◌≤◌, ◌<◌, ◌≡◌, refl, String, true, false, Option, List, [], ◌∷◌, Arith, arith, ◌/◌, max,
  lookup, lookup_or, insert, lookup-insert, Bool-cases, inl, inr, if◌then◌else◌,
}
use ig_trading_bot.Strategy.Overtrading.{
  OvertradingGuard, TradeDecision, Call, try_call, loss_call, win_call, reset_call, get_trade_count,
  too_soon, later_rules, record_trade, record_loss, record_win, reset_daily, is_in_cooldown,
  can_trade, try_trade, step, run,
}

-- What the rules after the first leave alone, and what holds where they allow a trade.
pub record Decided (g : OvertradingGuard) (s i : String) (now limit : ℕ)
    (out : OvertradingGuard × TradeDecision) : Type 0 where
  pub counts : out.0.trade_counts ≡ g.trade_counts
  pub times : out.0.last_trade_times ≡ g.last_trade_times
  pub most : out.0.max_trades_per_day ≡ g.max_trades_per_day
  pub interval : out.0.min_interval ≡ g.min_interval
  pub below : out.1.allowed ≡ true → get_trade_count g s i < limit
  pub rested : out.1.allowed ≡ true → too_soon g now (lookup i g.last_trade_times) ≡ false
  pub cool : out.1.allowed ≡ true → is_in_cooldown g i now ≡ false

later_rules-Decided :
    (g : OvertradingGuard) (s i : String) (now limit : ℕ) (elevated : Option ℕ)
    → Decided g s i now limit (later_rules g s i now limit elevated)
unfolding later_rules is_in_cooldown
later_rules-Decided g s i now limit elevated = record {
  counts = ground arith;
  times = ground arith;
  most = ground arith;
  interval = ground arith;
  below = λ h. ground arith;
  rested = λ h. ground arith;
  cool = λ h. ground arith;
}

Decided-mono :
    {g : OvertradingGuard} {s i : String} {now : ℕ} (limit limit' : ℕ)
    {out : OvertradingGuard × TradeDecision}
    → limit ≤ limit'
    → Decided g s i now limit out
    → Decided g s i now limit' out
Decided-mono limit limit' le d = record {
  counts = d.counts;
  times = d.times;
  most = d.most;
  interval = d.interval;
  below = λ h. omega (arith, d.below h);
  rested = d.rested;
  cool = d.cool;
}

-- A count is at most the limit and `extra`, and the limit is at least one.
abbrev pub IsWithin : String → String → ℕ → OvertradingGuard → Type 0
IsWithin s i extra g =
    (1 ≤ g.max_trades_per_day) × (get_trade_count g s i ≤ g.max_trades_per_day + extra)

record_trade-count :
    (g : OvertradingGuard) (s i s' i' : String) (now : ℕ)
    → get_trade_count (record_trade g s' i' now) s i ≡ (
        if s' == s
        then (if i' == i then get_trade_count g s' i' + 1 else get_trade_count g s i)
        else get_trade_count g s i)
unfolding record_trade
record_trade-count g s i s' i' now =
    let counts = lookup_or s' [] g.trade_counts in
    let counted = insert i' (lookup_or i' 0 counts + 1) counts in
    ground (
      arith,
      eq_iff s' s,
      eq_iff i' i,
      lookup-insert s' s counted g.trade_counts,
      lookup-insert i' i (lookup_or i' 0 counts + 1) counts,
    )

record_trade-IsWithin :
    (g : OvertradingGuard) (s i s' i' : String) (now extra : ℕ)
    → IsWithin s i extra g
    → get_trade_count g s' i' < g.max_trades_per_day
    → IsWithin s i extra (record_trade g s' i' now)
record_trade-IsWithin g s i s' i' now extra v room =
    let kept : (record_trade g s' i' now).max_trades_per_day ≡ g.max_trades_per_day =
      unfold record_trade in refl in
    (rw kept v.0, rw (kept, record_trade-count) (ground (arith, v.1, room)))

-- Whether a trade is one of this strategy on this instrument.
abbrev pub one_if : String → String → String → String → ℕ
one_if s i s' i' = if s' == s then (if i' == i then 1 else 0) else 0

-- A trade that is recorded without the guard's rules.
record_trade-IsWithin_extra :
    (g : OvertradingGuard) (s i s' i' : String) (now extra : ℕ)
    → IsWithin s i extra g
    → IsWithin s i (extra + one_if s i s' i') (record_trade g s' i' now)
record_trade-IsWithin_extra g s i s' i' now extra v =
    let kept : (record_trade g s' i' now).max_trades_per_day ≡ g.max_trades_per_day =
      unfold record_trade in refl in
    (
      rw kept v.0,
      rw (kept, record_trade-count)
          (elim (Bool-cases (s' == s)) [
            | inr other ↦ rw other (omega (arith, v.1))
            | inl same ↦ elim (Bool-cases (i' == i)) [
              | inr other ↦ rw (same, other) (omega (arith, v.1))
              | inl same' ↦
                  rw (same, same', (eq_iff s' s).0 same, (eq_iff i' i).0 same') (omega (arith, v.1))
            ]
          ]),
    )

-- The counts that `IsWithin` reads are those of the dict and of the setting.
IsWithin-transfer :
    (s i : String) (extra : ℕ) (g g' : OvertradingGuard)
    → g'.trade_counts ≡ g.trade_counts
    → g'.max_trades_per_day ≡ g.max_trades_per_day
    → IsWithin s i extra g
    → IsWithin s i extra g'
IsWithin-transfer s i extra g g' e m v = (rw m v.0, rw (e, m) v.1)

module _ (A : Arith) where
  pub can_trade-Decided :
      (g : OvertradingGuard) (s i : String) (now : ℕ) (w : A.Num)
      → 1 ≤ g.max_trades_per_day
      → Decided g s i now g.max_trades_per_day (can_trade A g s i now w false)
  unfolding can_trade
  can_trade-Decided g s i now w pos = elim (Bool-cases (A.lt w (A.dec 40 2))) [
    | inl low ↦
        rw (low, can_trade)
          (Decided-mono (max 1 (g.max_trades_per_day / 2)) g.max_trades_per_day (omega arith)
            (later_rules-Decided g s i now _ _))
    | inr high ↦ rw (high, can_trade) (later_rules-Decided g s i now _ _)
  ]

  -- The trades of the HFT pipeline among the calls, of one strategy on one instrument.
  abbrev pub hft_trades : String → String → List (Call A) → ℕ
  hft_trades s i [] = 0
  hft_trades s i (try_call s' i' now w true ∷ cs) = one_if s i s' i' + hft_trades s i cs
  hft_trades s i (try_call s' i' now w false ∷ cs) = hft_trades s i cs
  hft_trades s i (loss_call i' now ∷ cs) = hft_trades s i cs
  hft_trades s i (win_call i' ∷ cs) = hft_trades s i cs
  hft_trades s i (reset_call ∷ cs) = hft_trades s i cs

  try_trade-IsWithin :
      (s i s' i' : String) (g : OvertradingGuard) (now extra : ℕ) (w : A.Num)
      → IsWithin s i extra g
      → IsWithin s i extra (try_trade A g s' i' now w false).0
  unfolding try_trade
  try_trade-IsWithin s i s' i' g now extra w v =
      let out = can_trade A g s' i' now w false in
      let d = can_trade-Decided g s' i' now w v.0 in
      elim (Bool-cases out.1.allowed) [
        | inl yes_ ↦
            rw (yes_, try_trade)
              (record_trade-IsWithin out.0 s i s' i' now extra
                (IsWithin-transfer s i extra g out.0 d.counts d.most v)
                (rw (d.counts, d.most) (d.below yes_)))
        | inr no_ ↦ rw (no_, try_trade) (IsWithin-transfer s i extra g out.0 d.counts d.most v)
      ]

  pub try_trade-hft :
      (g : OvertradingGuard) (s i : String) (now : ℕ) (w : A.Num)
      → (try_trade A g s i now w true).0 ≡ record_trade g s i now
  unfolding try_trade can_trade
  try_trade-hft g s i now w = refl

  -- Trades that are recorded only when the guard allows them, with losses, wins and daily resets
  -- between, never take a strategy's count for an instrument over the daily maximum by more than the
  -- trades of the HFT pipeline among them, which the guard always allows; without such trades the
  -- maximum holds. The win rates are arbitrary, the maximum is at least one, and the count may start
  -- anywhere up to it, or over it by `extra`.
  pub run-IsWithin :
      (s i : String) (extra : ℕ) (g : OvertradingGuard) (cs : List (Call A))
      → IsWithin s i extra g
      → IsWithin s i (extra + hft_trades s i cs) (run A g cs)
  unfolding run step try_trade can_trade record_loss record_win reset_daily lookup
  run-IsWithin s i extra g [] v = (v.0, omega (arith, v.1))
  run-IsWithin s i extra g (try_call s' i' now w true ∷ cs) v =
      let r =
        run-IsWithin s i (extra + one_if s i s' i') (record_trade g s' i' now) cs
          (record_trade-IsWithin_extra g s i s' i' now extra v) in
      (r.0, omega (arith, r.1))
  run-IsWithin s i extra g (try_call s' i' now w false ∷ cs) v =
      run-IsWithin s i extra (try_trade A g s' i' now w false).0 cs
        (try_trade-IsWithin s i s' i' g now extra w v)
  run-IsWithin s i extra g (loss_call i' now ∷ cs) v =
      run-IsWithin s i extra (record_loss g i' now) cs v
  run-IsWithin s i extra g (win_call i' ∷ cs) v = run-IsWithin s i extra (record_win g i') cs v
  run-IsWithin s i extra g (reset_call ∷ cs) v =
      run-IsWithin s i extra (reset_daily g) cs (v.0, omega arith)
