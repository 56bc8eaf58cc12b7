-- ===== src/Strategy/Overtrading/Cooldown.antt =====
-- The third rule: the pause after three losses in a row on an instrument.
use text.Mathlib.Text.{◌==◌}
use text.Mathlib.TextEquality.{eq_iff}
use ig_trading_bot.Common.{
  ℕ, ◌+◌, ◌≤◌, ◌<◌, ◌≡◌, refl, String, true, false, Option, none, some, List, [], ◌∷◌, Arith, arith,
  All, lookup, present, lookup-insert, lookup-insert_self, lookup-erase, Bool-cases, inl, inr, leb,
  sym, false-ne-true, ◌∙◌,
}
use ig_trading_bot.Strategy.Overtrading.{
  OvertradingGuard, TradeDecision, Call, try_call, loss_call, win_call, reset_call, losses_of,
  later_rules, record_trade, record_loss, record_win, reset_daily, is_in_cooldown, new, can_trade,
  try_trade, step, run, consecutive_loss_threshold,
}
use ig_trading_bot.Strategy.Overtrading.Limits.{can_trade-Decided, try_trade-hft}

-- An instrument has a cooldown exactly when its losses have reached the threshold.
abbrev pub IsPaired : String → OvertradingGuard → Type 0
IsPaired i g = leb consecutive_loss_threshold (losses_of g i) ≡ present (lookup i g.cooldown_start)

later_rules-IsPaired :
    (g : OvertradingGuard) (i s j : String) (now limit : ℕ) (elevated : Option ℕ)
    → IsPaired i g
    → IsPaired i (later_rules g s j now limit elevated).0
unfolding later_rules
later_rules-IsPaired g i s j now limit elevated h =
    ground (arith, lookup-insert j i 0 g.consecutive_losses, lookup-erase j i g.cooldown_start)

record_loss-IsPaired :
    (g : OvertradingGuard) (i j : String) (now : ℕ)
    → IsPaired i g
    → IsPaired i (record_loss g j now)
unfolding record_loss
record_loss-IsPaired g i j now h = ground (
  arith,
  eq_iff j i,
  lookup-insert j i (losses_of g j + 1) g.consecutive_losses,
  lookup-insert j i now g.cooldown_start,
)

record_win-IsPaired :
    (g : OvertradingGuard) (i j : String) → IsPaired i g → IsPaired i (record_win g j)
unfolding record_win
record_win-IsPaired g i j h =
    ground (arith, lookup-insert j i 0 g.consecutive_losses, lookup-erase j i g.cooldown_start)

-- The cooldown of the instrument began at `start`.
record CoolingSince (i : String) (start duration : ℕ) (g : OvertradingGuard) : Type 0 where
  pos : 1 ≤ g.max_trades_per_day
  losses : consecutive_loss_threshold ≤ losses_of g i
  begun : lookup i g.cooldown_start ≡ some start
  wait : g.cooldown_duration ≡ duration

later_rules-CoolingSince :
    (g : OvertradingGuard) (i s j : String) (now limit start duration : ℕ) (elevated : Option ℕ)
    → CoolingSince i start duration g
    → now < start + duration
    → CoolingSince i start duration (later_rules g s j now limit elevated).0
unfolding later_rules
later_rules-CoolingSince g i s j now limit start duration elevated h early =
    ground (
      arith,
      eq_iff j i,
      lookup-insert j i 0 g.consecutive_losses,
      lookup-erase j i g.cooldown_start,
    )

record_loss-CoolingSince :
    (g : OvertradingGuard) (i j : String) (now start duration : ℕ)
    → CoolingSince i start duration g
    → CoolingSince i start duration (record_loss g j now)
unfolding record_loss
record_loss-CoolingSince g i j now start duration h = ground (
  arith,
  eq_iff j i,
  lookup-insert j i (losses_of g j + 1) g.consecutive_losses,
  lookup-insert j i now g.cooldown_start,
)

record_win-CoolingSince :
    (g : OvertradingGuard) (i j : String) (start duration : ℕ)
    → CoolingSince i start duration g
    → (j == i) ≡ false
    → CoolingSince i start duration (record_win g j)
unfolding record_win
record_win-CoolingSince g i j start duration h other =
    ground (arith, lookup-insert j i 0 g.consecutive_losses, lookup-erase j i g.cooldown_start)

module _ (A : Arith) where
  -- `can_trade` as the rules after the first, for a signal that is not of the HFT pipeline.
  can_trade_cases :
      (P : OvertradingGuard × TradeDecision → Type 0) (g : OvertradingGuard) (s i : String)
      (now : ℕ) (w : A.Num)
      → ((limit : ℕ) (elevated : Option ℕ) → P (later_rules g s i now limit elevated))
      → P (can_trade A g s i now w false)
  unfolding can_trade
  can_trade_cases P g s i now w all = elim (Bool-cases (A.lt w (A.dec 40 2))) [
    | inl low ↦ rw (low, can_trade) (all _ _)
    | inr high ↦ rw (high, can_trade) (all _ _)
  ]

  -- What a trade does is recorded in fields that the third rule does not read.
  try_trade_cases :
      (P : OvertradingGuard → Type 0) (g : OvertradingGuard) (s i : String) (now : ℕ) (w : A.Num)
      → ((g' : OvertradingGuard) → P g' → P (record_trade g' s i now))
      → P (can_trade A g s i now w false).0
      → P (try_trade A g s i now w false).0
  unfolding try_trade
  try_trade_cases P g s i now w recorded decided =
      elim (Bool-cases (can_trade A g s i now w false).1.allowed) [
        | inl yes_ ↦ rw (yes_, try_trade) (recorded _ decided)
        | inr no_ ↦ rw (no_, try_trade) decided
      ]

  step-IsPaired :
      (i : String) (g : OvertradingGuard) (c : Call A) → IsPaired i g → IsPaired i (step A g c)
  unfolding step reset_daily
  step-IsPaired i g (try_call s j now w true) h =
      rw (try_trade-hft A g s j now w) (unfold record_trade in h)
  step-IsPaired i g (try_call s j now w false) h =
      try_trade_cases (IsPaired i) g s j now w (λ g' p. unfold record_trade in p)
        (can_trade_cases (λ out. IsPaired i out.0) g s j now w
          (λ limit elevated. later_rules-IsPaired g i s j now limit elevated h))
  step-IsPaired i g (loss_call j now) h = record_loss-IsPaired g i j now h
  step-IsPaired i g (win_call j) h = record_win-IsPaired g i j h
  step-IsPaired i g reset_call h = h

  run-IsPaired :
      (i : String) (g : OvertradingGuard) (cs : List (Call A))
      → IsPaired i g
      → IsPaired i (run A g cs)
  unfolding run
  run-IsPaired i g [] h = h
  run-IsPaired i g (c ∷ cs) h = run-IsPaired i (step A g c) cs (step-IsPaired i g c h)

  -- In every state that a new guard reaches, an instrument has a cooldown start exactly when it has
  -- had three losses or more in a row, so the entry that `can_trade` deletes is always there.
  pub cooldowns-IsPaired :
      (trades minutes hours : ℕ) (i : String) (cs : List (Call A))
      → IsPaired i (run A (new trades minutes hours) cs)
  unfolding new lookup
  cooldowns-IsPaired trades minutes hours i cs = run-IsPaired i (new trades minutes hours) cs refl

  -- Attempts outside the HFT pipeline read a clock before `t`, and there is no win on the instrument.
  abbrev pub Endures : String → ℕ → Call A → Type 0
  Endures i t (try_call s j now w false) = now < t
  Endures i t (try_call s j now w true) = Unit
  Endures i t (loss_call j now) = Unit
  Endures i t (win_call j) = (j == i) ≡ false
  Endures i t reset_call = Unit

  step-CoolingSince :
      (i : String) (start duration : ℕ) (g : OvertradingGuard) (c : Call A)
      → CoolingSince i start duration g
      → Endures i (start + duration) c
      → CoolingSince i start duration (step A g c)
  unfolding step reset_daily
  step-CoolingSince i start duration g (try_call s j now w true) h early =
      rw (try_trade-hft A g s j now w) (
        unfold record_trade in
        record { pos = h.pos; losses = h.losses; begun = h.begun; wait = h.wait })
  step-CoolingSince i start duration g (try_call s j now w false) h early =
      try_trade_cases (CoolingSince i start duration) g s j now w
        (λ g' p.
          unfold record_trade in
          record { pos = p.pos; losses = p.losses; begun = p.begun; wait = p.wait })
        (can_trade_cases (λ out. CoolingSince i start duration out.0) g s j now w
          (λ limit elevated.
            later_rules-CoolingSince g i s j now limit start duration elevated h early))
  step-CoolingSince i start duration g (loss_call j now) h early =
      record_loss-CoolingSince g i j now start duration h
  step-CoolingSince i start duration g (win_call j) h other =
      record_win-CoolingSince g i j start duration h other
  step-CoolingSince i start duration g reset_call h early = record {
    pos = h.pos;
    losses = h.losses;
    begun = h.begun;
    wait = h.wait;
  }

  run-CoolingSince :
      (i : String) (start duration : ℕ) (g : OvertradingGuard) (cs : List (Call A))
      → CoolingSince i start duration g
      → All (Endures i (start + duration)) cs
      → CoolingSince i start duration (run A g cs)
  unfolding run
  run-CoolingSince i start duration g [] h early = h
  run-CoolingSince i start duration g (c ∷ cs) h early =
      run-CoolingSince i start duration (step A g c) cs
        (step-CoolingSince i start duration g c h early.0) early.1

  try_trade-cooling :
      (i : String) (start duration : ℕ) (g : OvertradingGuard) (s : String) (now : ℕ) (w : A.Num)
      → CoolingSince i start duration g
      → now < start + duration
      → (is_in_cooldown g i now ≡ true) × ((try_trade A g s i now w false).1 ≡ false)
  unfolding try_trade is_in_cooldown
  try_trade-cooling i start duration g s now w h early = (
    cooling,
    elim (Bool-cases (can_trade A g s i now w false).1.allowed) [
      | inl yes_ ↦
          absurd (false-ne-true (sym ((can_trade-Decided A g s i now w h.pos).cool yes_) ∙ cooling))
      | inr no_ ↦ rw (no_, try_trade)
    ],
  )
    where
      cooling : is_in_cooldown g i now ≡ true
      cooling = ground arith

  -- The third loss in a row on an instrument, recorded at time t, starts a pause: until t plus the
  -- cooldown, and as long as no win on the instrument is recorded, the instrument is in cooldown
  -- and every attempt to trade it outside the HFT pipeline, which bypasses the guard, is refused,
  -- whatever else is called in between, HFT trades included.
  pub third_loss_locks_out :
      (g : OvertradingGuard) (i s : String) (t now : ℕ) (w : A.Num) (cs : List (Call A))
      → 1 ≤ g.max_trades_per_day
      → losses_of g i ≡ 2
      → lookup i g.cooldown_start ≡ none
      → All (Endures i (t + g.cooldown_duration)) cs
      → now < t + g.cooldown_duration
      → let g' = run A (record_loss g i t) cs in
        (is_in_cooldown g' i now ≡ true) × ((try_trade A g' s i now w false).1 ≡ false)
  unfolding record_loss
  third_loss_locks_out g i s t now w cs pos two fresh endures before =
      try_trade-cooling i t g.cooldown_duration (run A (record_loss g i t) cs) s now w
        (run-CoolingSince i t g.cooldown_duration (record_loss g i t) cs begins endures) before
    where
      begins : CoolingSince i t g.cooldown_duration (record_loss g i t)
      begins = ground (
        arith,
        lookup-insert_self i (losses_of g i + 1) g.consecutive_losses,
        lookup-insert_self i t g.cooldown_start,
      )
