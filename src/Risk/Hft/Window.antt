-- ===== src/Risk/Hft/Window.antt =====
-- The window of the global counter: how many orders can go out in less than a second.
use ig_trading_bot.Common.{
  ℕ, ◌≤◌, ◌≡◌, refl, ap, ◌∙◌, true, List, [], ◌∷◌, ◌++◌, All, Arith, arith, length, length-append,
  keep, max, min, String, if◌then◌else◌, Bool, false, sym,
}
use ig_trading_bot.Risk.Hft.{
  HftRiskManager, SlidingWindowCounter, prune, record_event, count, record_order, record_rejection,
  check_rate_limit, count_instrument, judge_rate, count_global, new, RateLimitStatus,
}
use ig_trading_bot.Risk.Hft.Rates.{Attempt, submit, submit_all, rate_limits_hold}

append_assoc {ℓ} : {X : Type ℓ} (xs ys zs : List X) → (xs ++ ys) ++ zs ≡ xs ++ (ys ++ zs)
append_assoc [] ys zs = refl
append_assoc (x ∷ xs) ys zs = ap (λ l. x ∷ l) (append_assoc xs ys zs)

append_nil {ℓ} : {X : Type ℓ} (xs : List X) → xs ++ [] ≡ xs
append_nil [] = refl
append_nil (x ∷ xs) = ap (λ l. x ∷ l) (append_nil xs)

module _ (F : Arith) where
  -- A reading of the clock that is less than a second after a time.
  abbrev pub IsRecent : F.Num → F.Num → Type 0
  IsRecent now t = F.lt (F.sub now (F.dec 10 1)) t ≡ true

  keep-append_recent :
      (now : F.Num) (old ts : List F.Num)
      → All (IsRecent now) ts
      → keep (λ t. F.lt (F.sub now (F.dec 10 1)) t) (old ++ ts)
        ≡ keep (λ t. F.lt (F.sub now (F.dec 10 1)) t) old ++ ts
  unfolding keep
  keep-append_recent now [] [] h = refl
  keep-append_recent now [] (t ∷ ts) h = rw (h.0, keep-append_recent now [] ts h.1) refl
  keep-append_recent now (u ∷ old) ts h = ground (arith, keep-append_recent now old ts h)

  -- The counter of a second holds these times, after older ones.
  record Holds (ts : List F.Num) (c : SlidingWindowCounter F) : Type 0 where
    old : List F.Num
    shape : c.timestamps ≡ old ++ ts
    window : c.window_seconds ≡ F.dec 10 1

  prune-Holds :
      (ts : List F.Num) (c : SlidingWindowCounter F) (now : F.Num)
      → All (IsRecent now) ts
      → Holds ts c
      → Holds ts (prune F c now)
  unfolding prune
  prune-Holds ts c now h s = record {
    old = keep (λ t. F.lt (F.sub now (F.dec 10 1)) t) s.old;
    shape =
        ap (λ w. keep (λ t. F.lt (F.sub now w) t) c.timestamps) s.window
        ∙ ap (keep (λ t. F.lt (F.sub now (F.dec 10 1)) t)) s.shape
        ∙ keep-append_recent now s.old ts h;
    window = s.window;
  }

  record_event-Holds :
      (ts : List F.Num) (c : SlidingWindowCounter F) (t now : F.Num)
      → All (IsRecent now) (ts ++ t ∷ [])
      → Holds ts c
      → Holds (ts ++ t ∷ []) (record_event F c t now)
  unfolding record_event
  record_event-Holds ts c t now h s =
      prune-Holds (ts ++ t ∷ []) (record c { timestamps = c.timestamps ++ t ∷ [] }) now h
        (record {
          old = s.old;
          shape = ap (λ l. l ++ t ∷ []) s.shape ∙ append_assoc s.old ts (t ∷ []);
          window = s.window;
        })

  -- A recorded time is recent at the readings of an attempt for the global counter.
  abbrev pub Sees : Attempt F → F.Num → Type 0
  Sees a t = IsRecent (a.asked 0) t × IsRecent (a.recorded 1) t

  All-asked : (a : Attempt F) (ts : List F.Num) → All (Sees a) ts → All (IsRecent (a.asked 0)) ts
  All-asked a [] h = tt
  All-asked a (t ∷ ts) h = (h.0.0, All-asked a ts h.1)

  All-recorded :
      (a : Attempt F) (ts : List F.Num) (t : F.Num)
      → All (Sees a) ts
      → Sees a t
      → All (IsRecent (a.recorded 1)) (ts ++ t ∷ [])
  All-recorded a [] t h k = (k.1, tt)
  All-recorded a (u ∷ ts) t h k = (h.0.1, All-recorded a ts t h.1 k)

  -- The recording of each attempt is recent at its own readings and those of all later ones.
  abbrev pub Brief : List (Attempt F) → Type 0
  Brief [] = Unit
  Brief (a ∷ attempts) = All (λ b. Sees b (a.recorded 0)) (a ∷ attempts) × Brief attempts

  All-extend :
      (ts : List F.Num) (t : F.Num) (attempts : List (Attempt F))
      → All (λ b. All (Sees b) ts) attempts
      → All (λ b. Sees b t) attempts
      → All (λ b. All (Sees b) (ts ++ t ∷ [])) attempts
  All-extend ts t [] h k = tt
  All-extend ts t (b ∷ attempts) h k = (go ts h.0, All-extend ts t attempts h.1 k.1)
    where
      go : (us : List F.Num) → All (Sees b) us → All (Sees b) (us ++ t ∷ [])
      go [] s = (k.0, tt)
      go (u ∷ us) s = (s.0, go us s.1)

All-none : {F : Arith} (attempts : List (Attempt F)) → All (λ b. All (Sees F b) []) attempts
All-none [] = tt
All-none (a ∷ attempts) = (tt, All-none attempts)

module _ (A F : Arith) where
  judge_rate-global :
      (m : HftRiskManager A F) (i : String) (clock : ℕ → F.Num) (g n : ℕ)
      → (judge_rate A F m i clock g n).0.global_rate_counter ≡ m.global_rate_counter
  unfolding judge_rate record_rejection
  judge_rate-global m i clock g n = ground arith

  count_instrument-global :
      (m : HftRiskManager A F) (i : String) (now : F.Num)
      → (count_instrument A F m i now).0.global_rate_counter ≡ m.global_rate_counter
  count_instrument-global m i now = ground arith

  check_rate_limit-global :
      (m : HftRiskManager A F) (i : String) (clock : ℕ → F.Num)
      → (check_rate_limit A F m i clock).0.global_rate_counter
        ≡ prune F m.global_rate_counter (clock 0)
  unfolding check_rate_limit count
  check_rate_limit-global m i clock =
      let m' = (count_global A F m (clock 0)).0 in
      let out = count_instrument A F m' i (clock 1) in
      judge_rate-global out.0 i clock (count_global A F m (clock 0)).1 out.1
      ∙ count_instrument-global m' i (clock 1)

  -- The times at which the orders of a stretch are recorded.
  unfoldable pub recorded_in : HftRiskManager A F → List (Attempt F) → List F.Num
  recorded_in m [] = []
  recorded_in m (a ∷ attempts) =
      let rest = recorded_in (submit A F m a) attempts in
      if (check_rate_limit A F m a.instrument a.asked).1.allowed then a.recorded 0 ∷ rest else rest

  check-Holds :
      (m : HftRiskManager A F) (a : Attempt F) (ts : List F.Num)
      → All (Sees F a) ts
      → Holds F ts m.global_rate_counter
      → Holds F ts (check_rate_limit A F m a.instrument a.asked).0.global_rate_counter
  check-Holds m a ts sees h =
      rw (check_rate_limit-global m a.instrument a.asked)
        (prune-Holds F ts m.global_rate_counter (a.asked 0) (All-asked F a ts sees) h)

  abbrev checked_by : HftRiskManager A F → Attempt F → HftRiskManager A F × RateLimitStatus
  checked_by m a = check_rate_limit A F m a.instrument a.asked

  abbrev next : HftRiskManager A F → Attempt F → Bool → HftRiskManager A F
  next m a b =
      if b then record_order A F (checked_by m a).0 a.instrument a.recorded else (checked_by m a).0

  submit_all-Holds :
      (m : HftRiskManager A F) (attempts : List (Attempt F)) (ts : List F.Num)
      → All (λ b. All (Sees F b) ts) attempts
      → Brief F attempts
      → Holds F ts m.global_rate_counter
      → Holds F (ts ++ recorded_in m attempts) (submit_all A F m attempts).global_rate_counter
  unfolding recorded_in submit_all record_order
  submit_all-Holds m [] ts sees brief h = rw (append_nil ts) h
  submit_all-Holds m (a ∷ attempts) ts sees brief h =
      go (checked_by m a).1.allowed
        (λ b us seen k. submit_all-Holds (next m a b) attempts us seen brief.1 k)
    where
      checked : Holds F ts (checked_by m a).0.global_rate_counter
      checked = check-Holds m a ts sees.0 h

      go :
          (b : Bool)
          → ((c : Bool) (us : List F.Num)
              → All (λ d. All (Sees F d) us) attempts
              → Holds F us (next m a c).global_rate_counter
              → Holds F
                  (us ++ recorded_in (next m a c) attempts)
                  (submit_all A F (next m a c) attempts).global_rate_counter)
          → Holds F
              (ts
                ++ (if b
                    then a.recorded 0 ∷ recorded_in (next m a b) attempts
                    else recorded_in (next m a b) attempts))
              (submit_all A F (next m a b) attempts).global_rate_counter
      go false rest = rest false ts sees.1 checked
      go true rest =
          rw (← append_assoc ts (a.recorded 0 ∷ []) (recorded_in (next m a true) attempts)) (
            rest true (ts ++ a.recorded 0 ∷ [])
              (All-extend F ts (a.recorded 0) attempts sees.1 brief.0.1)
              (record_event-Holds F ts (checked_by m a).0.global_rate_counter (a.recorded 0)
                (a.recorded 1) (All-recorded F a ts (a.recorded 0) sees.0 brief.0.0) checked))

  submit_all-append :
      (m : HftRiskManager A F) (xs ys : List (Attempt F))
      → submit_all A F m (xs ++ ys) ≡ submit_all A F (submit_all A F m xs) ys
  unfolding submit_all
  submit_all-append m [] ys = refl
  submit_all-append m (x ∷ xs) ys = submit_all-append (submit A F m x) xs ys

  submit_all-window :
      (m : HftRiskManager A F) (attempts : List (Attempt F))
      → m.global_rate_counter.window_seconds ≡ F.dec 10 1
      → (submit_all A F m attempts).global_rate_counter.window_seconds ≡ F.dec 10 1
  unfolding submit_all record_order record_event prune
  submit_all-window m [] w = w
  submit_all-window m (a ∷ attempts) w =
      submit_all-window (submit A F m a) attempts (go (checked_by m a).1.allowed)
    where
      checked : (checked_by m a).0.global_rate_counter.window_seconds ≡ F.dec 10 1
      checked = ap (λ c. c.window_seconds) (check_rate_limit-global m a.instrument a.asked) ∙ w

      go : (b : Bool) → (next m a b).global_rate_counter.window_seconds ≡ F.dec 10 1
      go true = checked
      go false = checked

  -- In a stretch of attempts that takes less than a second, no more orders are recorded than the
  -- clamped limit of a new manager, whatever attempts came before: callers record an order exactly
  -- when `check_rate_limit` has just allowed it, and each reading of the clock that prunes the
  -- global counter in the stretch, less a second, is before the time that its attempt, or an earlier
  -- one of the stretch, records.
  pub a_second_has_limited_orders :
      (rate each : ℕ) (before attempts : List (Attempt F))
      → Brief F attempts
      → length (recorded_in (submit_all A F (new A F rate each) before) attempts)
        ≤ max 10 (min 500 rate)
  unfolding new
  a_second_has_limited_orders rate each before attempts brief =
      let m = submit_all A F (new A F rate each) before in
      let h = submit_all-Holds m attempts [] (All-none attempts) brief (record {
        old = m.global_rate_counter.timestamps;
        shape = sym (append_nil m.global_rate_counter.timestamps);
        window = submit_all-window (new A F rate each) before refl;
      }) in
      let last = submit_all A F m attempts in
      let bound : length last.global_rate_counter.timestamps ≤ max 10 (min 500 rate) =
        rw (← submit_all-append (new A F rate each) before attempts)
          ((rate_limits_hold A F rate each (before ++ attempts)).0) in
      let times = recorded_in m attempts in
      omega (arith, bound, ap length h.shape, length-append h.old times)
