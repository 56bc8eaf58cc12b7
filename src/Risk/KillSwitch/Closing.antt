-- ===== src/Risk/KillSwitch/Closing.antt =====
-- The closing of positions: how many attempts each takes, and what the report says of each.
use ig_trading_bot.Common.{
  Bool, ◌||◌, if◌then◌else◌, sym, leb, Bool-cases, ℕ, zero, suc, ◌+◌, ◌≤◌, ◌<◌, ◌≡◌, ◌≢◌, refl, ◌⊎◌,
  inl, inr, String, true, false, Option, List, [], ◌∷◌, All, All-mono, ◌∙◌, arith, keep, length,
  negate,
}
use ig_trading_bot.Risk.KillSwitch.{
  Outcome, closed, refused, timed_out, raised, CloseError, PositionCloseResult, Position,
  get_position_id, close_attempts, close_single_position, close_each, close_all_positions,
}

abbrev is_closed : Outcome → Bool
is_closed closed = true
is_closed _ = false

is_closed-not : (o : Outcome) → o ≢ closed → is_closed o ≡ false
is_closed-not closed h = absurd (h refl)
is_closed-not refused h = refl
is_closed-not timed_out h = refl
is_closed-not (raised e) h = refl

module _ (f : ℕ → Outcome) where
  -- No attempt from the first up to, but not including, this one closed the position.
  abbrev pub NotBefore : ℕ → Type 0
  NotBefore n = (i : ℕ) → 0 < i → i < n → f i ≢ closed

  -- Either the position was closed at the attempt reported and at none before it, or all the
  -- attempts allowed were made and none closed it.
  abbrev pub Reports : ℕ → PositionCloseResult → Type 0
  Reports limit r =
      ((r.success ≡ true)
        × (0 < r.attempts)
        × (r.attempts ≤ limit)
        × (f r.attempts ≡ closed)
        × NotBefore r.attempts)
      ⊎ ((r.success ≡ false) × (r.attempts ≡ limit) × NotBefore (suc limit))

  -- One of the first attempts closes the position.
  abbrev pub closes_within : ℕ → Bool
  closes_within zero = false
  closes_within (suc n) = is_closed (f (suc n)) || closes_within n

  closes_within-reached : (n a : ℕ) → 0 < a → a ≤ n → f a ≡ closed → closes_within n ≡ true
  closes_within-reached zero a pos le e = absurd (omega (arith, pos, le))
  closes_within-reached (suc n) a pos le e = elim (Bool-cases (leb a n)) [
    | inl under ↦ rw (closes_within-reached n a pos (ground arith) e) (ground arith)
    | inr over ↦ let same : a ≡ suc n = ground arith in rw (← same, e) refl
  ]

  closes_within-never : (n : ℕ) → NotBefore (suc n) → closes_within n ≡ false
  closes_within-never zero h = refl
  closes_within-never (suc n) h =
      rw (is_closed-not (f (suc n)) (h (suc n) (omega arith) (omega arith)))
        (closes_within-never n (λ i pos lt. h i pos (omega (arith, lt))))

  Reports-closes_within :
      (limit : ℕ) (r : PositionCloseResult) → Reports limit r → r.success ≡ closes_within limit
  Reports-closes_within limit r (inl (ok, pos, le, e, _)) =
      ok ∙ sym (closes_within-reached limit r.attempts pos le e)
  Reports-closes_within limit r (inr (bad, _, h)) = bad ∙ sym (closes_within-never limit h)

  NotBefore-suc : (n : ℕ) → NotBefore n → f n ≢ closed → NotBefore (suc n)
  NotBefore-suc n h ne i pos lt e = ground (arith, h i pos, ne)

  close_attempts-Reports :
      (limit : ℕ) (i : String) (left attempt : ℕ) (last : Option CloseError)
      → 0 < attempt
      → left + attempt ≡ suc limit
      → NotBefore attempt
      → Reports limit (close_attempts limit i f left attempt last)
  unfolding close_attempts
  close_attempts-Reports limit i zero attempt last pos e h =
      let reached : attempt ≡ suc limit = omega arith in inr (refl, refl, rw (← reached) h)
  close_attempts-Reports limit i (suc left) attempt last pos e h =
      go (f attempt) refl (λ open_still err.
        close_attempts-Reports limit i left (suc attempt) err (omega arith) (omega arith)
          (NotBefore-suc attempt h open_still))
    where
      go :
          (o : Outcome)
          → f attempt ≡ o
          → (f attempt ≢ closed
              → (err : Option CloseError)
              → Reports limit (close_attempts limit i f left (suc attempt) err))
          → Reports limit (close_attempts limit i f (suc left) attempt last)
      go closed eq rest = rw (eq, close_attempts) (inl (refl, pos, omega arith, eq, h))
      go refused eq rest = rw (eq, close_attempts) (rest (λ c. cc) _)
      go timed_out eq rest = rw (eq, close_attempts) (rest (λ c. cc) _)
      go (raised m) eq rest = rw (eq, close_attempts) (rest (λ c. cc) _)

  close_attempts-position_id :
      (limit : ℕ) (i : String) (left attempt : ℕ) (last : Option CloseError)
      → (close_attempts limit i f left attempt last).position_id ≡ i
  unfolding close_attempts
  close_attempts-position_id limit i zero attempt last = refl
  close_attempts-position_id limit i (suc left) attempt last =
      go (f attempt) refl (λ err. close_attempts-position_id limit i left (suc attempt) err)
    where
      go :
          (o : Outcome)
          → f attempt ≡ o
          → ((err : Option CloseError)
              → (close_attempts limit i f left (suc attempt) err).position_id ≡ i)
          → (close_attempts limit i f (suc left) attempt last).position_id ≡ i
      go closed eq rest = rw (eq, close_attempts)
      go refused eq rest = rw (eq, close_attempts) (rest _)
      go timed_out eq rest = rw (eq, close_attempts) (rest _)
      go (raised m) eq rest = rw (eq, close_attempts) (rest _)

  pub close_single_position-position_id :
      (retry_count : ℕ) (i : String) → (close_single_position retry_count i f).position_id ≡ i
  unfolding close_single_position
  close_single_position-position_id n i = close_attempts-position_id (suc n) i (suc n) 1 _

  pub close_single_position-Reports :
      (retry_count : ℕ) (i : String)
      → Reports (suc retry_count) (close_single_position retry_count i f)
  unfolding close_single_position
  close_single_position-Reports n i =
      close_attempts-Reports (suc n) i (suc n) 1 _ (omega arith) (omega arith)
        (λ j pos lt e. omega arith)

module _ (retry_count : ℕ) (close_fn : Position → ℕ → Outcome) where
  -- What the report says of a position that is flagged for manual intervention.
  abbrev pub IsFlagged : List Position → PositionCloseResult → Type 0
  IsFlagged [] r = ⊥
  IsFlagged (p ∷ ps) r =
      ((r.position_id ≡ get_position_id p)
        × (r.success ≡ false)
        × (r.attempts ≡ suc retry_count)
        × NotBefore (close_fn p) (suc (suc retry_count)))
      ⊎ IsFlagged ps r

module _ (retry_count : ℕ) (close_fn : Position → ℕ → Outcome) where
  failures-IsFlagged :
      (ps : List Position)
      → All
          (IsFlagged retry_count close_fn ps)
          (keep (λ r. negate r.success) (close_each retry_count close_fn ps))
  unfolding close_each keep
  failures-IsFlagged [] = tt
  failures-IsFlagged (p ∷ ps) =
      let r = close_single_position retry_count (get_position_id p) (close_fn p) in
      go r (close_single_position-Reports (close_fn p) retry_count (get_position_id p))
        (close_single_position-position_id (close_fn p) retry_count (get_position_id p))
        (All-mono (IsFlagged retry_count close_fn ps) (IsFlagged retry_count close_fn (p ∷ ps))
          (λ r' f. inr f) _ (failures-IsFlagged ps))
    where
      go :
          (r : PositionCloseResult)
          → Reports (close_fn p) (suc retry_count) r
          → r.position_id ≡ get_position_id p
          → All
              (IsFlagged retry_count close_fn (p ∷ ps))
              (keep (λ x. negate x.success) (close_each retry_count close_fn ps))
          → All
              (IsFlagged retry_count close_fn (p ∷ ps))
              (keep (λ x. negate x.success) (r ∷ close_each retry_count close_fn ps))
      go r (inl ok) name rest = rw (ok.0) rest
      go r (inr bad) name rest = rw (bad.0) (inl (name, refl, bad.1, bad.2), rest)

  -- A position that one of the attempts closes.
  abbrev pub can_close : Position → Bool
  can_close p = closes_within (close_fn p) (suc retry_count)

  abbrev pub names : List Position → List String
  names [] = []
  names (p ∷ ps) = get_position_id p ∷ names ps

  abbrev pub reported : List PositionCloseResult → List String
  reported [] = []
  reported (r ∷ rs) = r.position_id ∷ reported rs

  close_single_position-can_close :
      (p : Position)
      → (close_single_position retry_count (get_position_id p) (close_fn p)).success ≡ can_close p
  close_single_position-can_close p =
      Reports-closes_within (close_fn p) (suc retry_count)
        (close_single_position retry_count (get_position_id p) (close_fn p))
        (close_single_position-Reports (close_fn p) retry_count (get_position_id p))

  closed-count :
      (ps : List Position)
      → length (keep (λ r. r.success) (close_each retry_count close_fn ps))
        ≡ length (keep can_close ps)
  unfolding close_each keep
  closed-count [] = refl
  closed-count (p ∷ ps) = ground (arith, close_single_position-can_close p, closed-count ps)

  failed-names :
      (ps : List Position)
      → reported (keep (λ r. negate r.success) (close_each retry_count close_fn ps))
        ≡ names (keep (λ p. negate (can_close p)) ps)
  unfolding close_each keep
  failed-names [] = refl
  failed-names (p ∷ ps) =
      let r = close_single_position retry_count (get_position_id p) (close_fn p) in
      go r (can_close p) (close_single_position-can_close p)
        (close_single_position-position_id (close_fn p) retry_count (get_position_id p))
        (failed-names ps)
    where
      go :
          (r : PositionCloseResult) (b : Bool)
          → r.success ≡ b
          → r.position_id ≡ get_position_id p
          → reported (keep (λ r. negate r.success) (close_each retry_count close_fn ps))
            ≡ names (keep (λ p. negate (can_close p)) ps)
          → reported (keep (λ x. negate x.success) (r ∷ close_each retry_count close_fn ps))
            ≡ names (
                if negate b
                then p ∷ keep (λ p. negate (can_close p)) ps
                else keep (λ p. negate (can_close p)) ps)
      go r true ok name rest = rw ok rest
      go r false bad name rest = rw (bad, name, rest) refl

  -- Closing all positions reports on each exactly once. The total is the number of positions; the
  -- closed ones are as many as the positions that `close_fn` closes at the first attempt or a retry,
  -- and a False, an exception or a timeout closes none; the failed entries have the names of all the
  -- other positions, in their order. Every failed entry names a position on which the first attempt
  -- and all the retries were made and none of them closed it.
  pub closing_accounts :
      (ps : List Position)
      → let report = close_all_positions retry_count close_fn ps in
        (report.total_positions ≡ length ps)
        × (report.closed_successfully ≡ length (keep can_close ps))
        × (reported report.failed_positions ≡ names (keep (λ p. negate (can_close p)) ps))
        × All (IsFlagged retry_count close_fn ps) report.failed_positions
  unfolding close_all_positions
  closing_accounts ps = (refl, closed-count ps, failed-names ps, failures-IsFlagged ps)
