-- ===== src/Risk/Crisis/Response.antt =====
-- What a crisis response closes and keeps.
use mathlib.Core.List.{Perm}
use text.Mathlib.Text.{◌==◌}
use ig_trading_bot.Risk.Stops.{widen_stop_for_event}
use ig_trading_bot.Common.{
  arith, String, Option, none, some, if◌then◌else◌, Dict, lookup, insert, lookup-insert, ◌∙◌, ◌≡◌,
  refl, ap, true, false, List, [], ◌∷◌, ◌++◌, All, Arith, IsOrdered, Bool-cases, inl, inr, ◌⊎◌,
}
use ig_trading_bot.Risk.Crisis.{
  CrisisPosition, CrisisResponseResult, Split, close_until, split_positions, sort_by_atr,
  instruments, widened, new_stops_from, exposure_from, target_of, handle_crisis_response,
}
use ig_trading_bot.Risk.Crisis.Order.{
  AtMost, IsDescending, sort_by_atr-Perm, sort_by_atr-IsDescending,
}

module _ (A : Arith) where
  open A use {Num, dec, add, lt}

  -- Each position was closed while what had been closed was under the target.
  abbrev pub Needed : Num → Num → List (CrisisPosition A) → Type 0
  Needed target done [] = Unit
  Needed target done (c ∷ cs) =
      (lt done target ≡ true) × Needed target (add done c.notional_value) cs

  -- A division of the sorted positions at the point where the target is reached.
  record Divides (target done : Num) (ps : List (CrisisPosition A)) (s : Split A) : Type 0 where
    whole : s.closed ++ s.kept ≡ ps
    needed : Needed target done s.closed
    total : s.exposure_closed ≡ exposure_from A done s.closed
    enough : (lt s.exposure_closed target ≡ false) ⊎ (s.kept ≡ [])

  rest_kept :
      (target done : Num) (ps : List (CrisisPosition A))
      → lt done target ≡ false
      → close_until A target done ps ≡ record { closed = []; kept = ps; exposure_closed = done }
  unfolding close_until
  rest_kept target done [] reached = refl
  rest_kept target done (p ∷ ps) reached = rw (reached, rest_kept target done ps reached) refl

  close_until-Divides :
      (target done : Num) (ps : List (CrisisPosition A))
      → Divides target done ps (close_until A target done ps)
  unfolding close_until
  close_until-Divides target done [] = record {
    whole = refl;
    needed = tt;
    total = refl;
    enough = inr refl;
  }
  close_until-Divides target done (p ∷ ps) = elim (Bool-cases (lt done target)) [
    | inl short ↦
        let d = close_until-Divides target (add done p.notional_value) ps in
        rw short (record {
          whole = ap (λ qs. p ∷ qs) d.whole;
          needed = (short, d.needed);
          total = d.total;
          enough = d.enough;
        })
    | inr reached ↦
        rw (reached, rest_kept target done ps reached)
          (record { whole = refl; needed = tt; total = refl; enough = inl reached })
  ]

  All-append_split :
      (P : CrisisPosition A → Type 0) (xs ys : List (CrisisPosition A))
      → All P (xs ++ ys)
      → All P ys
  All-append_split P [] ys a = a
  All-append_split P (x ∷ xs) ys a = All-append_split P xs ys a.1

  -- In a descending list, what comes first is at least as volatile as what comes later.
  IsDescending-parts :
      (xs ys : List (CrisisPosition A))
      → IsDescending A (xs ++ ys)
      → All (λ x. All (AtMost A x) ys) xs
  IsDescending-parts [] ys d = tt
  IsDescending-parts (x ∷ xs) ys d =
      (All-append_split (AtMost A x) xs ys d.0, IsDescending-parts xs ys d.1)

  -- The stop of a position, two ATR further away.
  abbrev further_stop : CrisisPosition A → Num
  further_stop p =
      if p.direction == "LONG"
      then A.sub p.current_stop (A.mul (dec 20 1) p.atr)
      else add p.current_stop (A.mul (dec 20 1) p.atr)

  -- The further stop of the last of the positions that an instrument has, or what is given.
  abbrev pub stop_after : Option Num → String → List (CrisisPosition A) → Option Num
  stop_after stop i [] = stop
  stop_after stop i (p ∷ ps) =
      stop_after (if p.instrument == i then some (further_stop p) else stop) i ps

  widened-further_stop : (p : CrisisPosition A) → widened A p ≡ further_stop p
  unfolding widened widen_stop_for_event
  widened-further_stop p = ground arith

  new_stops_from-stop_after :
      (i : String) (stops : Dict Num) (ps : List (CrisisPosition A))
      → lookup i (new_stops_from A stops ps) ≡ stop_after (lookup i stops) i ps
  new_stops_from-stop_after i stops [] = refl
  new_stops_from-stop_after i stops (p ∷ ps) =
      new_stops_from-stop_after i (insert p.instrument (widened A p) stops) ps
      ∙ ap (λ s. stop_after s i ps)
          (rw (lookup-insert p.instrument i (widened A p) stops, widened-further_stop p) refl)

  -- What a response to a crisis did with the positions of an account.
  pub record IsResponse (ps : List (CrisisPosition A)) (result : CrisisResponseResult A)
      : Type 0 where
    pub closed : List (CrisisPosition A)
    pub kept : List (CrisisPosition A)
    pub closed_names : result.positions_closed ≡ instruments A closed
    pub kept_names : result.positions_widened ≡ instruments A kept
    pub stops : (i : String) → lookup i result.new_stops ≡ stop_after none i kept
    pub complete : Perm (closed ++ kept) ps
    pub most_volatile : All (λ c. All (AtMost A c) kept) closed
    pub needed : Needed (target_of A (closed ++ kept)) (dec 0 0) closed
    pub enough :
        (lt (exposure_from A (dec 0 0) closed) (target_of A (closed ++ kept)) ≡ false) ⊎ (kept ≡ [])
    pub notified : result.notification_sent ≡ true

  -- The response to a crisis, with any open positions, names some of them as closed and all the
  -- others as widened: together they are the account's positions, each once. The new stops are of
  -- the instruments of the others, and the stop of an instrument is that of its last position, moved
  -- by two ATR down where the direction is LONG and up otherwise, so two kept positions of one
  -- instrument leave one new stop. Every closed
  -- position is at least as volatile as every one that is kept; each was closed while what had been
  -- closed before was under half of the exposure; and in the end what is closed is not under that
  -- half, or nothing is kept. The order of the volatilities is total.
  pub handle_crisis_response-IsResponse :
      (o : IsOrdered A) (p : CrisisPosition A) (ps : List (CrisisPosition A))
      → IsResponse (p ∷ ps) (handle_crisis_response A (p ∷ ps))
  unfolding handle_crisis_response split_positions lookup
  handle_crisis_response-IsResponse o p ps =
      let sorted = sort_by_atr A (p ∷ ps) in
      let parts = close_until A (target_of A sorted) (dec 0 0) sorted in
      let d = close_until-Divides (target_of A sorted) (dec 0 0) sorted in
      record {
        closed = parts.closed;
        kept = parts.kept;
        closed_names = refl;
        kept_names = refl;
        stops = λ i. new_stops_from-stop_after i [] parts.kept;
        complete = rw d.whole (sort_by_atr-Perm A (p ∷ ps));
        most_volatile =
            IsDescending-parts parts.closed parts.kept
              (rw d.whole (sort_by_atr-IsDescending A o (p ∷ ps)));
        needed = rw d.whole d.needed;
        enough = rw (d.whole, ← d.total) d.enough;
        notified = refl;
      }
