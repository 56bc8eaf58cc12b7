-- ===== src/Trading/Candles/Shapes.antt =====
-- What every candle is like, and how many there are.
use ig_trading_bot.Common.{
  ℕ, ◌≤◌, ◌≡◌, refl, ◌∙◌, String, Bool, true, false, Option, none, some, List, [], ◌∷◌, ◌++◌, Arith,
  IsOrdered, arith, inl, inr, Bool-cases, Option-cases, lookup, length, trim, All, Every,
  Every-insert, none-ne-some, present, zero, suc, ◌-◌, leb, drop, length-trim, lookup_or,
}
use ig_trading_bot.Trading.Candles.{
  Candle, CandleBuffer, Quote, Tick, price_of, update, first_candle, closed_of, seen, counted,
  place, on_tick, new, run, get_candles, candle_count, open_part,
}

module _ (A : Arith) where
  -- Opening and closing prices lie between the low and the high, and there has been a tick.
  pub record IsCandle (c : Candle A) : Type 0 where
    low_open : A.le c.low c.open_price ≡ true
    open_high : A.le c.open_price c.high ≡ true
    low_close : A.le c.low c.close ≡ true
    close_high : A.le c.close c.high ≡ true
    ticked : 1 ≤ c.tick_count

module _ (A : Arith) (floor_div : A.Num → A.Num → A.Num) (o : IsOrdered A) where
  open o use {le_refl, le_trans, le_total, lt_not_le}

  first_candle-IsCandle : (start price : A.Num) → IsCandle A (first_candle A floor_div start price)
  first_candle-IsCandle start price = record {
    low_open = le_refl price;
    open_high = le_refl price;
    low_close = le_refl price;
    close_high = le_refl price;
    ticked = omega arith;
  }

  update-IsCandle :
      (c : Candle A) (price : A.Num) → IsCandle A c → IsCandle A (update A floor_div c price)
  unfolding update
  update-IsCandle c price h = record {
    low_open = ground (
      arith,
      lt_not_le price c.low,
      le_total c.low price,
      le_trans price c.low c.open_price,
      h.low_open,
    );
    open_high = ground (
      arith,
      lt_not_le c.high price,
      le_total price c.high,
      le_trans c.open_price c.high price,
      h.open_high,
    );
    low_close = ground (arith, lt_not_le price c.low, le_refl price);
    close_high = ground (arith, lt_not_le c.high price, le_refl price);
    ticked = omega arith;
  }

  All-append_one :
      (c : Candle A) (cs : List (Candle A))
      → IsCandle A c
      → All (IsCandle A) cs
      → All (IsCandle A) (cs ++ c ∷ [])
  All-append_one c [] h a = (h, tt)
  All-append_one c (d ∷ cs) h a = (a.0, All-append_one c cs h a.1)

  All-append_empty : (cs : List (Candle A)) → All (IsCandle A) cs → All (IsCandle A) (cs ++ [])
  All-append_empty [] a = tt
  All-append_empty (c ∷ cs) a = (a.0, All-append_empty cs a.1)

  All-drop : (n : ℕ) (cs : List (Candle A)) → All (IsCandle A) cs → All (IsCandle A) (drop n cs)
  All-drop zero cs a = a
  All-drop (suc n) [] a = tt
  All-drop (suc n) (c ∷ cs) a = All-drop n cs a.1

  All-trim : (cap : ℕ) (cs : List (Candle A)) → All (IsCandle A) cs → All (IsCandle A) (trim cap cs)
  unfolding trim
  All-trim cap cs a = elim (Bool-cases (leb (suc cap) (length cs))) [
    | inl long ↦ rw long (All-drop (length cs - cap) cs a)
    | inr short ↦ rw short a
  ]

  empty-few : (cap : ℕ) → length {A = Candle A} [] ≤ cap
  empty-few cap = omega arith

  -- The closed candles of one instrument: sound, and no more than are kept.
  record IsKept (cap : ℕ) (cs : List (Candle A)) : Type 0 where
    sound : All (IsCandle A) cs
    few : length cs ≤ cap

  record IsSound (b : CandleBuffer A) : Type 0 where
    kept : Every (IsKept b.max_candles) b.closed
    opened : Every (IsCandle A) b.current

  closed_of-IsCandle :
      (b : CandleBuffer A) (epic : String)
      → IsSound b
      → All (IsCandle A) (closed_of A floor_div b epic)
  closed_of-IsCandle b epic h = elim (Option-cases (lookup epic b.closed)) [
    | inl absent ↦ rw (absent, closed_of, lookup_or) tt
    | inr (cs, found) ↦ rw (found, closed_of, lookup_or) ((h.kept epic cs found).sound)
  ]

  seen-IsSound :
      (b : CandleBuffer A) (epic : String)
      → IsSound b
      → IsSound (counted A floor_div (seen A floor_div b epic) epic)
  seen-IsSound b epic h = elim (Bool-cases (present (lookup epic b.closed))) [
    | inl known ↦ rw (known, counted, seen) (record { kept = h.kept; opened = h.opened })
    | inr unknown ↦
        rw (unknown, counted, seen)
          (record {
            kept =
                Every-insert (IsKept b.max_candles) epic [] b.closed
                  (record { sound = tt; few = empty-few b.max_candles }) h.kept;
            opened = h.opened;
          })
  ]

  place-IsSound :
      (b : CandleBuffer A) (epic : String) (start price : A.Num) (c : Option (Candle A))
      → ((d : Candle A) → c ≡ some d → IsCandle A d)
      → IsSound b
      → IsSound (place A floor_div b epic start price c)
  unfolding place
  place-IsSound b epic start price none sound h = record {
    kept = h.kept;
    opened =
        Every-insert (IsCandle A) epic (first_candle A floor_div start price) b.current
          (first_candle-IsCandle start price) h.opened;
  }
  place-IsSound b epic start price (some c) sound h =
      elim (Bool-cases (A.lt c.period_start start)) [
        | inl over ↦
            let cs = closed_of A floor_div b epic ++ c ∷ [] in
            rw over (record {
              kept =
                  Every-insert (IsKept b.max_candles) epic (trim b.max_candles cs) b.closed
                    (record {
                      sound = All-trim b.max_candles cs (
                          All-append_one c (closed_of A floor_div b epic) (sound c refl)
                            (closed_of-IsCandle b epic h));
                      few = length-trim b.max_candles cs;
                    })
                    h.kept;
              opened =
                  Every-insert (IsCandle A) epic (first_candle A floor_div start price) b.current
                    (first_candle-IsCandle start price) h.opened;
            })
        | inr same ↦ rw same (record {
          kept = h.kept;
          opened =
              Every-insert (IsCandle A) epic (update A floor_div c price) b.current
                (update-IsCandle c price (sound c refl)) h.opened;
        })
      ]

  on_tick-IsSound :
      (b : CandleBuffer A) (epic : String) (bid ask : Quote A) (now : A.Num)
      → IsSound b
      → IsSound (on_tick A floor_div b epic bid ask now)
  unfolding on_tick
  on_tick-IsSound b epic bid ask now h = elim (Option-cases (price_of A floor_div bid ask)) [
    | inl nothing ↦ rw (nothing, on_tick) h
    | inr (price, some_price) ↦
        let b' = counted A floor_div (seen A floor_div b epic) epic in
        let h' = seen-IsSound b epic h in
        rw (some_price, on_tick)
          (place-IsSound b' epic (A.mul (floor_div now b.period) b.period) price
            (lookup epic b'.current) (λ d e. h'.opened epic d e) h')
  ]

  run-IsSound :
      (b : CandleBuffer A) (ts : List (Tick A)) → IsSound b → IsSound (run A floor_div b ts)
  unfolding run
  run-IsSound b [] h = h
  run-IsSound b (t ∷ ts) h =
      run-IsSound (on_tick A floor_div b t.epic t.bid t.ask t.time) ts
        (on_tick-IsSound b t.epic t.bid t.ask t.time h)

  candle_count-le :
      (b : CandleBuffer A) (epic : String)
      → IsSound b
      → candle_count A floor_div b epic ≤ b.max_candles
  unfolding candle_count
  candle_count-le b epic h = elim (Option-cases (lookup epic b.closed)) [
    | inl absent ↦ rw (absent, closed_of, lookup_or) (empty-few b.max_candles)
    | inr (cs, found) ↦ rw (found, closed_of, lookup_or) ((h.kept epic cs found).few)
  ]

  new-IsSound : (period : A.Num) (cap : ℕ) → IsSound (new A floor_div period cap)
  unfolding new lookup
  new-IsSound period cap = record {
    kept = λ k v e. absurd (none-ne-some v e);
    opened = λ k v e. absurd (none-ne-some v e);
  }

  get_candles-IsCandle :
      (b : CandleBuffer A) (epic : String) (include_open : Bool)
      → IsSound b
      → All (IsCandle A) (get_candles A floor_div b epic include_open)
  unfolding get_candles
  get_candles-IsCandle b epic false h = closed_of-IsCandle b epic h
  get_candles-IsCandle b epic true h = elim (Option-cases (lookup epic b.current)) [
    | inl absent ↦
        rw (absent, open_part)
          (All-append_empty (closed_of A floor_div b epic) (closed_of-IsCandle b epic h))
    | inr (c, found) ↦
        rw (found, open_part)
          (All-append_one c (closed_of A floor_div b epic) (h.opened epic c found)
            (closed_of-IsCandle b epic h))
  ]

  on_tick-cap :
      (b : CandleBuffer A) (epic : String) (bid ask : Quote A) (now : A.Num)
      → (on_tick A floor_div b epic bid ask now).max_candles ≡ b.max_candles
  unfolding on_tick place
  on_tick-cap b epic bid ask now = ground arith

  run-cap :
      (b : CandleBuffer A) (ts : List (Tick A)) → (run A floor_div b ts).max_candles ≡ b.max_candles
  unfolding run
  run-cap b [] = refl
  run-cap b (t ∷ ts) =
      run-cap (on_tick A floor_div b t.epic t.bid t.ask t.time) ts
      ∙ on_tick-cap b t.epic t.bid t.ask t.time

  -- Whatever ticks a new buffer is given, malformed quotes and times that go back included, every
  -- candle that `get_candles` returns for an instrument has its opening and its closing price
  -- between its low and its high, and counts a tick or more; and no instrument has more closed
  -- candles than are to be kept. The order of the prices is total.
  pub candles_stay_in_range :
      (period : A.Num) (cap : ℕ) (ts : List (Tick A)) (epic : String) (include_open : Bool)
      → let b = run A floor_div (new A floor_div period cap) ts in
        All (IsCandle A) (get_candles A floor_div b epic include_open)
        × (candle_count A floor_div b epic ≤ cap)
  unfolding new
  candles_stay_in_range period cap ts epic include_open =
      let h = run-IsSound (new A floor_div period cap) ts (new-IsSound period cap) in
      let b = run A floor_div (new A floor_div period cap) ts in
      (
        get_candles-IsCandle b epic include_open h,
        omega (arith, candle_count-le b epic h, run-cap (new A floor_div period cap) ts),
      )
