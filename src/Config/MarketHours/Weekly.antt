-- ===== src/Config/MarketHours/Weekly.antt =====
-- Forex, gold and oil, which close for the weekend: the next opening.
use ig_trading_bot.Common.{
  ℕ, ◌+◌, ◌-◌, ◌*◌, ◌%◌, ◌≤◌, ◌<◌, ◌≡◌, refl, Bool, true, false, arith, leb, ltb, ◌||◌,
  if◌then◌else◌,
}
use ig_trading_bot.Config.MarketHours.{
  DateTime, IsTime, isoweekday, time_minutes, at_day, same, is_forex_open, is_gold_open,
  is_oil_open, next_forex_open, next_gold_open, next_oil_open,
}
use ig_trading_bot.Config.MarketHours.Instants.{NextOpening}

IsTime-at_day : (t : DateTime) (d : ℕ) → IsTime (at_day t d 23 0)
IsTime-at_day t d = record {
  hour_in = omega arith;
  minute_in = omega arith;
  second_in = omega arith;
  microsecond_in = omega arith;
}

-- By the day and its minute: whether the market is open, and the days until it opens.
abbrev forex_at : ℕ → ℕ → Bool
forex_at w now =
    if same w 6
    then false
    else if same w 7
    then leb 1260 now
    else if same w 5
    then leb now 1260
    else true

abbrev forex_days : ℕ → ℕ → ℕ
forex_days w now = 7 - w

forex-minutes :
    (t : DateTime) → IsTime t → is_forex_open t ≡ forex_at (isoweekday t) (time_minutes t)
unfolding is_forex_open
forex-minutes t v = ground arith

next_forex_open-eq :
    (t : DateTime)
    → IsTime t
    → is_forex_open t ≡ false
    → next_forex_open t ≡ at_day t (forex_days (isoweekday t) (time_minutes t)) 21 0
unfolding is_forex_open next_forex_open
next_forex_open-eq t v closed = ground arith

forex_opens :
    (day now : ℕ)
    → now < 1440
    → let w = (day + 6) % 7 + 1 in
      let next = day + forex_days w now in
      forex_at w now ≡ false
      → (day * 1440 + now < next * 1440 + 1260)
        × (next ≤ day + 3)
        × (forex_at ((next + 6) % 7 + 1) 1260 ≡ true)
forex_opens day now small closed = ground arith

forex_gap :
    (day now day' now' : ℕ)
    → now < 1440
    → now' < 1440
    → let w = (day + 6) % 7 + 1 in
      forex_at w now ≡ false
      → day * 1440 + now ≤ day' * 1440 + now'
      → day' * 1440 + now' < (day + forex_days w now) * 1440 + 1260
      → forex_at ((day' + 6) % 7 + 1) now' ≡ false
forex_gap day now day' now' small small' closed after before = ground arith

IsTime-at_day_21 : (t : DateTime) (d : ℕ) → IsTime (at_day t d 21 0)
IsTime-at_day_21 t d = record {
  hour_in = omega arith;
  minute_in = omega arith;
  second_in = omega arith;
  microsecond_in = omega arith;
}

pub forex-NextOpening :
    (t : DateTime)
    → IsTime t
    → is_forex_open t ≡ false
    → NextOpening is_forex_open t (next_forex_open t)
forex-NextOpening t v closed =
    let now = time_minutes t in
    let closed' = rw (forex-minutes t v) at closed in
    let opens = forex_opens t.day now (omega arith) closed' in
    rw (next_forex_open-eq t v closed) (record {
      starts =
          rw (forex-minutes (at_day t (forex_days (isoweekday t) now) 21 0) (IsTime-at_day_21 t _))
            opens.2;
      whole = refl;
      after = omega (arith, opens.0);
      soon = opens.1;
      shut = λ u w later before. rw (forex-minutes u w) (
          forex_gap t.day now u.day (time_minutes u) (omega arith) (omega arith) closed'
            (omega arith) (omega arith));
    })

-- By the day and its minute: whether the market is open, and the days until it opens.
abbrev gold_at : ℕ → ℕ → Bool
gold_at w now =
    if same w 6 then false else if same w 7 then leb 1380 now else ltb now 1320 || leb 1380 now

abbrev gold_days : ℕ → ℕ → ℕ
gold_days w now = if same w 6 then 1 else 0

gold-minutes : (t : DateTime) → IsTime t → is_gold_open t ≡ gold_at (isoweekday t) (time_minutes t)
unfolding is_gold_open
gold-minutes t v = ground arith

next_gold_open-eq :
    (t : DateTime)
    → IsTime t
    → is_gold_open t ≡ false
    → next_gold_open t ≡ at_day t (gold_days (isoweekday t) (time_minutes t)) 23 0
unfolding is_gold_open next_gold_open
next_gold_open-eq t v closed = ground arith

gold_opens :
    (day now : ℕ)
    → now < 1440
    → let w = (day + 6) % 7 + 1 in
      let next = day + gold_days w now in
      gold_at w now ≡ false
      → (day * 1440 + now < next * 1440 + 1380)
        × (next ≤ day + 3)
        × (gold_at ((next + 6) % 7 + 1) 1380 ≡ true)
gold_opens day now small closed = ground arith

gold_gap :
    (day now day' now' : ℕ)
    → now < 1440
    → now' < 1440
    → let w = (day + 6) % 7 + 1 in
      gold_at w now ≡ false
      → day * 1440 + now ≤ day' * 1440 + now'
      → day' * 1440 + now' < (day + gold_days w now) * 1440 + 1380
      → gold_at ((day' + 6) % 7 + 1) now' ≡ false
gold_gap day now day' now' small small' closed after before = ground arith

pub gold-NextOpening :
    (t : DateTime)
    → IsTime t
    → is_gold_open t ≡ false
    → NextOpening is_gold_open t (next_gold_open t)
gold-NextOpening t v closed =
    let now = time_minutes t in
    let closed' = rw (gold-minutes t v) at closed in
    let opens = gold_opens t.day now (omega arith) closed' in
    rw (next_gold_open-eq t v closed) (record {
      starts =
          rw (gold-minutes (at_day t (gold_days (isoweekday t) now) 23 0) (IsTime-at_day t _))
            opens.2;
      whole = refl;
      after = omega (arith, opens.0);
      soon = opens.1;
      shut = λ u w later before. rw (gold-minutes u w) (
          gold_gap t.day now u.day (time_minutes u) (omega arith) (omega arith) closed'
            (omega arith) (omega arith));
    })

-- By the day and its minute: whether the market is open, and the days until it opens.
abbrev oil_at : ℕ → ℕ → Bool
oil_at w now =
    if same w 6
    then false
    else if same w 7
    then leb 1380 now
    else if same w 5
    then ltb now 1320
    else ltb now 1320 || leb 1380 now

abbrev oil_days : ℕ → ℕ → ℕ
oil_days w now = if same w 5 then 2 else if same w 6 then 1 else 0

oil-minutes : (t : DateTime) → IsTime t → is_oil_open t ≡ oil_at (isoweekday t) (time_minutes t)
unfolding is_oil_open
oil-minutes t v = ground arith

next_oil_open-eq :
    (t : DateTime)
    → IsTime t
    → is_oil_open t ≡ false
    → next_oil_open t ≡ at_day t (oil_days (isoweekday t) (time_minutes t)) 23 0
unfolding is_oil_open next_oil_open
next_oil_open-eq t v closed = ground arith

oil_opens :
    (day now : ℕ)
    → now < 1440
    → let w = (day + 6) % 7 + 1 in
      let next = day + oil_days w now in
      oil_at w now ≡ false
      → (day * 1440 + now < next * 1440 + 1380)
        × (next ≤ day + 3)
        × (oil_at ((next + 6) % 7 + 1) 1380 ≡ true)
oil_opens day now small closed = ground arith

oil_gap :
    (day now day' now' : ℕ)
    → now < 1440
    → now' < 1440
    → let w = (day + 6) % 7 + 1 in
      oil_at w now ≡ false
      → day * 1440 + now ≤ day' * 1440 + now'
      → day' * 1440 + now' < (day + oil_days w now) * 1440 + 1380
      → oil_at ((day' + 6) % 7 + 1) now' ≡ false
oil_gap day now day' now' small small' closed after before = ground arith

pub oil-NextOpening :
    (t : DateTime) → IsTime t → is_oil_open t ≡ false → NextOpening is_oil_open t (next_oil_open t)
oil-NextOpening t v closed =
    let now = time_minutes t in
    let closed' = rw (oil-minutes t v) at closed in
    let opens = oil_opens t.day now (omega arith) closed' in
    rw (next_oil_open-eq t v closed) (record {
      starts =
          rw (oil-minutes (at_day t (oil_days (isoweekday t) now) 23 0) (IsTime-at_day t _))
            opens.2;
      whole = refl;
      after = omega (arith, opens.0);
      soon = opens.1;
      shut = λ u w later before. rw (oil-minutes u w) (
          oil_gap t.day now u.day (time_minutes u) (omega arith) (omega arith) closed' (omega arith)
            (omega arith));
    })
