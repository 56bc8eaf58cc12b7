-- ===== src/Config/MarketHours/Weekdays.antt =====
-- The markets of weekdays: the loop over the week, and the next opening.
use ig_trading_bot.Common.{
  ℕ, suc, ◌+◌, ◌-◌, ◌*◌, ◌%◌, ◌≤◌, ◌<◌, ◌≡◌, refl, false, arith, leb, ltb, ◌&&◌, if◌then◌else◌,
}
use ig_trading_bot.Config.MarketHours.{
  DateTime, IsTime, isoweekday, time_minutes, at_day, next_weekday, is_us_market_open,
  is_eu_market_open, is_default_commodity_open, next_us_open, next_eu_open,
  next_default_commodity_open, next_weekday_open,
}
use ig_trading_bot.Config.MarketHours.Instants.{NextOpening}

-- Three rounds are enough: from the day after weekday w, the loop stops on the next weekday, which
-- is tomorrow, or Monday after a Friday or a weekend, whatever fuel is left.
pub next_weekday_stops :
    (fuel d w : ℕ)
    → 1 ≤ w
    → w ≤ 7
    → next_weekday (suc (suc (suc fuel))) d (w + 1) ≡ d + (if leb w 4 then 0 else 7 - w)
unfolding next_weekday
next_weekday_stops fuel d w low high = ground arith

-- The days until the opening: none if it is still to come today, and else those that the loop finds.
abbrev days_until : ℕ → ℕ → ℕ → ℕ
days_until from w now = if leb w 5 && ltb now from then 0 else if leb w 4 then 1 else 8 - w

next_weekday_open-eq :
    (h m : ℕ) (t : DateTime)
    → next_weekday_open h m t
      ≡ at_day t (days_until (h * 60 + m) (isoweekday t) (time_minutes t)) h m
unfolding next_weekday_open
next_weekday_open-eq h m t =
    rw (next_weekday_stops 4 1 (isoweekday t) (omega arith) (omega arith)) (ground arith)

-- The same of numbers: a day, its minute, and the days until the opening.
market_opens :
    (from till day now : ℕ)
    → now < 1440
    → from < till
    → let w = (day + 6) % 7 + 1 in
      let next = day + days_until from w now in
      (if ltb 5 w then false else leb from now && ltb now till) ≡ false
      → (day * 1440 + now < next * 1440 + from) × ((next + 6) % 7 + 1 ≤ 5)
market_opens from till day now small room shut = ground arith

market_gap :
    (from till day now day' now' : ℕ)
    → now < 1440
    → now' < 1440
    → let w = (day + 6) % 7 + 1 in
      let w' = (day' + 6) % 7 + 1 in
      (if ltb 5 w then false else leb from now && ltb now till) ≡ false
      → day * 1440 + now ≤ day' * 1440 + now'
      → day' * 1440 + now' < (day + days_until from w now) * 1440 + from
      → (if ltb 5 w' then false else leb from now' && ltb now' till) ≡ false
market_gap from till day now day' now' small small' shut after before = ground arith

pub us-NextOpening :
    (t : DateTime)
    → IsTime t
    → is_us_market_open t ≡ false
    → NextOpening is_us_market_open t (next_us_open t)
unfolding is_us_market_open
us-NextOpening t v closed =
    let now = time_minutes t in
    let opens = market_opens 870 1260 t.day now (omega arith) (omega arith) closed in
    rw (next_weekday_open-eq 14 30 t) (record {
      starts = ground (arith, opens);
      whole = refl;
      after = omega (arith, opens);
      soon = ground arith;
      shut = λ u w later before.
          market_gap 870 1260 t.day now u.day (time_minutes u) (omega arith) (omega arith) closed
            (omega arith) (omega arith);
    })

pub eu-NextOpening :
    (t : DateTime)
    → IsTime t
    → is_eu_market_open t ≡ false
    → NextOpening is_eu_market_open t (next_eu_open t)
unfolding is_eu_market_open
eu-NextOpening t v closed =
    let now = time_minutes t in
    let opens = market_opens 480 990 t.day now (omega arith) (omega arith) closed in
    rw (next_weekday_open-eq 8 0 t) (record {
      starts = ground (arith, opens);
      whole = refl;
      after = omega (arith, opens);
      soon = ground arith;
      shut = λ u w later before.
          market_gap 480 990 t.day now u.day (time_minutes u) (omega arith) (omega arith) closed
            (omega arith) (omega arith);
    })

commodity-minutes :
    (t : DateTime)
    → IsTime t
    → is_default_commodity_open t ≡ (
        if ltb 5 (isoweekday t)
        then false
        else leb 60 (time_minutes t) && ltb (time_minutes t) 1320)
unfolding is_default_commodity_open
commodity-minutes t v = ground arith

pub commodity-NextOpening :
    (t : DateTime)
    → IsTime t
    → is_default_commodity_open t ≡ false
    → NextOpening is_default_commodity_open t (next_default_commodity_open t)
commodity-NextOpening t v closed =
    let now = time_minutes t in
    let closed' = rw (commodity-minutes t v) at closed in
    let opens = market_opens 60 1320 t.day now (omega arith) (omega arith) closed' in
    rw (next_weekday_open-eq 1 0 t) (record {
      starts = unfold is_default_commodity_open in ground (arith, opens);
      whole = refl;
      after = omega (arith, opens);
      soon = ground arith;
      shut = λ u w later before. rw (commodity-minutes u w) (
          market_gap 60 1320 t.day now u.day (time_minutes u) (omega arith) (omega arith) closed'
            (omega arith) (omega arith));
    })
