-- ===== src/Config/MarketHours/Openings.antt =====
-- The next opening: it is one, and there is none before it.
use ig_trading_bot.Common.{
  ◌+◌, ◌≤◌, ◌<◌, ◌≡◌, refl, true, false, arith, Bool-cases, inl, inr, if◌then◌else◌,
}
use ig_trading_bot.Config.MarketHours.{
  AssetClass, forex, us_index, eu_index, commodity_gold, commodity_oil, commodity_other, crypto,
  us_stock, DateTime, IsTime, isoweekday, at_day, is_open, next_open, is_gold_open, next_forex_open,
  next_us_open, next_eu_open, next_default_commodity_open, next_gold_open, next_oil_open,
}
use ig_trading_bot.Config.MarketHours.Instants.{instant, NextOpening}
use ig_trading_bot.Config.MarketHours.Weekdays.{
  us-NextOpening, eu-NextOpening, commodity-NextOpening,
}
use ig_trading_bot.Config.MarketHours.Weekly.{forex-NextOpening, gold-NextOpening, oil-NextOpening}

-- The answer for a class: now if its market is open, and else the opening that follows.
record Answer (c : AssetClass) (t n : DateTime) : Type 0 where
  starts : is_open c n ≡ true
  after : instant t ≤ instant n
  soon : n.day ≤ t.day + 3
  shut :
      (u : DateTime)
      → IsTime u
      → instant t ≤ instant u
      → instant u < instant n
      → is_open c u ≡ false

trades_now : (c : AssetClass) (t : DateTime) → is_open c t ≡ true → Answer c t t
trades_now c t trading = record {
  starts = trading;
  after = omega arith;
  soon = omega arith;
  shut = λ u w later before. absurd (omega (arith, later, before));
}

opens_later :
    (c : AssetClass) (t n : DateTime) → IsTime t → NextOpening (is_open c) t n → Answer c t n
opens_later c t n v o = record {
  starts = o.starts;
  after = omega (arith, o.after);
  soon = o.soon;
  shut = λ u w later before. o.shut u w (omega (arith, later)) (omega (arith, before, o.whole));
}

answer :
    (c : AssetClass) (t n : DateTime)
    → IsTime t
    → (is_open c t ≡ false → NextOpening (is_open c) t n)
    → Answer c t (if is_open c t then t else n)
answer c t n v o = elim (Bool-cases (is_open c t)) [
  | inl trading ↦ rw trading (trades_now c t trading)
  | inr closed ↦ rw closed (opens_later c t n v (o closed))
]

next_open-Answer : (c : AssetClass) (t : DateTime) → IsTime t → Answer c t (next_open c t)
unfolding next_open is_open
next_open-Answer forex t v = answer forex t (next_forex_open t) v (forex-NextOpening t v)
next_open-Answer us_index t v = answer us_index t (next_us_open t) v (us-NextOpening t v)
next_open-Answer us_stock t v = answer us_stock t (next_us_open t) v (us-NextOpening t v)
next_open-Answer eu_index t v = answer eu_index t (next_eu_open t) v (eu-NextOpening t v)
next_open-Answer commodity_gold t v =
    answer commodity_gold t (next_gold_open t) v (gold-NextOpening t v)
next_open-Answer commodity_oil t v =
    answer commodity_oil t (next_oil_open t) v (oil-NextOpening t v)
next_open-Answer commodity_other t v =
    answer commodity_other t (next_default_commodity_open t) v (commodity-NextOpening t v)
next_open-Answer crypto t v = trades_now crypto t refl

-- At any time of day and for every class, the market is open at its next opening, which is not
-- before now and at most three days after today.
pub next_opening_is_found :
    (c : AssetClass) (t : DateTime)
    → IsTime t
    → (is_open c (next_open c t) ≡ true)
      × (instant t ≤ instant (next_open c t))
      × ((next_open c t).day ≤ t.day + 3)
next_opening_is_found c t v = let a = next_open-Answer c t v in (a.starts, a.after, a.soon)

-- There is no earlier opening: from now until the next opening the market is closed.
pub closed_until_next_open :
    (c : AssetClass) (t u : DateTime)
    → IsTime t
    → IsTime u
    → instant t ≤ instant u
    → instant u < instant (next_open c t)
    → is_open c u ≡ false
closed_until_next_open c t u v w later before = (next_open-Answer c t v).shut u w later before

-- Gold opens again on a Friday: at every time from 23:00 of a Friday on it counts as open, and the
-- next opening after a time in the hour before is that very evening, at 23:00.
pub gold_opens_on_friday_night :
    (t : DateTime)
    → IsTime t
    → isoweekday t ≡ 5
    → (is_open commodity_gold (record t { hour = 23 }) ≡ true)
      × (next_open commodity_gold (record t { hour = 22 }) ≡ at_day t 0 23 0)
unfolding next_open is_open is_gold_open next_gold_open
gold_opens_on_friday_night t v friday = ground arith
