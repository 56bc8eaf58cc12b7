-- ===== src/Config/MarketHours.antt =====
-- src/config/market_hours.py: the hours of each asset class, and the next opening.
-- A `datetime` in UTC is the ordinal of its day, as `date.toordinal` counts it, and its time of day;
-- adding days does not run past the last year. Times are given in UTC, where `_to_utc` leaves them.
pub mod Instruments
pub mod Instants
pub mod Weekdays
pub mod Weekly
pub mod Openings
mod Tests
use ig_trading_bot.Common.{
  ℕ, zero, suc, ◌+◌, ◌-◌, ◌*◌, ◌%◌, ◌<◌, Bool, true, false, ◌&&◌, ◌||◌, negate, if◌then◌else◌, leb,
  ltb,
}

pub data AssetClass : Type 0 where
  forex us_index eu_index commodity_gold commodity_oil commodity_other crypto us_stock : AssetClass

pub record DateTime : Type 0 where
  pub day : ℕ
  pub hour : ℕ
  pub minute : ℕ
  pub second : ℕ
  pub microsecond : ℕ

abbrev pub same : ℕ → ℕ → Bool
same a b = leb a b && leb b a

-- `isoweekday`: 1 is Monday, which the day 1 is, and 7 is Sunday.
abbrev pub isoweekday : DateTime → ℕ
isoweekday t = (t.day + 6) % 7 + 1

-- `t.replace(hour=h, minute=m, second=0, microsecond=0) + timedelta(days=d)`
abbrev pub at_day : DateTime → ℕ → ℕ → ℕ → DateTime
at_day t d h m = record { day = t.day + d; hour = h; minute = m; second = 0; microsecond = 0 }

abbrev pub time_minutes : DateTime → ℕ
time_minutes t = t.hour * 60 + t.minute

pub is_forex_open : DateTime → Bool
is_forex_open t =
    let weekday = isoweekday t in
    if same weekday 6
    then false
    else if same weekday 7
    then leb 21 t.hour
    else if same weekday 5
    then ltb t.hour 21 || (same t.hour 21 && same t.minute 0)
    else true

pub is_us_market_open : DateTime → Bool
is_us_market_open t =
    if ltb 5 (isoweekday t) then false else leb 870 (time_minutes t) && ltb (time_minutes t) 1260

pub is_eu_market_open : DateTime → Bool
is_eu_market_open t =
    if ltb 5 (isoweekday t) then false else leb 480 (time_minutes t) && ltb (time_minutes t) 990

pub is_gold_open : DateTime → Bool
is_gold_open t =
    let weekday = isoweekday t in
    if same weekday 6
    then false
    else if same weekday 7
    then leb 23 t.hour
    else if same weekday 5
    then negate (leb 22 t.hour && ltb t.hour 23)
    else if leb 1 weekday && leb weekday 4
    then negate (leb 22 t.hour && ltb t.hour 23)
    else true

pub is_oil_open : DateTime → Bool
is_oil_open t =
    let weekday = isoweekday t in
    if same weekday 6
    then false
    else if same weekday 7
    then leb 23 t.hour
    else if same weekday 5
    then ltb t.hour 22
    else if leb 1 weekday && leb weekday 4
    then negate (leb 22 t.hour && ltb t.hour 23)
    else true

pub is_default_commodity_open : DateTime → Bool
is_default_commodity_open t = if ltb 5 (isoweekday t) then false else leb 1 t.hour && ltb t.hour 22

-- `is_market_open`, for the class of the instrument.
pub is_open : AssetClass → DateTime → Bool
unfolding is_forex_open is_us_market_open is_eu_market_open is_gold_open is_oil_open
    is_default_commodity_open
is_open crypto t = true
is_open forex t = is_forex_open t
is_open us_index t = is_us_market_open t
is_open us_stock t = is_us_market_open t
is_open eu_index t = is_eu_market_open t
is_open commodity_gold t = is_gold_open t
is_open commodity_oil t = is_oil_open t
is_open commodity_other t = is_default_commodity_open t

pub next_forex_open : DateTime → DateTime
next_forex_open t =
    let weekday = isoweekday t in
    if same weekday 6
    then at_day t 1 21 0
    else if same weekday 7 && ltb t.hour 21
    then at_day t 0 21 0
    else if same weekday 5 && leb 21 t.hour
    then at_day t 2 21 0
    else at_day t (if leb (7 - weekday) 0 then 7 - weekday + 7 else 7 - weekday) 21 0

-- The `while True` loop over the days of the week: `days_ahead` and `next_day`, on fuel.
pub next_weekday : ℕ → ℕ → ℕ → ℕ
next_weekday zero days_ahead next_day = days_ahead
next_weekday (suc fuel) days_ahead next_day =
    let day = if ltb 7 next_day then 1 else next_day in
    let rest = next_weekday fuel (days_ahead + 1) (day + 1) in
    if leb 1 day && leb day 5 then days_ahead else rest

-- The opening of a market that opens on weekdays at one time: today if that is still to come.
pub next_weekday_open : ℕ → ℕ → DateTime → DateTime
unfolding next_weekday
next_weekday_open h m t =
    let weekday = isoweekday t in
    if (leb 1 weekday && leb weekday 5) && ltb (time_minutes t) (h * 60 + m)
    then at_day t 0 h m
    else at_day t (next_weekday 7 1 (weekday + 1)) h m

abbrev pub next_us_open : DateTime → DateTime
next_us_open t = next_weekday_open 14 30 t

abbrev pub next_eu_open : DateTime → DateTime
next_eu_open t = next_weekday_open 8 0 t

pub next_gold_open : DateTime → DateTime
next_gold_open t =
    let weekday = isoweekday t in
    if (leb 1 weekday && leb weekday 5) && (leb 22 t.hour && ltb t.hour 23)
    then at_day t 0 23 0
    else if same weekday 6
    then at_day t 1 23 0
    else if same weekday 7 && ltb t.hour 23
    then at_day t 0 23 0
    else if same weekday 5 && leb 22 t.hour
    then at_day t 2 23 0
    else at_day t 1 23 0

pub next_oil_open : DateTime → DateTime
next_oil_open t =
    let weekday = isoweekday t in
    if (leb 1 weekday && leb weekday 4) && (leb 22 t.hour && ltb t.hour 23)
    then at_day t 0 23 0
    else if same weekday 5 && leb 22 t.hour
    then at_day t 2 23 0
    else if same weekday 6
    then at_day t 1 23 0
    else if same weekday 7 && ltb t.hour 23
    then at_day t 0 23 0
    else at_day t 1 23 0

-- Its test is `utc_time.hour < 1`, which is the time before 1:00.
abbrev pub next_default_commodity_open : DateTime → DateTime
next_default_commodity_open t = next_weekday_open 1 0 t

-- `get_next_open`, for the class of the instrument.
pub next_open : AssetClass → DateTime → DateTime
unfolding is_open next_forex_open next_weekday_open next_gold_open next_oil_open
next_open c t = if is_open c t then t else elim c [
  | crypto ↦ t
  | forex ↦ next_forex_open t
  | us_index ↦ next_us_open t
  | us_stock ↦ next_us_open t
  | eu_index ↦ next_eu_open t
  | commodity_gold ↦ next_gold_open t
  | commodity_oil ↦ next_oil_open t
  | commodity_other ↦ next_default_commodity_open t
]

pub record IsTime (t : DateTime) : Type 0 where
  pub hour_in : t.hour < 24
  pub minute_in : t.minute < 60
  pub second_in : t.second < 60
  pub microsecond_in : t.microsecond < 1000000
