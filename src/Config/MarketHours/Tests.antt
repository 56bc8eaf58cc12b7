-- ===== src/Config/MarketHours/Tests.antt =====
-- Times of a week, and the theorems applied to them.
use ig_trading_bot.Common.{ℕ, ◌≤◌, ◌≡◌, refl, true, false, arith, lookup}
use ig_trading_bot.Config.MarketHours.{
  forex, us_index, eu_index, commodity_other, crypto, DateTime, IsTime, at_day, is_open, next_open,
  is_forex_open, is_us_market_open, next_forex_open, next_weekday_open, next_weekday,
}
use ig_trading_bot.Config.MarketHours.Instants.{instant}
use ig_trading_bot.Config.MarketHours.Openings.{next_opening_is_found, closed_until_next_open}
use ig_trading_bot.Config.MarketHours.Weekdays.{next_weekday_stops}
use ig_trading_bot.Config.MarketHours.Instruments.{
  new, get_asset_class, register_instrument, get_asset_class-register_instrument,
}

-- A Friday, half past a given hour, with some seconds.
abbrev friday_at : ℕ → DateTime
friday_at h = record { day = 739009; hour = h; minute = 30; second = 15; microsecond = 250000 }

friday_at-IsTime : IsTime (friday_at 22)
friday_at-IsTime = record {
  hour_in = omega arith;
  minute_in = omega arith;
  second_in = omega arith;
  microsecond_in = omega arith;
}

-- The next American opening after Friday's close is on Monday at 14:30.
next_open-friday : next_open us_index (friday_at 22) ≡ at_day (friday_at 22) 3 14 30
unfolding next_open is_open is_us_market_open next_weekday_open next_weekday
next_open-friday = refl

next_opening_is_found_example :
    (is_open us_index (next_open us_index (friday_at 22)) ≡ true)
    × (instant (friday_at 22) ≤ instant (next_open us_index (friday_at 22)))
    × ((next_open us_index (friday_at 22)).day ≤ 739012)
next_opening_is_found_example = next_opening_is_found us_index (friday_at 22) friday_at-IsTime

abbrev sunday_noon : DateTime
sunday_noon = record { day = 739011; hour = 12; minute = 0; second = 0; microsecond = 0 }

sunday_noon-IsTime : IsTime sunday_noon
sunday_noon-IsTime = record {
  hour_in = omega arith;
  minute_in = omega arith;
  second_in = omega arith;
  microsecond_in = omega arith;
}

closed_until_next_open_example : is_open forex sunday_noon ≡ false
unfolding next_open is_open is_forex_open next_forex_open
closed_until_next_open_example =
    closed_until_next_open forex (friday_at 22) sunday_noon friday_at-IsTime sunday_noon-IsTime
      (omega arith) (omega arith)

next_weekday_stops_example : next_weekday 7 1 6 ≡ 3
next_weekday_stops_example = next_weekday_stops 4 1 5 (omega arith) (omega arith)

get_asset_class-names :
    (get_asset_class (λ s. s) new "EURUSD" ≡ eu_index)
    × (get_asset_class (λ s. s) new "SEK/PLN" ≡ forex)
    × (get_asset_class (λ s. s) new "BTC/EUR" ≡ crypto)
    × (get_asset_class (λ s. s) new "PLN/CZK" ≡ commodity_other)
unfolding get_asset_class new lookup
get_asset_class-names = (refl, refl, refl, refl)

get_asset_class-register_instrument_example :
    get_asset_class (λ s. s) (register_instrument (λ s. s) new "EURUSD" forex) "EURUSD" ≡ forex
get_asset_class-register_instrument_example =
    get_asset_class-register_instrument (λ s. s) new "EURUSD" "EURUSD" forex
