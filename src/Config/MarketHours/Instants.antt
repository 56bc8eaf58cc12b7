-- ===== src/Config/MarketHours/Instants.antt =====
-- Instants, and what the next opening after one is.
use ig_trading_bot.Common.{ℕ, ◌+◌, ◌*◌, ◌≤◌, ◌<◌, ◌≡◌, Bool, true, false}
use ig_trading_bot.Config.MarketHours.{DateTime, IsTime}

-- Minutes since the first day, and the rest of the minute.
abbrev pub minutes_of : DateTime → ℕ
minutes_of t = t.day * 1440 + t.hour * 60 + t.minute

abbrev pub rest_of : DateTime → ℕ
rest_of t = t.second * 1000000 + t.microsecond

-- The number of microseconds, by which datetimes are compared.
abbrev pub instant : DateTime → ℕ
instant t = minutes_of t * 60000000 + rest_of t

-- The opening that follows a time at which a market is closed.
pub record NextOpening (trades : DateTime → Bool) (t n : DateTime) : Type 0 where
  pub starts : trades n ≡ true
  pub whole : rest_of n ≡ 0
  pub after : minutes_of t < minutes_of n
  pub soon : n.day ≤ t.day + 3
  pub shut :
      (u : DateTime)
      → IsTime u
      → minutes_of t ≤ minutes_of u
      → minutes_of u < minutes_of n
      → trades u ≡ false
