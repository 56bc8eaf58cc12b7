-- ===== src/Trading/Candles.antt =====
-- src/trading/candle_buffer.py: candles built from ticks, for each instrument.
-- Prices and times are numbers of `A`; `floor_div` is Python's floor division of floats, which the
-- program only calls. A closed candle is the dict that `to_dict` makes, with the same fields.
pub mod Shapes
mod Tests
use ig_trading_bot.Common.{
  ℕ, ◌+◌, ◌≤◌, String, Bool, true, false, Option, none, some, List, [], ◌∷◌, ◌++◌, Arith,
  if◌then◌else◌, leb, Dict, lookup, lookup_or, insert, length, trim, present,
}

pub record Candle (A : Arith) : Type 0 where
  pub period_start : A.Num
  pub open_price : A.Num
  pub high : A.Num
  pub low : A.Num
  pub close : A.Num
  pub tick_count : ℕ

pub record CandleBuffer (A : Arith) : Type 0 where
  pub period : A.Num
  pub max_candles : ℕ
  pub closed : Dict (List (Candle A))
  pub current : Dict (Candle A)
  pub tick_counts : Dict ℕ

-- One side of a quote: `None`, something that `float` refuses, or its number.
pub data Quote (A : Arith) : Type 0 where
  missing malformed : Quote A
  quoted : A.Num → Quote A

module _ (A : Arith) (floor_div : A.Num → A.Num → A.Num) where
  open A use {Num, dec, add, mul, div, lt}

  pub new : Num → ℕ → CandleBuffer A
  new period max_candles = record {
    period = period;
    max_candles = max_candles;
    closed = [];
    current = [];
    tick_counts = [];
  }

  pub price_of : Quote A → Quote A → Option Num
  price_of (quoted b) (quoted a) = some (div (add b a) (dec 2 0))
  price_of (quoted b) missing = some b
  price_of missing (quoted a) = some a
  price_of _ _ = none

  pub update : Candle A → Num → Candle A
  update c price = record c {
    high = (if lt c.high price then price else c.high);
    low = (if lt price c.low then price else c.low);
    close = price;
    tick_count = c.tick_count + 1;
  }

  abbrev pub first_candle : Num → Num → Candle A
  first_candle start price = record {
    period_start = start;
    open_price = price;
    high = price;
    low = price;
    close = price;
    tick_count = 1;
  }

  -- The candles of an instrument, and whether it has been seen before.
  abbrev pub closed_of : CandleBuffer A → String → List (Candle A)
  closed_of b epic = lookup_or epic [] b.closed

  abbrev pub seen : CandleBuffer A → String → CandleBuffer A
  seen b epic =
      if present (lookup epic b.closed)
      then b
      else record b { closed = insert epic [] b.closed; tick_counts = insert epic 0 b.tick_counts }

  abbrev pub counted : CandleBuffer A → String → CandleBuffer A
  counted b epic = record b {
    tick_counts = insert epic (lookup_or epic 0 b.tick_counts + 1) b.tick_counts;
  }

  pub place : CandleBuffer A → String → Num → Num → Option (Candle A) → CandleBuffer A
  unfolding update
  place b epic start price none = record b {
    current = insert epic (first_candle start price) b.current;
  }
  place b epic start price (some c) =
      if lt c.period_start start
      then record b {
        closed = insert epic (trim b.max_candles (closed_of b epic ++ c ∷ [])) b.closed;
        current = insert epic (first_candle start price) b.current;
      }
      else record b { current = insert epic (update c price) b.current }

  -- `on_tick`, whose time is given or read from the clock.
  pub on_tick : CandleBuffer A → String → Quote A → Quote A → Num → CandleBuffer A
  unfolding price_of place
  on_tick b epic bid ask now = elim (price_of bid ask) [
    | none ↦ b
    | some price ↦
        let b' = counted (seen b epic) epic in
        place b' epic (mul (floor_div now b.period) b.period) price (lookup epic b'.current)
  ]

  abbrev pub open_part : Option (Candle A) → List (Candle A)
  open_part none = []
  open_part (some c) = c ∷ []

  pub get_candles : CandleBuffer A → String → Bool → List (Candle A)
  get_candles b epic include_open =
      if include_open
      then closed_of b epic ++ open_part (lookup epic b.current)
      else closed_of b epic

  pub candle_count : CandleBuffer A → String → ℕ
  candle_count b epic = length (closed_of b epic)

  pub is_ready : CandleBuffer A → String → ℕ → Bool
  unfolding candle_count
  is_ready b epic min_candles = leb min_candles (candle_count b epic)

pub record Tick (A : Arith) : Type 0 where
  pub epic : String
  pub bid : Quote A
  pub ask : Quote A
  pub time : A.Num

module _ (A : Arith) (floor_div : A.Num → A.Num → A.Num) where
  pub run : CandleBuffer A → List (Tick A) → CandleBuffer A
  run b [] = b
  run b (t ∷ ts) = run (on_tick A floor_div b t.epic t.bid t.ask t.time) ts
