-- ===== src/Config/MarketHours/Instruments.antt =====
-- Which asset class an instrument has, and the market of an instrument.
-- `str.upper` is an argument: the language's own mapping of letters.
use Prim.Native.Char.{Char, code}
use text.Mathlib.Text.{◌==◌ as str_eq, starts_with}
use ig_trading_bot.Common.{
  ◌≡◌, String, Bool, false, ◌||◌, Option, none, some, List, [], ◌∷◌, arith, if◌then◌else◌, Dict,
  lookup, insert, lookup-insert, member,
}
use ig_trading_bot.Config.MarketHours.{
  AssetClass, forex, us_index, eu_index, commodity_gold, commodity_oil, commodity_other, crypto,
  us_stock, DateTime, is_open, next_open, same,
}

pub record MarketHours : Type 0 where
  pub instrument_map : Dict AssetClass

abbrev instrument_asset_class_map : Dict AssetClass
instrument_asset_class_map =
    ("EUR/USD", forex)
    ∷ ("GBP/USD", forex)
    ∷ ("USD/JPY", forex)
    ∷ ("AUD/USD", forex)
    ∷ ("USD/CAD", forex)
    ∷ ("USD/CHF", forex)
    ∷ ("NZD/USD", forex)
    ∷ ("EUR/GBP", forex)
    ∷ ("EUR/JPY", forex)
    ∷ ("GBP/JPY", forex)
    ∷ ("US500", us_index)
    ∷ ("US30", us_index)
    ∷ ("USTEC", us_index)
    ∷ ("US2000", us_index)
    ∷ ("DE40", eu_index)
    ∷ ("UK100", eu_index)
    ∷ ("FR40", eu_index)
    ∷ ("EU50", eu_index)
    ∷ ("GOLD", commodity_gold)
    ∷ ("XAU/USD", commodity_gold)
    ∷ ("OIL_CRUDE", commodity_oil)
    ∷ ("OIL_BRENT", commodity_oil)
    ∷ ("SILVER", commodity_other)
    ∷ ("XAG/USD", commodity_other)
    ∷ ("NATGAS", commodity_other)
    ∷ ("BTC/USD", crypto)
    ∷ ("ETH/USD", crypto)
    ∷ ("XRP/USD", crypto)
    ∷ ("LTC/USD", crypto)
    ∷ ("AAPL", us_stock)
    ∷ ("MSFT", us_stock)
    ∷ ("GOOGL", us_stock)
    ∷ ("AMZN", us_stock)
    ∷ ("TSLA", us_stock)
    ∷ []

abbrev forex_prefixes : List String
forex_prefixes =
    "EUR" ∷ "GBP" ∷ "USD" ∷ "JPY" ∷ "AUD" ∷ "CAD" ∷ "CHF" ∷ "NZD" ∷ "SEK" ∷ "NOK" ∷ "DKK" ∷ "SGD"
    ∷ "HKD" ∷ "ZAR" ∷ "MXN" ∷ "TRY" ∷ []

abbrev crypto_bases : List String
crypto_bases = "BTC" ∷ "ETH" ∷ "XRP" ∷ "LTC" ∷ "ADA" ∷ "DOT" ∷ "SOL" ∷ "DOGE" ∷ []

unfoldable pub new : MarketHours
new = record { instrument_map = instrument_asset_class_map }

abbrev prepend : Char → String × String → String × String
prepend c (a, b) = (String.◌∷◌ c a, b)

-- The text before the first slash and after it.
cut : String → Option (String × String)
cut String.[] = none
cut (String.◌∷◌ c s) =
    let rest = cut s in
    if same (code c) 47
    then some ("", s)
    else elim rest [ none ↦ none | some p ↦ some (prepend c p) ]

-- `split("/")`, where it has two parts.
pair_of : String → Option (String × String)
unfolding cut
pair_of s = elim (cut s) [ none ↦ none | some p ↦ elim (cut p.1) [ none ↦ some p | some q ↦ none ] ]

-- `startswith` with a tuple of prefixes.
abbrev starts_with_any : String → List String → Bool
starts_with_any s [] = false
starts_with_any s (p ∷ ps) = starts_with s p || starts_with_any s ps

abbrev known_or : Option AssetClass → AssetClass → AssetClass
known_or (some c) d = c
known_or none d = d

module _ (upper : String → String) where
  abbrev by_pair : Option (String × String) → Option AssetClass
  by_pair none = none
  by_pair (some p) =
      if member (upper p.0) crypto_bases
      then some crypto
      else if member (upper p.0) forex_prefixes || member (upper p.1) forex_prefixes
      then some forex
      else none

  by_prefix : String → AssetClass
  by_prefix s =
      if starts_with_any s ("BTC" ∷ "ETH" ∷ "XRP" ∷ "LTC" ∷ "CRYPTO" ∷ [])
      then crypto
      else if starts_with_any s ("US" ∷ "SP" ∷ "DOW" ∷ "NASDAQ" ∷ [])
      then us_index
      else if starts_with_any s ("DE" ∷ "UK" ∷ "FR" ∷ "EU" ∷ "FTSE" ∷ "DAX" ∷ "CAC" ∷ [])
      then eu_index
      else commodity_other

  unfoldable pub get_asset_class : MarketHours → String → AssetClass
  unfolding pair_of by_prefix
  get_asset_class m i =
      known_or (lookup i m.instrument_map) (known_or (by_pair (pair_of i)) (by_prefix (upper i)))

  pub register_instrument : MarketHours → String → AssetClass → MarketHours
  register_instrument m i c = record m { instrument_map = insert i c m.instrument_map }

  pub is_market_open : MarketHours → String → DateTime → Bool
  unfolding get_asset_class is_open
  is_market_open m i t = is_open (get_asset_class m i) t

  pub get_next_open : MarketHours → String → DateTime → DateTime
  unfolding get_asset_class next_open
  get_next_open m i t = next_open (get_asset_class m i) t

  -- A registered instrument has the class it was registered with, whatever its name suggests and
  -- whatever it had before, and no other instrument's class changes.
  pub get_asset_class-register_instrument :
      (m : MarketHours) (i j : String) (c : AssetClass)
      → get_asset_class (register_instrument m i c) j
        ≡ (if str_eq i j then c else get_asset_class m j)
  unfolding get_asset_class register_instrument
  get_asset_class-register_instrument m i j c =
      rw (lookup-insert i j c m.instrument_map, register_instrument, get_asset_class) (ground arith)
