-- ===== src/Risk/Exposure/Tests.antt =====
-- A portfolio on concrete inputs, and the theorem applied to it.
use ig_trading_bot.Common.{
  ◌≡◌, refl, true, false, none, some, List, [], ◌∷◌, fixed, pos, negsuc, insert, lookup,
}
use ig_trading_bot.Risk.Exposure.{
  forex, crypto, Position, ExposureManager, new, update_geo_risk, check_exposure,
}

abbrev manager : ExposureManager fixed fixed
manager = update_geo_risk fixed fixed (new fixed fixed none none) "asia" (pos 71)

-- Short positions count by their size.
abbrev book : List (Position fixed)
book =
    record {
      instrument = "EUR/USD";
      asset_class = forex;
      notional_value = pos 1000000;
      region = none;
    }
    ∷ record {
      instrument = "BTC/USD";
      asset_class = crypto;
      notional_value = negsuc 1999999;
      region = none;
    }
    ∷ []

abbrev yen : Position fixed
yen = record {
  instrument = "USD/JPY";
  asset_class = forex;
  notional_value = pos 1000000;
  region = some "asia";
}

-- With an equity of 1000, a tenth more would be fine elsewhere, but not where the limit is halved.
check_exposure-regions :
    ((check_exposure fixed fixed manager yen book (pos 10000000) none).allowed ≡ false)
    × ((check_exposure fixed fixed manager
          (record yen { region = some "europe" })
          book
          (pos 10000000)
          none).allowed
        ≡ true)
unfolding new update_geo_risk check_exposure insert lookup
check_exposure-regions = (refl, refl)
