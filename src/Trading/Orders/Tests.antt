-- ===== src/Trading/Orders/Tests.antt =====
-- The manager on concrete inputs, and the theorems applied to them.
use ig_trading_bot.Common.{
  ◌≡◌, refl, none, some, [], ◌∷◌, ◌++◌, fixed, pos, lookup, inr, length, insert,
}
use ig_trading_bot.Trading.OrderData.{
  OrderManager, Order, TrailingStopConfig, market, place_order_call, close_position_call, accepted,
  price_unreadable, message, execution_error, failed, raised, MarketInfo, info, returned, pending,
  below_minimum, validation_error,
}
use ig_trading_bot.Trading.Orders.{
  PositionInfo, place_new, new_order, validate_order, close_order, partial_take_profit,
  place_limit_order, submit_order, handle_failure, retry_order,
}
use ig_trading_bot.Trading.Orders.Closing.{
  RetryEnds, close_order_retry_places, partial_close_drops_trailing_stop,
}

abbrev gold_stop : TrailingStopConfig fixed
gold_stop = record {
  deal_id = "D1";
  instrument = "gold";
  direction = "BUY";
  trail_distance = pos 100000;
  current_stop = pos 19900000;
  highest_price = pos 20000000;
  lowest_price = pos 0;
}

abbrev manager : OrderManager fixed
manager = record { orders = []; active_trailing_stops = ("D1", gold_stop) ∷ []; api_calls = [] }

abbrev open_market : MarketInfo fixed
open_market = info (some "TRADEABLE") none (some (pos 50000)) (some (pos 40000))

abbrev buy : Order fixed
buy = record {
  id = "o1";
  instrument = "gold";
  direction = "BUY";
  order_type = market;
  size = pos 10000;
  price = none;
  stop_distance = none;
  limit_distance = none;
  status = pending;
  deal_reference = none;
  deal_id = none;
  filled_at = none;
  closed_at = none;
  error_message = none;
  retry_count = 0;
  entry_price = none;
}

-- The broker fills the order twice, and both times the entry price is no number: the order ends as
-- failed, with the second deal.
placed_twice :
    let (m, end) =
      place_new fixed manager buy open_market
        (price_unreadable (some "R1") (some "D2") "ConversionSyntax")
        (price_unreadable (some "R2") (some "D3") "ConversionSyntax")
        7
        9 in
    (end ≡ execution_error (message "ConversionSyntax"))
    × (length m.api_calls ≡ 2)
    × ((o : Order fixed) × (lookup "o1" m.orders ≡ some o)
        × (o.status ≡ failed)
        × (o.deal_id ≡ some "D3"))
unfolding place_new submit_order handle_failure retry_order validate_order lookup insert
placed_twice = (refl, refl, (_, refl, refl, refl))

-- Half a hundredth is below the default minimum, and the broker is not asked.
too_small :
    let (m, end) =
      place_limit_order fixed manager "o2" "gold" "BUY"
        (pos 50)
        (pos 20000000)
        none
        none
        open_market
        (raised "x")
        (raised "y")
        7
        9 in
    (end ≡ validation_error (below_minimum (pos 50) (pos 100))) × (m.api_calls ≡ [])
unfolding place_limit_order place_new new_order validate_order
too_small = (refl, refl)

close_order_retry_places_example :
    let (m', end) =
      close_order fixed manager "c1" "D1" "SELL"
        (pos 10000)
        (raised "timeout")
        (accepted (some "R") (some "D3") none)
        7
        9 in
    (m'.api_calls
      ≡ (manager.api_calls ++ close_position_call "D1" "SELL" (pos 10000) ∷ [])
        ++ place_order_call "" "SELL" (pos 10000) market none none none ∷ [])
    × (m'.active_trailing_stops ≡ manager.active_trailing_stops)
    × RetryEnds fixed "c1" "timeout" (accepted (some "R") (some "D3") none) 9 (m', end)
close_order_retry_places_example =
    close_order_retry_places fixed manager "c1" "D1" "SELL" (pos 10000) "timeout"
      (accepted (some "R") (some "D3") none) 7 9

abbrev position : PositionInfo fixed
position = record {
  direction = "BUY";
  total_size = pos 20000;
  entry_price = pos 19950000;
  spread = pos 5000;
}

partial_close_drops_trailing_stop_example :
    let (m', end) =
      partial_take_profit fixed
        (λ x. x)
        manager
        "D1"
        (pos 5000)
        (inr position)
        "p1"
        (accepted (some "R") none none)
        (raised "")
        7
        9 in
    (lookup "D1" m'.active_trailing_stops ≡ none) × ((o : Order fixed) × (end ≡ returned o))
partial_close_drops_trailing_stop_example =
    partial_close_drops_trailing_stop fixed (λ x. x) manager "D1" "p1" (pos 5000) position
      (some "R") none none (raised "") 7 9 refl refl
