-- ===== src/Trading/Orders/Closing.antt =====
-- Closing a position, in whole or in part, and what the retry of a failed close does.
use ig_trading_bot.Common.{
  ℕ, ◌≡◌, refl, String, false, Option, none, some, [], ◌∷◌, ◌++◌, Arith, lookup, lookup-insert_self,
  lookup-erase_self, inr, ◌||◌, Dict,
}
use ig_trading_bot.Trading.OrderData.{
  OrderManager, Order, market, place_order_call, close_position_call, Response, accepted,
  price_unreadable, malformed, raised, Ending, execution_error, message, failed, returned, filled,
  closed, TrailingStopConfig,
}
use ig_trading_bot.Trading.Orders.{
  PositionInfo, retry_order, handle_failure, close_order, new_order, partial_take_profit, move_stop,
}

module _ (A : Arith) where
  -- When the broker accepts the close, the order is stored and returned as closed, the broker has
  -- been asked exactly once, and the trailing stop of the deal is gone.
  pub close_order-accepted :
      (m : OrderManager A) (i deal direction : String) (size : A.Num) (reference d : Option String)
      (price : Option A.Num) (retry : Response A) (now later : ℕ)
      → let (m', end) =
          close_order A m i deal direction size (accepted reference d price) retry now later in
        (o : Order A) × (end ≡ returned o)
        × (o.status ≡ closed)
        × (lookup i m'.orders ≡ some o)
        × (m'.api_calls ≡ m.api_calls ++ close_position_call deal direction size ∷ [])
        × (lookup deal m'.active_trailing_stops ≡ none)
  unfolding close_order new_order
  close_order-accepted m i deal direction size reference d price retry now later = (
    _,
    refl,
    refl,
    lookup-insert_self i _ _,
    refl,
    lookup-erase_self deal m.active_trailing_stops,
  )

  -- What a close that has failed once ends with: the first error, unless the retry is accepted; then
  -- the order is stored and returned as filled, with the details of the retry.
  abbrev pub RetryEnds : String → String → Response A → ℕ → OrderManager A × Ending A → Type 0
  RetryEnds i e (accepted reference deal price) later (m', end) =
      (o : Order A) × (end ≡ returned o)
      × (lookup i m'.orders ≡ some o)
      × (o.status ≡ filled)
      × (o.deal_reference ≡ reference)
      × (o.deal_id ≡ deal)
      × (o.filled_at ≡ some later)
      × (o.entry_price ≡ price)
  RetryEnds i e retry later (m', end) =
      (o : Order A) × (end ≡ execution_error (message e))
      × (lookup i m'.orders ≡ some o)
      × (o.status ≡ failed)

  -- When the broker's client raises on a close, its retry is no close: the broker is asked to place
  -- a new market order for the empty instrument, in the closing direction and at the size of the
  -- close, with no price and no distances. If that is accepted, the order is returned and stored as
  -- filled, not as closed, with the details of the accepted order; otherwise it is stored as failed
  -- and the close ends with the first error. In either case no second close is sent and the trailing
  -- stops stay as they were.
  pub close_order_retry_places :
      (m : OrderManager A) (i deal direction : String) (size : A.Num) (e : String)
      (retry : Response A) (now later : ℕ)
      → let (m', end) = close_order A m i deal direction size (raised e) retry now later in
        (m'.api_calls
          ≡ (m.api_calls ++ close_position_call deal direction size ∷ [])
            ++ place_order_call "" direction size market none none none ∷ [])
        × (m'.active_trailing_stops ≡ m.active_trailing_stops)
        × RetryEnds i e retry later (m', end)
  unfolding close_order new_order handle_failure retry_order
  close_order_retry_places m i deal direction size e (accepted r d price) now later =
      (refl, refl, (_, refl, lookup-insert_self i _ _, refl, refl, refl, refl, refl))
  close_order_retry_places m i deal direction size e (price_unreadable r d t) now later =
      (refl, refl, (_, refl, lookup-insert_self i _ _, refl))
  close_order_retry_places m i deal direction size e (malformed t) now later =
      (refl, refl, (_, refl, lookup-insert_self i _ _, refl))
  close_order_retry_places m i deal direction size e (raised t) now later =
      (refl, refl, (_, refl, lookup-insert_self i _ _, refl))

  move_stop-absent :
      (deal : String) (new_stop : A.Num) (stops : Dict (TrailingStopConfig A))
      → lookup deal stops ≡ none
      → lookup deal (move_stop A deal new_stop stops) ≡ none
  move_stop-absent deal new_stop stops h = rw (h, move_stop) h

  -- A partial close with a share in its range and a size over zero, whose close is accepted, returns
  -- the order and leaves the deal without a trailing stop, although the rest of the position stays
  -- open; so the update of its current stop finds none.
  pub partial_close_drops_trailing_stop :
      (quantize : A.Num → A.Num) (m : OrderManager A) (deal i : String) (close_pct : A.Num)
      (position : PositionInfo A) (reference d : Option String) (price : Option A.Num)
      (retry : Response A) (now later : ℕ)
      → (A.lt close_pct (A.dec 25 2) || A.lt (A.dec 75 2) close_pct) ≡ false
      → A.le (quantize (A.mul position.total_size close_pct)) (A.dec 0 0) ≡ false
      → let (m', end) =
          partial_take_profit A quantize m deal close_pct
            (inr position)
            i
            (accepted reference d price)
            retry
            now
            later in
        (lookup deal m'.active_trailing_stops ≡ none) × ((o : Order A) × (end ≡ returned o))
  unfolding partial_take_profit close_order
  partial_close_drops_trailing_stop quantize m deal i close_pct position r d price retry now later
        inside positive =
      rw (inside, positive, partial_take_profit)
        (move_stop-absent deal _ _ (lookup-erase_self deal m.active_trailing_stops), (_, refl))
