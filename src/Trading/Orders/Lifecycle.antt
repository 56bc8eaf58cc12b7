-- ===== src/Trading/Orders/Lifecycle.antt =====
-- Placing an order: how it ends, what is stored, and what the broker is asked.
use text.Mathlib.Text.{◌==◌}
use ig_trading_bot.Common.{
  ℕ, ◌+◌, ◌≡◌, String, false, true, Option, none, some, [], ◌∷◌, ◌++◌, Arith, lookup, insert, ◌⊎◌,
}
use ig_trading_bot.Trading.OrderData.{
  OrderManager, Order, ApiCall, place_order_call, OrderStatus, message, Response, accepted,
  price_unreadable, malformed, raised, MarketInfo, info, unavailable, submitted, Ending, returned,
  validation_error, execution_error, client_error, filled, rejected, failed,
}

module _ (A : Arith) where
  abbrev pub asked : Order A → ApiCall A
  asked o =
      place_order_call o.instrument o.direction o.size o.order_type o.price o.stop_distance
        o.limit_distance

  -- The other orders are as they were.
  abbrev pub KeepsOthers : OrderManager A → OrderManager A → String → Type 0
  KeepsOthers m m' i = (j : String) → (i == j) ≡ false → lookup j m'.orders ≡ lookup j m.orders

  abbrev HasMargin : Option A.Num → Option A.Num → Type 0
  HasMargin (some available) (some required) = A.lt available required ≡ false
  HasMargin _ _ = Unit

  -- What an order needs: an instrument that is tradeable, a size not under the minimum (a hundredth
  -- where the broker names none), and the margin, where the broker says what is there and needed.
  abbrev pub Accepts : MarketInfo A → A.Num → Type 0
  Accepts (info (some s) (some least) available required) size =
      (s == "TRADEABLE" ≡ true) × (A.lt size least ≡ false) × HasMargin available required
  Accepts (info (some s) none available required) size =
      (s == "TRADEABLE" ≡ true) × (A.lt size (A.dec 1 2) ≡ false) × HasMargin available required
  Accepts (info none _ _ _) size = ⊥
  Accepts (unavailable e) size = ⊥

  -- Why a response does not fill the order.
  abbrev pub error_of : Response A → Option String
  error_of (accepted _ _ _) = none
  error_of (price_unreadable _ _ e) = some e
  error_of (malformed e) = some e
  error_of (raised e) = some e

  -- The order after an accepted response, read at a time.
  abbrev pub IsFilled : Order A → ℕ → Response A → ℕ → Order A → Type 0
  IsFilled o retries (accepted reference deal price) time o' = o' ≡ record o {
    status = filled;
    deal_reference = reference;
    deal_id = deal;
    filled_at = some time;
    entry_price = price;
    retry_count = retries;
  }
  IsFilled o retries _ time o' = ⊥

  -- The deal that a failing response leaves in the order.
  abbrev pub deal_after : Option String → Response A → Option String
  deal_after deal (price_unreadable _ d _) = d
  deal_after deal _ = deal

  -- How an order can end, given what the broker knows of the instrument and its two responses.
  abbrev pub Ends :
      OrderManager A
      → Order A
      → MarketInfo A
      → Response A
      → Response A
      → ℕ
      → ℕ
      → OrderManager A × Ending A
      → Type 0
  Ends m o mi first retry now later (m', returned o') =
      Accepts mi o.size
      × (lookup o.id m'.orders ≡ some o')
      × KeepsOthers m m' o.id
      × (((m'.api_calls ≡ m.api_calls ++ asked o ∷ []) × IsFilled o o.retry_count first now o')
          ⊎ ((m'.api_calls ≡ (m.api_calls ++ asked o ∷ []) ++ asked o ∷ [])
              × ((e : String) × (error_of first ≡ some e))
              × IsFilled o (o.retry_count + 1) retry later o'))
  Ends m o mi first retry now later (m', validation_error e) =
      ¬ Accepts mi o.size
      × (lookup o.id m'.orders ≡ some (record o { status = rejected; error_message = some e }))
      × KeepsOthers m m' o.id
      × (m'.api_calls ≡ m.api_calls)
  Ends m o mi first retry now later (m', execution_error err) =
      Accepts mi o.size
      × ((e : String) × (error_of first ≡ some e) × (err ≡ message e))
      × ((e' : String) × (error_of retry ≡ some e'))
      × ((o' : Order A) × (lookup o.id m'.orders ≡ some o')
          × (o'.status ≡ failed)
          × (o'.error_message ≡ some err)
          × (o'.retry_count ≡ o.retry_count + 1)
          × (o'.deal_id ≡ deal_after (deal_after o.deal_id first) retry))
      × KeepsOthers m m' o.id
      × (m'.api_calls ≡ (m.api_calls ++ asked o ∷ []) ++ asked o ∷ [])
  Ends m o mi first retry now later (m', client_error e) = ⊥

  -- The order as a failing first response leaves it, in a manager that has sent it once.
  abbrev left : Order A → OrderStatus → Option String → Option String → Option ℕ → Order A
  left o s reference deal time = record o {
    status = s;
    deal_reference = reference;
    deal_id = deal;
    filled_at = time;
  }

  abbrev sent_once : OrderManager A → Order A → OrderManager A
  sent_once m o = record m {
    orders = insert o.id (record o { status = submitted }) (insert o.id o m.orders);
    api_calls = m.api_calls ++ asked o ∷ [];
  }
