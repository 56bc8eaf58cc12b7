-- ===== src/Risk/Sentiment/Tests.antt =====
-- Bad news for concrete positions, and the theorem applied to it.
use ig_trading_bot.Common.{◌≡◌, refl, String, true, none, some, [], ◌∷◌, fixed, pos, negsuc}
use ig_trading_bot.Risk.Stops.{tighten_stop_on_news}
use ig_trading_bot.Risk.Sentiment.{
  PositionData, SentimentStopHandler, Providers, handle_high_impact_news, process_each,
  process_instrument, evaluate_each, evaluate_position, evaluate_directed, is_opposing_sentiment,
}

abbrev handler : SentimentStopHandler fixed
handler = record { has_callback = true; sentiment_threshold = pos 8000 }

abbrev position : String → String → PositionData fixed
position id direction = record {
  position_id = some id;
  instrument = some "gold";
  direction = some direction;
  current_stop = some (pos 900000);
  entry_price = some (pos 1000000);
  initial_stop = none;
  atr_at_entry = none;
}

abbrev providers : Providers fixed
providers = record {
  open_positions = λ i. position "p1" "LONG" ∷ position "p2" "SHORT" ∷ [];
  current_price = λ i. some (pos 1000000);
  current_atr = λ i. some (pos 20000);
}

-- The stop of the buy is raised to half an ATR under the price.
handle_high_impact_news-updates :
    (handle_high_impact_news fixed fixed
      (λ s. s)
      handler
      providers
      (some (negsuc 8999))
      ("gold" ∷ [])).1
    ≡ ("p1", pos 990000) ∷ []
unfolding handle_high_impact_news process_each process_instrument evaluate_each evaluate_position
    evaluate_directed is_opposing_sentiment tighten_stop_on_news
handle_high_impact_news-updates = refl
