-- ===== src/Risk/Sentiment/Tightening.antt =====
-- What the handler does with the stops of positions.
use ig_trading_bot.Common.{
  ◌≡◌, String, Bool, true, false, List, [], ◌∷◌, Arith, equal, if◌then◌else◌, All,
}
use ig_trading_bot.Risk.Stops.{Direction, long, short}
use ig_trading_bot.Risk.Sentiment.{StopTightenResult, SentimentStopHandler, Handled}

module _ (A F : Arith) (upper : String → String) where
  open A use {Num, lt, le}

  -- The second stop of a position in this direction is the farther one.
  abbrev pub is_looser : Direction → Num → Num → Bool
  is_looser long old new = lt new old
  is_looser short old new = lt old new

  -- The news is bad for a long position under minus the threshold, for a short one over it.
  abbrev pub IsAgainst : SentimentStopHandler F → Direction → F.Num → Type 0
  IsAgainst h long score = F.lt score (F.neg h.sentiment_threshold) ≡ true
  IsAgainst h short score = F.lt h.sentiment_threshold score ≡ true

  -- What a result says of its position's stop.
  pub record IsTightened (h : SentimentStopHandler F) (score : F.Num) (r : StopTightenResult A F)
      : Type 0 where
    pub not_loosened : is_looser r.direction r.original_stop r.new_stop ≡ false
    pub against : r.tightened ≡ true → IsAgainst h r.direction score
    pub unmoved : r.tightened ≡ false → equal A r.new_stop r.original_stop ≡ true

  abbrev pub updates_of :
      SentimentStopHandler F → List (StopTightenResult A F) → List (String × Num)
  updates_of h [] = []
  updates_of h (r ∷ rs) =
      let rest = updates_of h rs in
      if r.tightened
      then (if h.has_callback then (r.position_id, r.new_stop) ∷ rest else rest)
      else rest

  pub record IsHandled (h : SentimentStopHandler F) (score : F.Num) (out : Handled A F upper)
      : Type 0 where
    pub results : All (IsTightened h score) out.0
    pub updates : out.1 ≡ updates_of h out.0
