-- ===== src/CopyTrading/Ranking/Tests.antt =====
-- A pool of concrete traders, and the theorem applied to it.
use ig_trading_bot.Common.{
  ◌≡◌, ◌≤◌, refl, ℕ, String, List, [], ◌∷◌, All, none, some, length, min, fixed, fixed-IsOrdered,
  pos, place_by, sort_by, insert,
}
use ig_trading_bot.CopyTrading.Ranking.{
  TraderStats, RankedTrader, TraderRanker, calculate_risk_score, is_eligible, ranked_from,
  rank_traders, fetch_and_rank, weekly_reevaluate,
}
use ig_trading_bot.CopyTrading.Ranking.Pool.{IsRanked, weekly_reevaluate-IsRanked}

abbrev trader : String → ℕ → ℕ → TraderStats fixed
trader id win_rate days = record {
  trader_id = id;
  win_rate = pos win_rate;
  max_drawdown = pos 1000;
  sharpe_ratio = pos 10000;
  consistency = pos 20000;
  track_record_days = days;
}

abbrev traders : List (TraderStats fixed)
traders = trader "ann" 6000 100 ∷ trader "bob" 5500 100 ∷ trader "cyd" 7000 90 ∷ []

abbrev names : List (RankedTrader fixed) → List String
names [] = []
names (r ∷ rs) = r.trader.trader_id ∷ names rs

-- A win rate of 55% is not enough, and one source has failed.
fetch_and_rank-names :
    names (fetch_and_rank fixed (some traders ∷ none ∷ some (trader "ann" 8000 95 ∷ []) ∷ []))
    ≡ "ann" ∷ "cyd" ∷ []
unfolding fetch_and_rank rank_traders calculate_risk_score is_eligible sort_by place_by insert
fetch_and_rank-names = refl

weekly_reevaluate-IsRanked_example :
    let k : TraderRanker fixed = record { min_pool_size = 1; current_pool = [] } in
    let (k', pool) = weekly_reevaluate fixed k traders in
    All (IsRanked fixed) pool
    × (min 1 (length (ranked_from fixed traders)) ≤ length pool)
    × (k'.current_pool ≡ pool)
weekly_reevaluate-IsRanked_example =
    weekly_reevaluate-IsRanked fixed fixed-IsOrdered
      (record { min_pool_size = 1; current_pool = [] }) traders refl
