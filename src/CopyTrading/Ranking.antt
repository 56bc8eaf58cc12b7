-- ===== src/CopyTrading/Ranking.antt =====
-- src/copy_trading/trader_ranker.py: the scores of traders and the pool that is copied.
-- Floats are numbers of `F`. What a data source gives, none where it raises, is an argument.
pub mod Pool
mod Tests
use ig_trading_bot.Common.{
  ℕ, zero, suc, ◌/◌, String, Bool, true, false, Option, none, some, List, [], ◌∷◌, Arith,
  if◌then◌else◌, Dict, insert, keep, length, leb, ltb, take, sort_by,
}

pub record TraderStats (F : Arith) : Type 0 where
  pub trader_id : String
  pub win_rate : F.Num
  pub max_drawdown : F.Num
  pub sharpe_ratio : F.Num
  pub consistency : F.Num
  pub track_record_days : ℕ

pub record RankedTrader (F : Arith) : Type 0 where
  pub trader : TraderStats F
  pub score : F.Num

pub record TraderRanker (F : Arith) : Type 0 where
  pub min_pool_size : ℕ
  pub current_pool : List (RankedTrader F)

module _ (F : Arith) where
  open F use {Num, dec, add, sub, mul, div, lt, le}

  -- Python's `min` and `max`, which give the first of equal numbers.
  abbrev pub min_of : Num → Num → Num
  min_of a b = if lt b a then b else a

  abbrev pub max_of : Num → Num → Num
  max_of a b = if lt a b then b else a

  abbrev pub weighted : TraderStats F → Num
  weighted t =
      let win_rate_score = mul (min_of (div t.win_rate (dec 10 1)) (dec 10 1)) (dec 100 0) in
      let drawdown_score =
        mul (sub (dec 10 1) (min_of (div t.max_drawdown (dec 10 1)) (dec 10 1))) (dec 100 0) in
      let sharpe_score =
        mul (min_of (div (max_of t.sharpe_ratio (dec 0 1)) (dec 50 1)) (dec 10 1)) (dec 100 0) in
      let consistency_score =
        mul (min_of (div (max_of t.consistency (dec 0 1)) (dec 100 1)) (dec 10 1)) (dec 100 0) in
      let quarter = dec 25 2 in
      add
        (add (add (mul quarter win_rate_score) (mul quarter drawdown_score))
          (mul quarter sharpe_score))
        (mul quarter consistency_score)

  pub calculate_risk_score : TraderStats F → Num
  calculate_risk_score t = max_of (dec 0 1) (min_of (dec 1000 1) (weighted t))

  pub is_eligible : TraderStats F → Bool
  is_eligible t =
      if ltb t.track_record_days 90
      then false
      else if le t.win_rate (dec 55 2)
      then false
      else if le (dec 20 2) t.max_drawdown
      then false
      else true

  abbrev pub ranked_from : List (TraderStats F) → List (RankedTrader F)
  ranked_from [] = []
  ranked_from (t ∷ ts) =
      let rest = ranked_from ts in
      if is_eligible t then record { trader = t; score = calculate_risk_score t } ∷ rest else rest

  abbrev higher : RankedTrader F → RankedTrader F → Bool
  higher r s = lt s.score r.score

  pub rank_traders : List (TraderStats F) → List (RankedTrader F)
  unfolding is_eligible calculate_risk_score
  rank_traders ts = sort_by higher (ranked_from ts)

  -- `scores[i]`, which is in range where it is used.
  abbrev pub score_at : ℕ → List (RankedTrader F) → Num
  score_at i [] = dec 0 1
  score_at zero (r ∷ rs) = r.score
  score_at (suc i) (r ∷ rs) = score_at i rs

  abbrev pub above_median : List (RankedTrader F) → List (RankedTrader F)
  above_median rs = keep (λ (r : RankedTrader F). le (score_at (length rs / 2) rs) r.score) rs

  pub pool_of : ℕ → List (RankedTrader F) → List (RankedTrader F)
  pool_of size rs =
      if leb (length rs) size
      then rs
      else if ltb (length (above_median rs)) size
      then take size rs
      else above_median rs

  pub weekly_reevaluate :
      TraderRanker F → List (TraderStats F) → TraderRanker F × List (RankedTrader F)
  unfolding rank_traders pool_of
  weekly_reevaluate k ts =
      let pool = pool_of k.min_pool_size (rank_traders ts) in
      (record k { current_pool = pool }, pool)

  abbrev note_each : Dict (TraderStats F) → List (TraderStats F) → Dict (TraderStats F)
  note_each d [] = d
  note_each d (t ∷ ts) = note_each (insert t.trader_id t d) ts

  abbrev note_sources :
      Dict (TraderStats F) → List (Option (List (TraderStats F))) → Dict (TraderStats F)
  note_sources d [] = d
  note_sources d (none ∷ sources) = note_sources d sources
  note_sources d (some ts ∷ sources) = note_sources (note_each d ts) sources

  abbrev values : Dict (TraderStats F) → List (TraderStats F)
  values [] = []
  values (p ∷ ps) = p.1 ∷ values ps

  pub fetch_and_rank : List (Option (List (TraderStats F))) → List (RankedTrader F)
  unfolding rank_traders
  fetch_and_rank sources = rank_traders (values (note_sources [] sources))
