-- ===== src/CopyTrading/Ranking/Pool.antt =====
-- Who is in the pool after a weekly re-evaluation, and how many.
use ig_trading_bot.Common.{
  ℕ, ◌≤◌, ◌≡◌, refl, true, List, [], ◌∷◌, Arith, IsOrdered, arith, length, leb, ltb, length-take,
  take-All, keep-All, sort_by-All, length-sort_by, All, Bool-cases, inl, inr, min,
}
use ig_trading_bot.CopyTrading.Ranking.{
  TraderStats, RankedTrader, TraderRanker, min_of, weighted, calculate_risk_score, is_eligible,
  ranked_from, rank_traders, above_median, pool_of, weekly_reevaluate,
}

module _ (F : Arith) where
  open F use {Num, dec, lt, le}

  -- A trader that may be copied, with its score, which is from 0 to 100.
  pub record IsRanked (r : RankedTrader F) : Type 0 where
    pub eligible : is_eligible F r.trader ≡ true
    pub scored : r.score ≡ calculate_risk_score F r.trader
    pub not_under : le (dec 0 1) r.score ≡ true
    pub not_over : le r.score (dec 1000 1) ≡ true

  score_in_range :
      (o : IsOrdered F) (t : TraderStats F)
      → le (dec 0 1) (dec 1000 1) ≡ true
      → (le (dec 0 1) (calculate_risk_score F t) ≡ true)
        × (le (calculate_risk_score F t) (dec 1000 1) ≡ true)
  unfolding calculate_risk_score
  score_in_range o t proper =
      let zero_score = dec 0 1 in
      let top = dec 1000 1 in
      let s = weighted F t in
      let capped = min_of F top s in
      let under : le capped top ≡ true =
        ground (arith, o.le_refl top, o.lt_not_le s top, o.le_total top s) in
      (
        ground (
          arith,
          o.le_refl zero_score,
          o.lt_not_le zero_score capped,
          o.le_total capped zero_score,
        ),
        ground (arith, under, proper),
      )

  ranked_from-IsRanked :
      (o : IsOrdered F) (ts : List (TraderStats F))
      → le (dec 0 1) (dec 1000 1) ≡ true
      → All IsRanked (ranked_from F ts)
  ranked_from-IsRanked o [] proper = tt
  ranked_from-IsRanked o (t ∷ ts) proper = elim (Bool-cases (is_eligible F t)) [
    | inl fit ↦ rw fit (
      record {
        eligible = fit;
        scored = refl;
        not_under = (score_in_range o t proper).0;
        not_over = (score_in_range o t proper).1;
      },
      ranked_from-IsRanked o ts proper,
    )
    | inr unfit ↦ rw unfit (ranked_from-IsRanked o ts proper)
  ]

  pool_of-All :
      (P : RankedTrader F → Type 0) (size : ℕ) (rs : List (RankedTrader F))
      → All P rs
      → All P (pool_of F size rs)
  unfolding pool_of
  pool_of-All P size rs a = elim (Bool-cases (leb (length rs) size)) [
    | inl few ↦ rw few a
    | inr many ↦ elim (Bool-cases (ltb (length (above_median F rs)) size)) [
      | inl short ↦ rw (many, short) (take-All P size rs a)
      | inr enough ↦ rw (many, enough) (keep-All P _ rs a)
    ]
  ]

  pool_of-length :
      (size : ℕ) (rs : List (RankedTrader F)) → min size (length rs) ≤ length (pool_of F size rs)
  unfolding pool_of
  pool_of-length size rs = elim (Bool-cases (leb (length rs) size)) [
    | inl few ↦ rw few (omega arith)
    | inr many ↦ elim (Bool-cases (ltb (length (above_median F rs)) size)) [
      | inl short ↦ rw (many, short) (ground (arith, many, length-take size rs))
      | inr enough ↦ rw (many, enough) (ground (arith, enough))
    ]
  ]

  length-rank_traders :
      (ts : List (TraderStats F)) → length (rank_traders F ts) ≡ length (ranked_from F ts)
  unfolding rank_traders
  length-rank_traders ts = length-sort_by _ (ranked_from F ts)

  rank_traders-IsRanked :
      (o : IsOrdered F) (ts : List (TraderStats F))
      → le (dec 0 1) (dec 1000 1) ≡ true
      → All IsRanked (rank_traders F ts)
  unfolding rank_traders
  rank_traders-IsRanked o ts proper =
      sort_by-All _ IsRanked (ranked_from F ts) (ranked_from-IsRanked o ts proper)

  -- After a weekly re-evaluation, every trader in the pool is eligible and has its score, which is
  -- from 0 to 100; the pool is as large as its minimum, or as the number of eligible traders where
  -- that is smaller; and it is the pool that the ranker keeps. The order is total, with 0 under 100.
  pub weekly_reevaluate-IsRanked :
      (o : IsOrdered F) (k : TraderRanker F) (ts : List (TraderStats F))
      → le (dec 0 1) (dec 1000 1) ≡ true
      → let (k', pool) = weekly_reevaluate F k ts in
        All IsRanked pool
        × (min k.min_pool_size (length (ranked_from F ts)) ≤ length pool)
        × (k'.current_pool ≡ pool)
  unfolding weekly_reevaluate
  weekly_reevaluate-IsRanked o k ts proper = (
    pool_of-All IsRanked k.min_pool_size (rank_traders F ts) (rank_traders-IsRanked o ts proper),
    rw (← length-rank_traders ts) (pool_of-length k.min_pool_size (rank_traders F ts)),
    refl,
  )
