-- ===== src/Risk/Sizing/Tests.antt =====
-- Sizes on concrete inputs, and the theorem applied to one.
use ig_trading_bot.Common.{◌≡◌, refl, String, false, none, some, [], ◌∷◌, fixed, pos}
use ig_trading_bot.Risk.Sizing.{
  ReductionFactor, PositionSizeResult, given, volatile, calculate_size,
}

abbrev drawdown_factor : ReductionFactor String fixed
drawdown_factor = record { source = "drawdown"; factor = pos 2500; reason = given "drawdown" }

abbrev volatility_factor : ReductionFactor String fixed
volatility_factor = record {
  source = "volatility";
  factor = pos 5000;
  reason = volatile (pos 25000);
}

abbrev result : PositionSizeResult String fixed fixed
result = record {
  size = some (pos 83333);
  rejected = false;
  rejection_reason = none;
  applied_reductions = volatility_factor ∷ drawdown_factor ∷ [];
}

-- 1% of 10000 at a volatility of 1 and a multiplier of 1.5, halved and quartered.
calculate_size-reduced :
    calculate_size String fixed fixed
      (λ x. x)
      (λ x. x)
      (pos 100000000)
      (pos 100)
      (pos 10000)
      (pos 15000)
      (pos 25000)
      (drawdown_factor ∷ [])
      (pos 100)
    ≡ some result
unfolding calculate_size
calculate_size-reduced = refl
