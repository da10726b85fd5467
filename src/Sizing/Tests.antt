-- ===== src/Sizing/Tests.antt =====
-- Runs of the position sizer and the margin checks, and the theorems at them.
use trading_os.Common.{
  ℕ, ◌/◌, pos, negsuc, Option, ◌||◌, ◌≡◌, refl, true, false, none, some, [], ◌∷◌,
}
use trading_os.Common.Effects.{ok}
use trading_os.Float.{fmin, fmax, ◌<F◌, ◌<=F◌, ◌==F◌, nought}
use trading_os.Float.Fixed.{Fixed, fixed_float, Fixed-Ieee, whole, nano}
use trading_os.Sizing.Sizer.{
  RiskLimits, SizeRequest, SizeResult, size_ok, calculate_position_size, finite_inputs, bad_request,
  risk_per_unit, kelly_fraction, floor_lots,
}
use trading_os.Sizing.Margin.{margin_ok, MarginDecision, IndiaApi, Mt5Api, check_mt5, check_india}
use trading_os.Sizing.MarginClosed.{
  EnoughFree, EnoughMargin, LotsFit, check_mt5_closed, check_india_closed,
}
use trading_os.Sizing.Caps.{WithinCaps, sized-WithinCaps, sized_needs}

abbrev limits : RiskLimits Fixed
limits = record {
  max_risk_per_trade_pct = nano 10000000;
  kelly_cap = nano 500000000;
  max_position_pct = nano 200000000;
  max_var_daily = nano 20000000;
  gap_assumption_atr = whole 2;
  max_daily_loss_pct = nano 30000000;
}

-- 1000 a trade at a risk of 4, so 250, of which the cap of 20% at 100 leaves 200, and half the VaR 100
abbrev request : SizeRequest Fixed
request = record {
  entry = whole 100;
  stop = whole 96;
  atr = whole 2;
  balance = whole 100000;
  current_var = nano 10000000;
  lot_size = whole 3;
  p_win = none;
  payoff_ratio = none;
  expected_profit_per_unit = some (whole 5);
  cost_fn = some (λ qty. some (whole 100));
}

abbrev sized : SizeResult Fixed
sized = record {
  qty = whole 99;
  notional = whole 9900;
  reason = size_ok;
  factors =
      ("risk_per_unit", whole 4)
      ∷ ("base_qty", whole 250)
      ∷ ("cap_qty", whole 200)
      ∷ ("var_headroom", nano 500000000)
      ∷ ("gap_qty", whole 375)
      ∷ ("total_cost", whole 100)
      ∷ [];
}

size_runs : calculate_position_size limits request ≡ ok sized
unfolding calculate_position_size floor_lots kelly_fraction fmin fmax ◌<F◌ ◌<=F◌ ◌==F◌
size_runs = refl

sized-WithinCaps_example : WithinCaps limits request sized
sized-WithinCaps_example = sized-WithinCaps limits request refl refl sized size_runs refl

sized_needs_test :
    (finite_inputs request ≡ true)
    × (bad_request request ≡ false)
    × ((risk_per_unit request <=F nought) ≡ false)
sized_needs_test = sized_needs limits request sized size_runs refl

abbrev mt5 : Option (Mt5Api Fixed)
mt5 = some (record {
  free_margin = some (whole 900);
  equity = some (whole 1000);
  margin_required = some (whole 100);
})

check_mt5_closed_example : ((whole 1 <=F nought) ≡ false) × EnoughFree (nano 500000000) mt5
unfolding check_mt5 ◌<=F◌
check_mt5_closed_example = check_mt5_closed (nano 500000000) mt5 (whole 1) refl

abbrev india : Option (IndiaApi Fixed)
india = some (record { available_margin = some (whole 600); required_margin = some (whole 500) })

abbrev int_of_fixed : Fixed → Option ℕ
int_of_fixed none = none
int_of_fixed (some (pos n)) = some (n / 1000000000)
int_of_fixed (some (negsuc n)) = some 0

abbrev india_passes : MarginDecision Fixed
india_passes = record {
  passed = true;
  reason = margin_ok;
  required = some (whole 550);
  available = some (whole 600);
}

-- 50.7 shares pass as two lots of 25.
fraction_passes :
    check_india int_of_fixed (nano 100000000) india (nano 50700000000) (whole 100) 25
    ≡ ok (record {
      passed = true;
      reason = margin_ok;
      required = some (whole 550);
      available = some (whole 600);
    })
unfolding check_india ◌<=F◌
fraction_passes = refl

check_india_closed_example :
    (((whole 50 <=F nought) || (whole 100 <=F nought)) ≡ false)
    × LotsFit (int_of_fixed (whole 50)) 25
    × EnoughMargin (nano 100000000) india
unfolding check_india ◌<=F◌
check_india_closed_example =
    check_india_closed int_of_fixed (nano 100000000) india (whole 50) (whole 100) 25 india_passes
      refl refl
