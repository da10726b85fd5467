-- ===== src/Guards/Tests.antt =====
-- Runs of the guard layers, and the theorems at them.
use trading_os.Common.{ℕ, ◌+◌, ◌≤◌, ◌≡◌, ◌↔◌, refl, true, false, ◌&&◌, none, some, [], ◌∷◌}
use trading_os.Common.Effects.{ok, err}
use trading_os.Orders.Record.{buy}
use trading_os.Float.{◌+F◌, ◌-F◌, ◌*F◌, ◌<F◌, ◌<=F◌, ◌≤F◌, fmin, fmax, nought, Less}
use trading_os.Float.Fixed.{Fixed, fixed_float, Fixed-Ieee, whole, nano, nan}
use trading_os.Guards.Budget.{
  BudgetManager, budget_ok, BudgetReason, attach, external_flow, trading_pnl, effective,
  entries_allowed,
}
use trading_os.Guards.BudgetFence.{
  anchor, effective_within, entries_allowed_floor, external_flow_moves_baseline,
}
use trading_os.Guards.Session.{
  untripped, profit_banked, SessionGuardState, SessionGuard, start_session, day_pnl, session_allows,
  session_marks,
}
use trading_os.Guards.SessionLatch.{session_latch, session_allows_lem, days_ended, counted_once}
use trading_os.Guards.Prop.{
  PropGuard, unbreached, daily_loss_breached, prop_ok, prop_breached, PropReason, marked,
  daily_budget, daily_used, total_budget, total_used, prop_allows, prop_day, on_equity,
}
use trading_os.Guards.PropLimits.{marks, breach_is_final, prop_allows_lem, nan_equity_allowed}
use trading_os.Guards.Heat.{
  HeatPosition, HeatReason, heat_check, heat_with, heat_of, add_heat, position_heat,
}
use trading_os.Guards.HeatLimits.{heat_check_lem, PastBreakeven, position_heat_lem}
use trading_os.Guards.Stack.{Layers, by_budget, by_session, by_prop, by_heat, guard}
use trading_os.Guards.StackOrder.{
  budget_passes, session_passes, prop_passes, heat_layer, guard_lem, guard_order,
}

abbrev fence : BudgetManager Fixed
fence = record {
  initial = whole 100;
  min_floor_pct = nano 500000000;
  baseline_equity = some (whole 1000);
}

effective_runs : (effective (whole 970) fence).0 ≡ ok (whole 70)
unfolding effective trading_pnl attach fmin fmax ◌<F◌ ◌<=F◌
effective_runs = refl

effective_within_test :
    (eff : Fixed) × ((effective (whole 970) fence).0 ≡ ok eff)
    × (nought ≤F eff)
    × (Less nought (whole 970) → eff ≤F whole 970)
    × ((whole 970 <=F nought) ≡ true → eff ≡ nought)
effective_within_test = effective_within (whole 970) fence

entries_allowed_floor_example :
    (eff : Fixed) × ((effective (whole 970) fence).0 ≡ ok eff)
    × Less nought eff
    × ((eff <F (fence.initial *F fence.min_floor_pct)) ≡ false)
    × ((entries_allowed (whole 970) fence).1.baseline_equity ≡ some (anchor (whole 970) fence))
unfolding entries_allowed effective trading_pnl attach fmin fmax ◌<F◌ ◌<=F◌
entries_allowed_floor_example = entries_allowed_floor (whole 970) fence budget_ok refl

external_flow_moves_baseline_test :
    let (result, m') = external_flow (whole 50) fence in
    (result ≡ ok tt)
    × (m'.initial ≡ whole 100)
    × ((trading_pnl (whole 1040) m').0 ≡ ok (whole 1040 -F (whole 1000 +F whole 50)))
    × ((trading_pnl (whole 1040) fence).0 ≡ ok (whole 1040 -F whole 1000))
    × ((effective (whole 1040) m').1 ≡ m')
external_flow_moves_baseline_test =
    external_flow_moves_baseline (whole 50) (whole 1040) (whole 1000) fence refl

abbrev session : SessionGuard Fixed
session = record {
  profit_bank_pct = nano 20000000;
  loss_stop_pct = nano 10000000;
  state = some (record {
    day_start_equity = whole 100;
    tripped = untripped;
    days_banked = 3;
    days_loss_stopped = 1;
  });
}

abbrev banked : SessionGuard Fixed
banked = record session {
  state = some (record {
    day_start_equity = whole 100;
    tripped = profit_banked;
    days_banked = 4;
    days_loss_stopped = 1;
  });
}

session_banks : session_allows (whole 103) session ≡ (false, banked)
unfolding session_allows ◌<F◌ ◌<=F◌
session_banks = refl

session_latch_example :
    session_allows (whole 101) (session_marks (whole 99 ∷ whole 98 ∷ []) banked) ≡ (false, banked)
unfolding ◌<F◌
session_latch_example =
    session_latch (whole 99 ∷ whole 98 ∷ []) (whole 101) banked (refl, (_, refl, refl))

session_allows_lem_test :
    (s : SessionGuardState Fixed) × (session.state ≡ some s)
    × ((s.day_start_equity <=F nought) ≡ false)
    × (s.tripped ≡ untripped)
    × (((nought <F session.profit_bank_pct) && (session.profit_bank_pct <=F day_pnl (whole 101) s))
        ≡ false)
    × (((nought <F session.loss_stop_pct)
          && (day_pnl (whole 101) s <=F fixed_float.neg session.loss_stop_pct))
        ≡ false)
    × ((session_allows (whole 101) session).1 ≡ session)
unfolding session_allows ◌<F◌ ◌<=F◌
session_allows_lem_test = session_allows_lem (whole 101) session refl refl

counted_once_test :
    days_ended (session_marks (whole 90 ∷ whole 120 ∷ []) (start_session (whole 100) session))
    ≤ 4 + 1
counted_once_test = counted_once (whole 90 ∷ whole 120 ∷ []) (whole 100) session

abbrev exam : PropGuard Fixed
exam = record {
  rules = record {
    initial_balance = whole 10000;
    max_daily_loss_pct = nano 50000000;
    max_total_dd_pct = nano 100000000;
    trailing_dd = false;
    profit_target_pct = nano 100000000;
    min_trading_days = 4;
    soft_fraction = nano 600000000;
    day_reset_utc_hour = 21;
  };
  state = record {
    day_key = some 20000;
    day_start_equity = whole 10000;
    high_water = whole 10000;
    traded_days = [];
    breached = unbreached;
  };
}

-- noon of the day with the number 20000
abbrev noon : ℕ
noon = 1728000000

prop_runs :
    ((prop_allows (whole 9800) noon exam).0 ≡ (true, prop_ok))
    × ((prop_allows (whole 9400) noon exam).0 ≡ (false, prop_breached daily_loss_breached))
unfolding prop_allows on_equity prop_day fmax ◌<F◌ ◌<=F◌
prop_runs = (refl, refl)

breach_is_final_example :
    (prop_allows (whole 10000) noon (
      marks ((whole 9999, noon) ∷ []) (record exam {
        state = record {
          day_key = some 20000;
          day_start_equity = whole 10000;
          high_water = whole 10000;
          traded_days = [];
          breached = daily_loss_breached;
        };
      }))).0
    ≡ (false, prop_breached daily_loss_breached)
breach_is_final_example =
    breach_is_final ((whole 9999, noon) ∷ []) (whole 10000) noon
      (record exam {
        state = record {
          day_key = some 20000;
          day_start_equity = whole 10000;
          high_water = whole 10000;
          traded_days = [];
          breached = daily_loss_breached;
        };
      })
      refl

prop_allows_lem_test :
    let s = marked exam.rules (whole 9800) noon exam.state in
    ((prop_allows (whole 9800) noon exam).0.0 ≡ true) ↔ (
      (exam.state.breached ≡ unbreached)
      × ((daily_budget exam.rules s <=F daily_used (whole 9800) s) ≡ false)
      × ((total_budget exam.rules s <=F total_used exam.rules (whole 9800) s) ≡ false)
      × (((exam.rules.soft_fraction *F daily_budget exam.rules s) <=F daily_used (whole 9800) s)
          ≡ false)
      × (((exam.rules.soft_fraction *F total_budget exam.rules s)
            <=F total_used exam.rules (whole 9800) s)
          ≡ false))
prop_allows_lem_test = prop_allows_lem (whole 9800) noon exam

nan_equity_allowed_example : (prop_allows nan noon exam).0 ≡ (true, prop_ok)
unfolding prop_day ◌<=F◌
nan_equity_allowed_example = nan_equity_allowed nan noon exam refl refl refl refl refl refl refl

abbrev long : HeatPosition Fixed
long = record {
  direction = buy;
  entry = whole 100;
  stop = whole 95;
  remaining_qty = whole 10;
  exited = false;
}

heat_check_lem_test :
    ((heat_check (nano 60000000) (long ∷ []) (whole 10000) (whole 100)).allowed ≡ true) ↔ (
      ((whole 10000 <=F nought) ≡ false)
      × (fixed_float.is_finite (whole 10000) ≡ true)
      × ((whole 100 <F nought) ≡ false)
      × (fixed_float.is_finite (whole 100) ≡ true)
      × (((nano 60000000 +F fixed_float.lit 1 12)
            <F heat_with (long ∷ []) (whole 10000) (whole 100))
          ≡ false))
heat_check_lem_test = heat_check_lem (nano 60000000) (long ∷ []) (whole 10000) (whole 100)

heat_runs : heat_of (long ∷ []) (whole 10000) ≡ nano 5000000
unfolding heat_of add_heat position_heat fmax ◌<F◌ ◌<=F◌
heat_runs = refl

position_heat_lem_test :
    (nought ≤F position_heat buy (whole 100) (whole 101) (whole 10))
    × (PastBreakeven buy (whole 100) (whole 101)
        → position_heat buy (whole 100) (whole 101) (whole 10) ≡ nought)
position_heat_lem_test = position_heat_lem buy (whole 100) (whole 101) (whole 10) refl refl refl

abbrev layers : Layers Fixed
layers = record {
  budget = some fence;
  session_guard = some banked;
  prop_guard = some exam;
  heat_cap = some (nano 60000000);
  positions = none;
  max_risk_per_trade_pct = nano 10000000;
}

guard_refuses : (guard (whole 970) noon layers).0 ≡ err by_session
unfolding guard entries_allowed effective trading_pnl attach session_allows fmin fmax ◌<F◌ ◌<=F◌
guard_refuses = refl

guard_lem_example : ((guard (whole 970) noon layers).0 ≡ ok tt) ↔ (
    (budget_passes (whole 970) layers.budget ≡ true)
    × (session_passes (whole 970) layers.session_guard ≡ true)
    × (prop_passes (whole 970) noon layers.prop_guard ≡ true)
    × (heat_layer (whole 970) layers ≡ true))
guard_lem_example = guard_lem (whole 970) noon layers

guard_order_test :
    let (result, ls') = guard (whole 970) noon layers in
    ((why : BudgetReason Fixed)
      → result ≡ err (by_budget why)
      → (budget_passes (whole 970) layers.budget ≡ false)
        × (ls'.session_guard ≡ layers.session_guard)
        × (ls'.prop_guard ≡ layers.prop_guard))
    × (result ≡ err by_session
        → (budget_passes (whole 970) layers.budget ≡ true)
          × (session_passes (whole 970) layers.session_guard ≡ false)
          × (ls'.prop_guard ≡ layers.prop_guard))
    × ((why : PropReason)
        → result ≡ err (by_prop why)
        → (budget_passes (whole 970) layers.budget ≡ true)
          × (session_passes (whole 970) layers.session_guard ≡ true)
          × (prop_passes (whole 970) noon layers.prop_guard ≡ false))
    × ((why : HeatReason Fixed)
        → result ≡ err (by_heat why)
        → (budget_passes (whole 970) layers.budget ≡ true)
          × (session_passes (whole 970) layers.session_guard ≡ true)
          × (prop_passes (whole 970) noon layers.prop_guard ≡ true)
          × (heat_layer (whole 970) layers ≡ false))
guard_order_test = guard_order (whole 970) noon layers
