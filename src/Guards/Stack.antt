-- ===== src/Guards/Stack.antt =====
-- src/core/guard_stack.py: `make_portfolio_guard`. The layers that are not configured are none; equity,
-- time and positions are arguments.
use trading_os.Common.{ℕ, Bool, Option, none, some, List, [], get_or, if◌then◌else◌}
use trading_os.Common.Effects.{Result, ok, err, Method, ◌>>◌}
use trading_os.Float.{Float, ◌*F◌}
use trading_os.Guards.Budget.{BudgetManager, BudgetReason, BudgetError, entries_allowed, effective}
use trading_os.Guards.Session.{SessionGuard, enabled, session_allows}
use trading_os.Guards.Prop.{PropGuard, PropReason, prop_allows}
use trading_os.Guards.Heat.{HeatPosition, HeatReason, HeatCheck, heat_check}

pub record Layers (F : Type 0) : Type 0 where
  pub budget : Option (BudgetManager F)
  pub session_guard : Option (SessionGuard F)
  pub prop_guard : Option (PropGuard F)
  pub heat_cap : Option F
  pub positions : Option (List (HeatPosition F))  -- what `positions_fn` returns
  pub max_risk_per_trade_pct : F

-- The reason of a refusal, with the layer that it comes from, or an exception of the budget.
pub data Refusal (F : Type 0) : Type 0 where
  by_budget : BudgetReason F → Refusal F
  by_session : Refusal F
  by_prop : PropReason → Refusal F
  by_heat : HeatReason F → Refusal F
  raised : BudgetError → Refusal F

abbrev pub Gate : Type 0 → Type 0
Gate F = Method (Layers F) (Refusal F) (Unit {0})

module _ {F : Type 0} ⦃fl : Float F⦄ where
  abbrev pub weigh_budget :
      Result BudgetError (Bool × BudgetReason F) → Result (Refusal F) (Unit {0})
  weigh_budget (ok (allowed, why)) = if allowed then ok tt else err (by_budget why)
  weigh_budget (err e) = err (raised e)

  abbrev pub budget_gate : F → Gate F
  budget_gate equity ls = elim ls.budget [
    | none ↦ (ok tt, ls)
    | some b ↦
        let (r, b') = entries_allowed equity b in (weigh_budget r, record ls { budget = some b' })
  ]

  abbrev pub session_gate : F → Gate F
  session_gate equity ls = elim ls.session_guard [
    | none ↦ (ok tt, ls)
    | some g ↦
        if enabled g
        then (let (allowed, g') = session_allows equity g in
            (if allowed then ok tt else err by_session, record ls { session_guard = some g' }))
        else (ok tt, ls)
  ]

  abbrev pub prop_gate : F → ℕ → Gate F
  prop_gate equity now ls = elim ls.prop_guard [
    | none ↦ (ok tt, ls)
    | some g ↦
        let (answer, g') = prop_allows equity now g in
        (if answer.0 then ok tt else err (by_prop answer.1), record ls { prop_guard = some g' })
  ]

  abbrev pub weigh_heat : HeatCheck F → Result (Refusal F) (Unit {0})
  weigh_heat hc = if hc.allowed then ok tt else err (by_heat hc.reason)

  abbrev pub check_at : F → Layers F → F → Result (Refusal F) (Unit {0})
  check_at cap ls tradable =
      weigh_heat
        (heat_check cap (get_or ls.positions []) tradable (tradable *F ls.max_risk_per_trade_pct))

  abbrev pub check_effective : F → Layers F → Result BudgetError F → Result (Refusal F) (Unit {0})
  check_effective cap ls (ok tradable) = check_at cap ls tradable
  check_effective cap ls (err e) = err (raised e)

  abbrev pub heat_gate : F → Gate F
  heat_gate equity ls = elim ls.heat_cap [
    | none ↦ (ok tt, ls)
    | some cap ↦ elim ls.budget [
      | none ↦ (check_at cap ls equity, ls)
      | some b ↦
          let (r, b') = effective equity b in
          (check_effective cap ls r, record ls { budget = some b' })
    ]
  ]

  -- The returned `guard`: it returns where `(True, "ok")` is returned.
  unfoldable pub guard : F → ℕ → Gate F
  guard equity now = do
    budget_gate equity
    session_gate equity
    prop_gate equity now
    heat_gate equity
