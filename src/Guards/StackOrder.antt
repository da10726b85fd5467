-- ===== src/Guards/StackOrder.antt =====
-- src/core/guard_stack.py: the layers together.
use trading_os.Common.{
  ℕ, ◌≡◌, ◌↔◌, Bool, true, false, Option, none, some, [], get_or, if◌then◌else◌, arith,
}
use trading_os.Common.Effects.{Result, ok, err}
use trading_os.Float.{Float, ◌*F◌}
use trading_os.Guards.Budget.{BudgetManager, BudgetReason, entries_allowed, effective}
use trading_os.Guards.Session.{SessionGuard, enabled, session_allows}
use trading_os.Guards.Prop.{PropGuard, PropReason, prop_allows}
use trading_os.Guards.Heat.{heat_check, HeatReason}
use trading_os.Guards.Stack.{Layers, by_budget, by_session, by_prop, by_heat, guard}

module _ {F : Type 0} ⦃fl : Float F⦄ where
  -- What each layer says on its own, of its own state.
  abbrev pub budget_passes : F → Option (BudgetManager F) → Bool
  budget_passes equity none = true
  budget_passes equity (some b) = elim (entries_allowed equity b).0 [
    | ok answer ↦ answer.0
    | err e ↦ false
  ]

  abbrev pub session_passes : F → Option (SessionGuard F) → Bool
  session_passes equity none = true
  session_passes equity (some g) = if enabled g then (session_allows equity g).0 else true

  abbrev pub prop_passes : F → ℕ → Option (PropGuard F) → Bool
  prop_passes equity now none = true
  prop_passes equity now (some g) = (prop_allows equity now g).0.0

  -- the capital that the heat is measured against
  abbrev pub tradable : F → Option (BudgetManager F) → Result (Unit {0}) F
  tradable equity none = ok equity
  tradable equity (some b) = elim (effective equity (entries_allowed equity b).1).0 [
    | ok t ↦ ok t
    | err e ↦ err tt
  ]

  abbrev pub heat_passes : Layers F → F → Result (Unit {0}) F → Bool
  heat_passes ls cap (ok t) =
      (heat_check cap (get_or ls.positions []) t (t *F ls.max_risk_per_trade_pct)).allowed
  heat_passes ls cap (err e) = false

  abbrev pub heat_layer : F → Layers F → Bool
  heat_layer equity ls = elim ls.heat_cap [
    | none ↦ true
    | some cap ↦ heat_passes ls cap (tradable equity ls.budget)
  ]

  -- The guard lets an entry pass exactly when every configured layer does, each asked on its own
  -- state: the budget, the session, the prop rules and, on the capital that the budget leaves, the
  -- heat cap.
  pub guard_lem :
      (equity : F) (now : ℕ) (ls : Layers F)
      → ((guard equity now ls).0 ≡ ok tt) ↔ (
          (budget_passes equity ls.budget ≡ true)
          × (session_passes equity ls.session_guard ≡ true)
          × (prop_passes equity now ls.prop_guard ≡ true)
          × (heat_layer equity ls ≡ true))
  unfolding guard
  guard_lem equity now ls = (λ h. ground arith, λ h. ground arith)

  -- The layers are asked in a fixed order: a refusal by the budget means that the session and prop
  -- guards were not asked and are as they were; one by the session that the budget passed and the
  -- prop guard is as it was; one by the prop rules that budget and session passed; and one by the
  -- heat cap that all others passed.
  pub guard_order :
      (equity : F) (now : ℕ) (ls : Layers F)
      → let (result, ls') = guard equity now ls in
        ((why : BudgetReason F)
          → result ≡ err (by_budget why)
          → (budget_passes equity ls.budget ≡ false)
            × (ls'.session_guard ≡ ls.session_guard)
            × (ls'.prop_guard ≡ ls.prop_guard))
        × (result ≡ err by_session
            → (budget_passes equity ls.budget ≡ true)
              × (session_passes equity ls.session_guard ≡ false)
              × (ls'.prop_guard ≡ ls.prop_guard))
        × ((why : PropReason)
            → result ≡ err (by_prop why)
            → (budget_passes equity ls.budget ≡ true)
              × (session_passes equity ls.session_guard ≡ true)
              × (prop_passes equity now ls.prop_guard ≡ false))
        × ((why : HeatReason F)
            → result ≡ err (by_heat why)
            → (budget_passes equity ls.budget ≡ true)
              × (session_passes equity ls.session_guard ≡ true)
              × (prop_passes equity now ls.prop_guard ≡ true)
              × (heat_layer equity ls ≡ false))
  unfolding guard
  guard_order equity now ls =
      (λ why h. ground arith, λ h. ground arith, λ why h. ground arith, λ why h. ground arith)
