-- ===== src/Guards/Budget.antt =====
-- src/core/budget_manager.py: `BudgetManager`, the ring-fenced trading capital.
use trading_os.Common.{Bool, true, false, not, ◌&&◌, Option, none, some, if◌then◌else◌}
use trading_os.Common.Effects.{Result, ok, err, Method, pure, gets, ◌>>=◌, ◌>>◌}
use trading_os.Float.{Float, ◌+F◌, ◌-F◌, ◌*F◌, ◌<F◌, ◌<=F◌, fmin, fmax, nought, one}

pub record BudgetManager (F : Type 0) : Type 0 where
  pub initial : F
  pub min_floor_pct : F
  pub baseline_equity : Option F

pub data BudgetError : Type 0 where
  budget_not_positive floor_out_of_range equity_not_positive not_attached : BudgetError

pub data BudgetReason (F : Type 0) : Type 0 where
  budget_ok budget_exhausted : BudgetReason F
  budget_floor : F → F → BudgetReason F

abbrev pub BudgetMethod : Type 0 → Type 0 → Type 0
BudgetMethod F A = Method (BudgetManager F) BudgetError A

pub record BudgetSnapshot (F : Type 0) : Type 0 where
  pub allocated : F
  pub effective_budget : F
  pub pnl : F
  pub floor : F
  pub allowed : Bool
  pub reason : BudgetReason F

module _ {F : Type 0} ⦃fl : Float F⦄ where
  open fl use {round_to}

  -- `__init__`
  unfoldable pub new_budget : F → F → Result BudgetError (BudgetManager F)
  new_budget initial_budget min_floor_pct =
      if initial_budget <=F nought
      then err budget_not_positive
      else if not ((nought <=F min_floor_pct) && (min_floor_pct <F one))
      then err floor_out_of_range
      else ok (record {
        initial = initial_budget;
        min_floor_pct = min_floor_pct;
        baseline_equity = none;
      })

  unfoldable pub attach : F → BudgetMethod F (Unit {0})
  attach account_equity m =
      if account_equity <=F nought
      then (err equity_not_positive, m)
      else (ok tt, record m { baseline_equity = some account_equity })

  unfoldable pub external_flow : F → BudgetMethod F (Unit {0})
  external_flow amount m = elim m.baseline_equity [
    | none ↦ (err not_attached, m)
    | some baseline ↦ (ok tt, record m { baseline_equity = some (baseline +F amount) })
  ]

  unfoldable pub add_budget : F → BudgetMethod F (Unit {0})
  add_budget amount m =
      if (m.initial +F amount) <=F nought
      then (err budget_not_positive, m)
      else (ok tt, record m { initial = m.initial +F amount })

  abbrev pub attach_if_needed : F → Option F → BudgetMethod F F
  attach_if_needed account_equity none = do attach account_equity; pure account_equity
  attach_if_needed account_equity (some baseline) = pure baseline

  unfoldable pub trading_pnl : F → BudgetMethod F F
  unfolding attach
  trading_pnl account_equity = do
    known ← gets (λ m. m.baseline_equity)
    baseline ← attach_if_needed account_equity known
    pure (account_equity -F baseline)

  unfoldable pub effective : F → BudgetMethod F F
  unfolding trading_pnl
  effective account_equity m =
      if account_equity <=F nought
      then (ok nought, m)
      else (trading_pnl account_equity >>= λ pnl.
            pure (fmax nought (fmin (m.initial +F pnl) account_equity)))
          m

  -- the tests of `entries_allowed`
  abbrev pub verdict : F → F → Bool × BudgetReason F
  verdict eff floor =
      if eff <=F nought
      then (false, budget_exhausted)
      else if eff <F floor
      then (false, budget_floor eff floor)
      else (true, budget_ok)

  unfoldable pub entries_allowed : F → BudgetMethod F (Bool × BudgetReason F)
  entries_allowed account_equity = do
    eff ← effective account_equity
    floor ← gets (λ m. m.initial *F m.min_floor_pct)
    pure (verdict eff floor)

  unfoldable pub snapshot : F → BudgetMethod F (BudgetSnapshot F)
  snapshot account_equity = do
    answer ← entries_allowed account_equity
    eff ← effective account_equity
    pnl ← trading_pnl account_equity
    initial ← gets (λ m. m.initial)
    floor ← gets (λ m. m.initial *F m.min_floor_pct)
    pure (record {
      allocated = round_to 2 initial;
      effective_budget = round_to 2 eff;
      pnl = round_to 2 pnl;
      floor = round_to 2 floor;
      allowed = answer.0;
      reason = answer.1;
    })
