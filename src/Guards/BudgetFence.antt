-- ===== src/Guards/BudgetFence.antt =====
-- src/core/budget_manager.py: the fence around the capital holds.
use trading_os.Common.{
  ◌≡◌, refl, ap, sym, ◌∙◌, true, false, none, some, arith, inl, inr, Bool-cases,
}
use trading_os.Common.Effects.{Result, ok, bind_ok}
use trading_os.Float.{Float, ◌+F◌, ◌-F◌, ◌*F◌, ◌<F◌, ◌<=F◌, fmin, fmax, nought, ◌≤F◌, Less}
use trading_os.Float.Laws.{Ieee, not-le→Less, Less→≤F, ≤F-refl, fmax-ge_left, zero-IsReal}
use trading_os.Guards.Budget.{
  BudgetManager, BudgetReason, external_flow, trading_pnl, effective, entries_allowed, verdict,
}

ok_eq : {A E : Type 0} {a b : A} → ◌≡◌ {A = Result E A} (ok a) (ok b) → a ≡ b
ok_eq h = cc

module _ {F : Type 0} ⦃fl : Float F⦄ where
  -- the account equity that P&L is measured from, once the call has attached it
  abbrev pub anchor : F → BudgetManager F → F
  anchor equity m = elim m.baseline_equity [ none ↦ equity | some baseline ↦ baseline ]

  -- Budget and P&L, cut to the range from 0 to the equity.
  abbrev pub fenced : F → BudgetManager F → F
  fenced equity m = fmax nought (fmin (m.initial +F (equity -F anchor equity m)) equity)

  effective-eq-fenced :
      (equity : F) (m : BudgetManager F)
      → (equity <=F nought) ≡ false
      → effective equity m
        ≡ (ok (fenced equity m), record m { baseline_equity = some (anchor equity m) })
  unfolding effective
  effective-eq-fenced equity m h = ground arith

  effective_broke :
      (equity : F) (m : BudgetManager F)
      → (equity <=F nought) ≡ true
      → effective equity m ≡ (ok nought, m)
  unfolding effective
  effective_broke equity m h = ground arith

  fenced-le : (x equity : F) → Less nought equity → fmax nought (fmin x equity) ≤F equity
  unfolding fmax fmin ◌<F◌
  fenced-le x equity p = ground arith

  entries-eq-verdict :
      (equity : F) (m : BudgetManager F)
      → (equity <=F nought) ≡ false
      → entries_allowed equity m ≡ (
        ok (verdict (fenced equity m) (m.initial *F m.min_floor_pct)),
        record m { baseline_equity = some (anchor equity m) },
      )
  unfolding entries_allowed
  entries-eq-verdict equity m h = bind_ok (effective equity) _ (effective-eq-fenced equity m h)

  entries_broke :
      (equity : F) (m : BudgetManager F)
      → (equity <=F nought) ≡ true
      → (entries_allowed equity m).0 ≡ ok (verdict nought (m.initial *F m.min_floor_pct))
  unfolding entries_allowed
  entries_broke equity m h =
      ap (λ p. p.0) (bind_ok (effective equity) _ (effective_broke equity m h))

  verdict_allows :
      (eff floor : F) (reason : BudgetReason F)
      → verdict eff floor ≡ (true, reason)
      → ((eff <=F nought) ≡ false) × ((eff <F floor) ≡ false)
  verdict_allows eff floor reason h = ground arith

refused_zero : (F : Type 0) ⦃fl : Float F⦄ ⦃ieee : Ieee F⦄ → (nought {F = F} <=F nought) ≡ false → ⊥
refused_zero F h =
    let p = not-le→Less {F = F} nought nought (zero-IsReal F) (zero-IsReal F) h in omega arith

module _ {F : Type 0} ⦃fl : Float F⦄ ⦃ieee : Ieee F⦄ where
  -- The effective budget is a number from 0 up, whatever the budget, the baseline and the equity are,
  -- NaN included; it is never above an equity above 0, and it is 0 for an equity of 0 or less.
  -- Reading it never raises.
  pub effective_within :
      (equity : F) (m : BudgetManager F)
      → (eff : F) × ((effective equity m).0 ≡ ok eff)
        × (nought ≤F eff)
        × (Less nought equity → eff ≤F equity)
        × ((equity <=F nought) ≡ true → eff ≡ nought)
  effective_within equity m = elim (Bool-cases (equity <=F nought)) [
    | inl broke ↦ (
      nought,
      ap (λ p. p.0) (effective_broke equity m broke),
      ≤F-refl {F = F} nought (zero-IsReal F),
      λ p. Less→≤F nought equity p,
      λ e. refl,
    )
    | inr alive ↦ (
      fenced equity m,
      ap (λ p. p.0) (effective-eq-fenced equity m alive),
      fmax-ge_left {F = F} nought _ (zero-IsReal F),
      fenced-le _ equity,
      λ e. cc,
    )
  ]

  -- New entries are allowed only on an effective budget above 0 that is not below the floor, and then
  -- the P&L has its baseline: the one it had, or else the present equity.
  pub entries_allowed_floor :
      (equity : F) (m : BudgetManager F) (reason : BudgetReason F)
      → (entries_allowed equity m).0 ≡ ok (true, reason)
      → (eff : F) × ((effective equity m).0 ≡ ok eff)
        × Less nought eff
        × ((eff <F (m.initial *F m.min_floor_pct)) ≡ false)
        × ((entries_allowed equity m).1.baseline_equity ≡ some (anchor equity m))
  entries_allowed_floor equity m reason h = elim (Bool-cases (equity <=F nought)) [
    | inl broke ↦
        let v = verdict_allows nought _ reason (ok_eq (sym (entries_broke equity m broke) ∙ h)) in
        absurd (refused_zero F v.0)
    | inr alive ↦
        let e = entries-eq-verdict equity m alive in
        let v = verdict_allows (fenced equity m) _ reason (ok_eq (sym (ap (λ p. p.0) e) ∙ h)) in
        let low = fmax-ge_left {F = F} nought (fmin _ equity) (zero-IsReal F) in
        (
          fenced equity m,
          ap (λ p. p.0) (effective-eq-fenced equity m alive),
          not-le→Less (fenced equity m) nought low.1 (zero-IsReal F) v.0,
          v.1,
          ap (λ p. p.1.baseline_equity) e,
        )
  ]

  -- Once attached, reading the budget moves nothing; a deposit or withdrawal moves the baseline
  -- alone by its amount, so it never counts as trading P&L.
  pub external_flow_moves_baseline :
      (amount equity baseline : F) (m : BudgetManager F)
      → m.baseline_equity ≡ some baseline
      → let (result, m') = external_flow amount m in
        (result ≡ ok tt)
        × (m'.initial ≡ m.initial)
        × ((trading_pnl equity m').0 ≡ ok (equity -F (baseline +F amount)))
        × ((trading_pnl equity m).0 ≡ ok (equity -F baseline))
        × ((effective equity m').1 ≡ m')
  unfolding external_flow trading_pnl effective
  external_flow_moves_baseline amount equity baseline m h = ground arith
