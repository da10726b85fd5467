-- ===== src/Sizing/Caps.antt =====
-- src/core/position_sizer.py: what bounds the size of a position.
use trading_os.Common.{
  ◌≡◌, ◌≢◌, refl, Bool, true, false, not, Option, none, some, [], ◌∷◌, arith, if◌then◌else◌,
  Bool-cases, inl, inr,
}
use mathlib.Core.Path.{Path, subst}
use trading_os.Common.Dict.{Dict}
use trading_os.Common.Effects.{ok, err}
use trading_os.Float.{Float, ◌*F◌, ◌/F◌, ◌<F◌, ◌<=F◌, ◌==F◌, ◌≤F◌, fmax, fmin, nought, IsReal}
use trading_os.Float.Laws.{Ieee, ≤F-trans}
use trading_os.Sizing.Sizer.{
  RiskLimits, SizeRequest, SizeResult, SizeReason, SizeError, Sizing, size_ok, below_min_lot,
  no_net_edge_after_costs, var_at_limit, no_edge_kelly, non_finite_inputs, invalid_inputs,
  stop_at_entry, zero_size, finite_inputs, bad_request, cap_qty, gap_qty, worst_loss_per_unit,
  floor_lots, weigh_costs, gate_by, survive_gap, var_headroom, cap_position, scale_edge,
  calculate_position_size, risk_per_unit, kelly_fraction,
}

module _ {F : Type 0} ⦃fl : Float F⦄ where
  open fl use {floor}

  -- The quantity is above 0, and it is a number of whole lots of a quantity within both limits.
  pub record WithinCaps (risk : RiskLimits F) (rq : SizeRequest F) (r : SizeResult F) : Type 0 where
    pub wanted : F
    pub in_lots : r.qty ≡ (floor (wanted /F rq.lot_size) *F rq.lot_size)
    pub in_position_cap : wanted ≤F cap_qty risk rq
    pub in_gap_cap : wanted ≤F gap_qty risk rq
    pub not_zero : (r.qty <=F nought) ≡ false
    pub priced : r.notional ≡ (r.qty *F rq.entry)

  -- What a step promises.
  record Sound (risk : RiskLimits F) (rq : SizeRequest F) (s : Sizing F) : Type 0 where
    sound : (r : SizeResult F) → s ≡ ok r → r.reason ≡ size_ok → WithinCaps risk rq r

  branch-Sound :
      {risk : RiskLimits F} {rq : SizeRequest F} (c : Bool) {x y : Sizing F}
      → Sound risk rq x
      → Sound risk rq y
      → Sound risk rq (if c then x else y)
  branch-Sound true h k = h
  branch-Sound false h k = k

  err-Sound : {risk : RiskLimits F} {rq : SizeRequest F} (e : SizeError) → Sound risk rq (err e)
  err-Sound e = record { sound = λ r h o. ground arith }

  zero-Sound :
      {risk : RiskLimits F} {rq : SizeRequest F} (reason : SizeReason) (factors : Dict F)
      → reason ≢ size_ok
      → Sound risk rq (zero_size reason factors)
  zero-Sound reason factors n = record { sound = λ r h o. ground arith }

  ok-injective : (r s : SizeResult F) → Path (Sizing F) (ok r) (ok s) → r ≡ s
  ok-injective r s h = cc

  ok-Sound :
      {risk : RiskLimits F} {rq : SizeRequest F} (r : SizeResult F)
      → WithinCaps risk rq r
      → Sound risk rq (ok r)
  ok-Sound {risk} {rq} r c = record {
    sound = λ s h o. subst (WithinCaps risk rq) (ok-injective r s h) c;
  }

  fmin-below : (a b : F) → IsReal (fmin a b) → IsReal b → (fmin a b ≤F a) × (fmin a b ≤F b)
  unfolding fmin ◌<F◌
  fmin-below a b r rb = ground arith

module _ {F : Type 0} ⦃fl : Float F⦄ ⦃ieee : Ieee F⦄ (risk : RiskLimits F) (rq : SizeRequest F)
    (rc : IsReal (cap_qty risk rq)) (rg : IsReal (gap_qty risk rq)) where
  open fl use {floor, is_finite}

  floor_lots-Sound :
      (factors : Dict F) (qty : F)
      → (IsReal qty → qty ≤F gap_qty risk rq)
      → Sound risk rq (floor_lots risk rq factors qty)
  unfolding floor_lots
  floor_lots-Sound factors qty g =
      let capped = fmin qty (cap_qty risk rq) in
      let floored = floor (capped /F rq.lot_size) *F rq.lot_size in
      elim (Bool-cases (is_finite (capped /F rq.lot_size))) [
        | inr bad ↦ rw bad (err-Sound _)
        | inl fine ↦ elim (Bool-cases (floored <=F nought)) [
          | inl small ↦ rw (fine, small) (zero-Sound below_min_lot factors (λ e. ground arith))
          | inr positive ↦
              let (below, in_cap) =
                fmin-below qty (cap_qty risk rq) (ieee.div-IsReal capped rq.lot_size fine) rc in
              rw (fine, positive)
                (ok-Sound _ (record {
                  wanted = capped;
                  in_lots = refl;
                  in_position_cap = in_cap;
                  in_gap_cap = ≤F-trans capped qty (gap_qty risk rq) below (g below.1);
                  not_zero = positive;
                  priced = refl;
                }))
        ]
      ]

  weigh_costs-Sound :
      (factors : Dict F) (qty expected : F) (cost : Option F)
      → (IsReal qty → qty ≤F gap_qty risk rq)
      → Sound risk rq (weigh_costs risk rq factors qty expected cost)
  weigh_costs-Sound factors qty expected none g = err-Sound _
  weigh_costs-Sound factors qty expected (some total_cost) g =
      branch-Sound ((expected *F qty) <=F total_cost)
        (zero-Sound no_net_edge_after_costs _ (λ e. ground arith)) (floor_lots-Sound _ qty g)

  gate_by-Sound :
      (factors : Dict F) (qty : F) (cost_fn : Option (F → Option F)) (expected : Option F)
      → (IsReal qty → qty ≤F gap_qty risk rq)
      → Sound risk rq (gate_by risk rq factors qty cost_fn expected)
  gate_by-Sound factors qty none expected g = floor_lots-Sound factors qty g
  gate_by-Sound factors qty (some cost_fn) none g = floor_lots-Sound factors qty g
  gate_by-Sound factors qty (some cost_fn) (some expected) g =
      weigh_costs-Sound factors qty expected (cost_fn qty) g

  survive_gap-Sound : (factors : Dict F) (qty : F) → Sound risk rq (survive_gap risk rq factors qty)
  survive_gap-Sound factors qty =
      branch-Sound (worst_loss_per_unit risk rq ==F nought) (err-Sound _) (
        gate_by-Sound _ (fmin qty (gap_qty risk rq)) rq.cost_fn rq.expected_profit_per_unit
          (λ r. (fmin-below qty (gap_qty risk rq) r rg).1))

  cap_position-Sound :
      (factors : Dict F) (qty : F) → Sound risk rq (cap_position risk rq factors qty)
  cap_position-Sound factors qty = branch-Sound (risk.max_var_daily ==F nought) (err-Sound _) (
      branch-Sound ((fmin qty (cap_qty risk rq) *F var_headroom risk rq) <=F nought)
        (zero-Sound var_at_limit _ (λ e. ground arith)) (survive_gap-Sound _ _))

  scale_edge-Sound :
      (factors : Dict F) (qty : F) (p_win payoff_ratio : Option F)
      → Sound risk rq (scale_edge risk rq factors qty p_win payoff_ratio)
  scale_edge-Sound factors qty (some p_win) (some payoff_ratio) =
      branch-Sound
        (fmax nought (fmin (kelly_fraction p_win payoff_ratio) risk.kelly_cap) ==F nought)
        (zero-Sound no_edge_kelly _ (λ e. ground arith)) (cap_position-Sound _ _)
  scale_edge-Sound factors qty (some p_win) none = cap_position-Sound factors qty
  scale_edge-Sound factors qty none payoff_ratio = cap_position-Sound factors qty

  calculate-Sound : Sound risk rq (calculate_position_size risk rq)
  unfolding calculate_position_size
  calculate-Sound =
      let base = (rq.balance *F risk.max_risk_per_trade_pct) /F risk_per_unit rq in
      branch-Sound (not (finite_inputs rq)) (zero-Sound non_finite_inputs _ (λ e. ground arith)) (
        branch-Sound (bad_request rq) (zero-Sound invalid_inputs _ (λ e. ground arith)) (
          branch-Sound (risk_per_unit rq <=F nought)
            (zero-Sound stop_at_entry _ (λ e. ground arith))
            (scale_edge-Sound (("risk_per_unit", risk_per_unit rq) ∷ ("base_qty", base) ∷ []) base
              rq.p_win rq.payoff_ratio)))

  -- A size that is given as ok, where neither limit is NaN, is above 0 and a number of whole lots of a
  -- quantity that exceeds neither the position cap nor the quantity that survives a gap through the
  -- stop, whatever edge, VaR and costs say; its notional is the quantity at the entry.
  pub sized-WithinCaps :
      (r : SizeResult F)
      → calculate_position_size risk rq ≡ ok r
      → r.reason ≡ size_ok
      → WithinCaps risk rq r
  sized-WithinCaps = calculate-Sound.sound

module _ {F : Type 0} ⦃fl : Float F⦄ where
  refusals :
      (fine bad touching : Bool) (s : Sizing F) (r : SizeResult F)
      → Path
          (Sizing F)
          (if not fine
            then zero_size non_finite_inputs []
            else if bad
            then zero_size invalid_inputs []
            else if touching
            then zero_size stop_at_entry []
            else s)
          (ok r)
      → r.reason ≡ size_ok
      → (fine ≡ true) × (bad ≡ false) × (touching ≡ false)
  refusals fine bad touching s r h o = ground arith

  -- A size that is given as ok comes from inputs that are all finite, an entry, a balance and a lot
  -- above 0, an ATR not below 0 and a stop away from the entry.
  pub sized_needs :
      (risk : RiskLimits F) (rq : SizeRequest F) (r : SizeResult F)
      → calculate_position_size risk rq ≡ ok r
      → r.reason ≡ size_ok
      → (finite_inputs rq ≡ true)
        × (bad_request rq ≡ false)
        × ((risk_per_unit rq <=F nought) ≡ false)
  unfolding calculate_position_size
  sized_needs risk rq r h o =
      refusals (finite_inputs rq) (bad_request rq) (risk_per_unit rq <=F nought) _ r h o
