-- ===== src/Sizing/Sizer.antt =====
-- src/core/position_sizer.py: `calculate_position_size`, step by step. Each step is a function that
-- ends with the next one.
use trading_os.Common.{
  Bool, true, not, ◌&&◌, ◌||◌, Option, none, some, [], ◌∷◌, ◌++◌, if◌then◌else◌,
}
use trading_os.Common.Dict.{Dict}
use trading_os.Common.Effects.{Result, ok, err}
use trading_os.Float.{Float, ◌+F◌, ◌-F◌, ◌*F◌, ◌/F◌, ◌<F◌, ◌<=F◌, ◌==F◌, fmax, fmin, nought, one}

-- The limits of `RiskLimits` that the sizer reads.
pub record RiskLimits (F : Type 0) : Type 0 where
  pub max_risk_per_trade_pct : F
  pub kelly_cap : F
  pub max_position_pct : F
  pub max_var_daily : F
  pub gap_assumption_atr : F
  pub max_daily_loss_pct : F

-- The other arguments; a cost function that returns none raises.
pub record SizeRequest (F : Type 0) : Type 0 where
  pub entry : F
  pub stop : F
  pub atr : F
  pub balance : F
  pub current_var : F
  pub lot_size : F
  pub p_win : Option F
  pub payoff_ratio : Option F
  pub expected_profit_per_unit : Option F
  pub cost_fn : Option (F → Option F)

pub data SizeReason : Type 0 where
  size_ok non_finite_inputs invalid_inputs stop_at_entry no_edge_kelly var_at_limit : SizeReason
  no_net_edge_after_costs below_min_lot : SizeReason

pub record SizeResult (F : Type 0) : Type 0 where
  pub qty : F
  pub notional : F
  pub reason : SizeReason
  pub factors : Dict F

pub data SizeError : Type 0 where
  zero_division floor_of_non_finite cost_fn_raised : SizeError

abbrev pub Sizing : Type 0 → Type 0
Sizing F = Result SizeError (SizeResult F)

module _ {F : Type 0} ⦃fl : Float F⦄ where
  open fl use {is_finite, abs, floor}

  -- `_zero`
  abbrev pub zero_size : SizeReason → Dict F → Sizing F
  zero_size reason factors =
      ok (record { qty = nought; notional = nought; reason = reason; factors = factors })

  unfoldable pub kelly_fraction : F → F → F
  kelly_fraction p_win payoff_ratio =
      if payoff_ratio <=F nought then nought else p_win -F (one -F p_win) /F payoff_ratio

  abbrev pub finite_or_none : Option F → Bool
  finite_or_none none = true
  finite_or_none (some x) = is_finite x

  abbrev pub finite_inputs : SizeRequest F → Bool
  finite_inputs rq =
      is_finite rq.entry
      && (is_finite rq.stop
          && (is_finite rq.atr
              && (is_finite rq.balance
                  && (is_finite rq.current_var
                      && (is_finite rq.lot_size
                          && (finite_or_none rq.p_win && finite_or_none rq.payoff_ratio))))))

  abbrev pub bad_request : SizeRequest F → Bool
  bad_request rq =
      (rq.entry <=F nought)
      || ((rq.balance <=F nought) || ((rq.atr <F nought) || (rq.lot_size <=F nought)))

  abbrev pub risk_per_unit : SizeRequest F → F
  risk_per_unit rq = abs (rq.entry -F rq.stop)

  abbrev pub cap_qty : RiskLimits F → SizeRequest F → F
  cap_qty risk rq = (rq.balance *F risk.max_position_pct) /F rq.entry

  abbrev pub worst_loss_per_unit : RiskLimits F → SizeRequest F → F
  worst_loss_per_unit risk rq = risk_per_unit rq +F risk.gap_assumption_atr *F rq.atr

  abbrev pub gap_qty : RiskLimits F → SizeRequest F → F
  gap_qty risk rq = (rq.balance *F risk.max_daily_loss_pct) /F worst_loss_per_unit risk rq

  -- 7. the cap again, and the lot floor
  unfoldable pub floor_lots : RiskLimits F → SizeRequest F → Dict F → F → Sizing F
  floor_lots risk rq factors qty =
      let capped = fmin qty (cap_qty risk rq) in
      let floored = floor (capped /F rq.lot_size) *F rq.lot_size in
      if not (is_finite (capped /F rq.lot_size))
      then err floor_of_non_finite
      else if floored <=F nought
      then zero_size below_min_lot factors
      else ok (record {
        qty = floored;
        notional = floored *F rq.entry;
        reason = size_ok;
        factors = factors;
      })

  -- 6. the gate after costs
  abbrev pub weigh_costs : RiskLimits F → SizeRequest F → Dict F → F → F → Option F → Sizing F
  weigh_costs risk rq factors qty expected none = err cost_fn_raised
  weigh_costs risk rq factors qty expected (some total_cost) =
      let factors' = factors ++ (("total_cost", total_cost) ∷ []) in
      if (expected *F qty) <=F total_cost
      then zero_size no_net_edge_after_costs factors'
      else floor_lots risk rq factors' qty

  abbrev pub gate_by :
      RiskLimits F → SizeRequest F → Dict F → F → Option (F → Option F) → Option F → Sizing F
  gate_by risk rq factors qty none expected = floor_lots risk rq factors qty
  gate_by risk rq factors qty (some cost_fn) none = floor_lots risk rq factors qty
  gate_by risk rq factors qty (some cost_fn) (some expected) =
      weigh_costs risk rq factors qty expected (cost_fn qty)

  abbrev pub cost_gate : RiskLimits F → SizeRequest F → Dict F → F → Sizing F
  cost_gate risk rq factors qty = gate_by risk rq factors qty rq.cost_fn rq.expected_profit_per_unit

  -- 5. gap survival
  abbrev pub survive_gap : RiskLimits F → SizeRequest F → Dict F → F → Sizing F
  survive_gap risk rq factors qty =
      if worst_loss_per_unit risk rq ==F nought
      then err zero_division
      else cost_gate risk rq (factors ++ (("gap_qty", gap_qty risk rq) ∷ []))
          (fmin qty (gap_qty risk rq))

  -- 4. VaR headroom
  abbrev pub var_headroom : RiskLimits F → SizeRequest F → F
  var_headroom risk rq = fmax nought (fmin one (one -F rq.current_var /F risk.max_var_daily))

  abbrev pub scale_headroom : RiskLimits F → SizeRequest F → Dict F → F → Sizing F
  scale_headroom risk rq factors qty =
      let headroom = var_headroom risk rq in
      let factors' = factors ++ (("var_headroom", headroom) ∷ []) in
      if risk.max_var_daily ==F nought
      then err zero_division
      else if (qty *F headroom) <=F nought
      then zero_size var_at_limit factors'
      else survive_gap risk rq factors' (qty *F headroom)

  -- 3. the hard cap
  abbrev pub cap_position : RiskLimits F → SizeRequest F → Dict F → F → Sizing F
  cap_position risk rq factors qty =
      scale_headroom risk rq (factors ++ (("cap_qty", cap_qty risk rq) ∷ []))
        (fmin qty (cap_qty risk rq))

  -- 2. the calibrated edge, if there is one
  abbrev pub scale_kelly : RiskLimits F → SizeRequest F → Dict F → F → F → F → Sizing F
  scale_kelly risk rq factors qty p_win payoff_ratio =
      let k = fmax nought (fmin (kelly_fraction p_win payoff_ratio) risk.kelly_cap) in
      let factors' = factors ++ (("kelly_clamped", k) ∷ []) in
      if k ==F nought
      then zero_size no_edge_kelly factors'
      else cap_position risk rq factors' (qty *F k)

  abbrev pub scale_edge : RiskLimits F → SizeRequest F → Dict F → F → Option F → Option F → Sizing F
  scale_edge risk rq factors qty (some p_win) (some payoff_ratio) =
      scale_kelly risk rq factors qty p_win payoff_ratio
  scale_edge risk rq factors qty (some p_win) none = cap_position risk rq factors qty
  scale_edge risk rq factors qty none payoff_ratio = cap_position risk rq factors qty

  unfoldable pub calculate_position_size : RiskLimits F → SizeRequest F → Sizing F
  unfolding floor_lots kelly_fraction
  calculate_position_size risk rq =
      let base = (rq.balance *F risk.max_risk_per_trade_pct) /F risk_per_unit rq in
      if not (finite_inputs rq)
      then zero_size non_finite_inputs []
      else if bad_request rq
      then zero_size invalid_inputs []
      else if risk_per_unit rq <=F nought
      then zero_size stop_at_entry []
      else scale_edge risk rq (("risk_per_unit", risk_per_unit rq) ∷ ("base_qty", base) ∷ []) base
          rq.p_win rq.payoff_ratio
