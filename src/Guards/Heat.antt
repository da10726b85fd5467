-- ===== src/Guards/Heat.antt =====
-- src/risk/portfolio_heat.py: `position_heat` and `PortfolioHeatManager`, the cap on the total open risk.
use trading_os.Common.{Bool, true, false, not, ◌||◌, List, [], ◌∷◌, if◌then◌else◌}
use trading_os.Common.Effects.{Result, ok, err}
use trading_os.Orders.Record.{Direction, buy, sell}
use trading_os.Float.{Float, ◌+F◌, ◌-F◌, ◌*F◌, ◌/F◌, ◌<F◌, ◌<=F◌, fmax, nought, one}

-- The fields that the manager reads of a position, an object or a dict.
pub record HeatPosition (F : Type 0) : Type 0 where
  pub direction : Direction
  pub entry : F
  pub stop : F
  pub remaining_qty : F
  pub exited : Bool

pub data HeatReason (F : Type 0) : Type 0 where
  heat_ok invalid_inputs : HeatReason F
  over_cap : F → F → HeatReason F

pub record HeatCheck (F : Type 0) : Type 0 where
  pub allowed : Bool
  pub current_heat : F
  pub proposed_heat : F
  pub cap : F
  pub reason : HeatReason F

pub data HeatError : Type 0 where
  cap_not_positive : HeatError

module _ {F : Type 0} ⦃fl : Float F⦄ where
  open fl use {lit, inf, is_finite, round_to}

  unfoldable pub position_heat : Direction → F → F → F → F
  position_heat direction entry stop remaining_qty =
      if remaining_qty <=F nought
      then nought
      else fmax nought
          (elim direction [ buy ↦ entry -F stop | sell ↦ stop -F entry ] *F remaining_qty)

  -- `__init__`, which keeps the cap
  unfoldable pub new_heat_cap : F → Result HeatError F
  new_heat_cap max_heat_pct =
      if max_heat_pct <=F nought then err cap_not_positive else ok max_heat_pct

  -- the loop of `current_heat`
  unfoldable pub add_heat : F → List (HeatPosition F) → F
  unfolding position_heat
  add_heat total [] = total
  add_heat total (p ∷ ps) =
      add_heat
        (if p.exited
          then total
          else total +F position_heat p.direction p.entry p.stop p.remaining_qty)
        ps

  unfoldable pub heat_of : List (HeatPosition F) → F → F
  heat_of positions equity = if equity <=F nought then inf else add_heat nought positions /F equity

  abbrev pub bad_inputs : F → F → Bool
  bad_inputs equity proposed_risk =
      (equity <=F nought)
      || (not (is_finite equity) || ((proposed_risk <F nought) || not (is_finite proposed_risk)))

  -- the heat with the new order in it
  abbrev pub heat_with : List (HeatPosition F) → F → F → F
  heat_with positions equity proposed_risk = heat_of positions equity +F (proposed_risk /F equity)

  -- `check`, of the manager with this cap
  unfoldable pub heat_check : F → List (HeatPosition F) → F → F → HeatCheck F
  heat_check max_heat_pct positions equity proposed_risk =
      let cur = heat_of positions equity in
      let prop = heat_with positions equity proposed_risk in
      if bad_inputs equity proposed_risk
      then record {
        allowed = false;
        current_heat = one;
        proposed_heat = one;
        cap = max_heat_pct;
        reason = invalid_inputs;
      }
      else if (max_heat_pct +F lit 1 12) <F prop
      then record {
        allowed = false;
        current_heat = round_to 6 cur;
        proposed_heat = round_to 6 prop;
        cap = max_heat_pct;
        reason = over_cap prop max_heat_pct;
      }
      else record {
        allowed = true;
        current_heat = round_to 6 cur;
        proposed_heat = round_to 6 prop;
        cap = max_heat_pct;
        reason = heat_ok;
      }
