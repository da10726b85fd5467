-- ===== src/Paper/Costs.antt =====
-- src/core/transaction_cost_model.py: what a trade costs.
use text.Mathlib.Text.{◌==◌ as str_eq}
use trading_os.Common.{String, Bool, not, ◌&&◌, ◌||◌, List, [], ◌∷◌, if◌then◌else◌}
use trading_os.Common.Dict.{Dict, values}
use trading_os.Common.Effects.{Result, ok, err}
use trading_os.Float.{Float, ◌+F◌, ◌-F◌, ◌*F◌, ◌/F◌, ◌<F◌, ◌<=F◌, fmax, nought}

pub record IndiaCosts (F : Type 0) : Type 0 where
  pub brokerage_flat : F
  pub stt_delivery_pct : F
  pub stt_intraday_sell_pct : F
  pub exchange_txn_pct : F
  pub stamp_duty_pct : F
  pub gst_pct : F

pub record ImpactModel (F : Type 0) : Type 0 where
  pub y_coefficient : F

pub record CostBreakdown (F : Type 0) : Type 0 where
  pub notional : F
  pub components : Dict F

pub data CostError : Type 0 where
  bad_side bad_product non_finite_trade : CostError

abbrev pub valid_side : String → Bool
valid_side side = str_eq side "buy" || str_eq side "sell"

abbrev pub valid_product : String → Bool
valid_product product = str_eq product "delivery" || str_eq product "intraday"

module _ {F : Type 0} ⦃fl : Float F⦄ where
  open fl use {is_finite, sqrt}

  -- `sum`, which begins with 0
  abbrev pub sum_from : F → List F → F
  sum_from acc [] = acc
  sum_from acc (x ∷ xs) = sum_from (acc +F x) xs

  unfoldable pub total : CostBreakdown F → F
  total b = sum_from nought (values b.components)

  abbrev pub no_cost : CostBreakdown F
  no_cost = record { notional = nought; components = [] }

  abbrev pub charges : IndiaCosts F → String → F → String → CostBreakdown F
  charges costs side notional product =
      let brokerage = costs.brokerage_flat in
      let stt =
        if str_eq product "delivery"
        then notional *F costs.stt_delivery_pct
        else if str_eq side "sell"
        then notional *F costs.stt_intraday_sell_pct
        else nought in
      let exchange = notional *F costs.exchange_txn_pct in
      let stamp = if str_eq side "buy" then notional *F costs.stamp_duty_pct else nought in
      let gst = costs.gst_pct *F (brokerage +F exchange) in
      record {
        notional = notional;
        components =
            ("brokerage", brokerage)
            ∷ ("stt", stt)
            ∷ ("exchange_txn", exchange)
            ∷ ("stamp_duty", stamp)
            ∷ ("gst", gst)
            ∷ [];
      }

  unfoldable pub india_trade_cost :
      IndiaCosts F → String → F → F → String → Result CostError (CostBreakdown F)
  india_trade_cost costs side qty price product =
      if not (valid_side side)
      then err bad_side
      else if not (valid_product product)
      then err bad_product
      else if not (is_finite qty && is_finite price)
      then err non_finite_trade
      else if (qty <=F nought) || (price <=F nought)
      then ok no_cost
      else ok (charges costs side (qty *F price) product)

  abbrev pub sum_totals :
      Result CostError (CostBreakdown F) → Result CostError (CostBreakdown F) → Result CostError F
  sum_totals (ok b) (ok s) = ok (total b +F total s)
  sum_totals (ok b) (err e) = err e
  sum_totals (err e) s = err e

  unfoldable pub india_round_trip_cost : IndiaCosts F → F → F → F → String → Result CostError F
  unfolding total india_trade_cost
  india_round_trip_cost costs qty price_in price_out product =
      sum_totals (india_trade_cost costs "buy" qty price_in product)
        (india_trade_cost costs "sell" qty price_out product)

  unfoldable pub impact_fraction : ImpactModel F → F → F → F → F
  impact_fraction impact qty adv_shares daily_sigma =
      if not (is_finite qty && (is_finite adv_shares && is_finite daily_sigma))
      then nought
      else if (qty <=F nought) || ((adv_shares <=F nought) || (daily_sigma <F nought))
      then nought
      else (impact.y_coefficient *F daily_sigma) *F sqrt (qty /F adv_shares)

  unfoldable pub impact_cost : ImpactModel F → F → F → F → F → F
  impact_cost impact qty price adv_shares daily_sigma =
      if not (is_finite qty && (is_finite price && (is_finite adv_shares && is_finite daily_sigma)))
      then nought
      else if (qty <=F nought)
          || ((price <=F nought) || ((adv_shares <=F nought) || (daily_sigma <F nought)))
      then nought
      else (((impact.y_coefficient *F daily_sigma) *F sqrt (qty /F adv_shares)) *F qty) *F price

  unfoldable pub mt5_trade_cost : F → F → F → F → F → CostBreakdown F
  mt5_trade_cost lots spread_points point_value_per_lot swap_cost_per_lot_per_day hold_days =
      if lots <=F nought then no_cost else record {
        notional = lots;
        components =
            ("spread", (spread_points *F point_value_per_lot) *F lots)
            ∷ ("swap", (fmax nought swap_cost_per_lot_per_day *F lots) *F fmax nought hold_days)
            ∷ [];
      }

  unfoldable pub net_edge : F → F → F
  net_edge expected_profit total_cost = expected_profit -F total_cost
