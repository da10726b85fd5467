-- ===== src/Sizing/Margin.antt =====
-- src/core/margin_checker.py: the two checks of `MarginChecker`. An API that is missing is none; its
-- answers are arguments, and an answer that is none raised. `int_of` is Python's int(x) of a quantity
-- above 0, which raises for infinity and NaN.
use trading_os.Common.{ℕ, ltb, nat_eq, Bool, true, false, ◌||◌, Option, none, some, if◌then◌else◌}
use Prim.Native.Nat.{◌%◌}
use trading_os.Common.Effects.{Result, ok, err}
use trading_os.Float.{Float, ◌+F◌, ◌-F◌, ◌*F◌, ◌/F◌, ◌<=F◌, nought, one}

pub data MarginReason : Type 0 where
  margin_ok invalid_qty_or_price lot_size_mismatch no_margin_api margin_api_unreachable :
      MarginReason
  insufficient_margin invalid_lots non_positive_equity free_margin_below_floor : MarginReason

pub record MarginDecision (F : Type 0) : Type 0 where
  pub passed : Bool  -- `ok`
  pub reason : MarginReason
  pub required : Option F
  pub available : Option F

pub record IndiaApi (F : Type 0) : Type 0 where
  pub available_margin : Option F
  pub required_margin : Option F

pub record Mt5Api (F : Type 0) : Type 0 where
  pub free_margin : Option F
  pub equity : Option F
  pub margin_required : Option F

abbrev pub lots_match : Option ℕ → ℕ → Option Bool
lots_match none lot_size = none
lots_match (some n) lot_size = some (nat_eq (n % lot_size) 0)

module _ {F : Type 0} ⦃fl : Float F⦄ where
  abbrev pub refuse : MarginReason → MarginDecision F
  refuse reason = record { passed = false; reason = reason; required = none; available = none }

  abbrev pub weigh : Bool → MarginReason → F → F → MarginDecision F
  weigh enough reason required available = record {
    passed = enough;
    reason = if enough then margin_ok else reason;
    required = some required;
    available = some available;
  }

  -- with the two answers of the API; the second is asked after the first
  abbrev pub weigh_india : F → Option F → Option F → MarginDecision F
  weigh_india buffer (some available) (some required) =
      let need = required *F (one +F buffer) in
      weigh (need <=F available) insufficient_margin need available
  weigh_india buffer (some available) none = refuse margin_api_unreachable
  weigh_india buffer none required = refuse margin_api_unreachable

  abbrev pub ask_india : F → Option (IndiaApi F) → MarginDecision F
  ask_india buffer none = refuse no_margin_api
  ask_india buffer (some api) = weigh_india buffer api.available_margin api.required_margin

  abbrev pub by_lots : F → Option (IndiaApi F) → Option Bool → Result (Unit {0}) (MarginDecision F)
  by_lots buffer api none = err tt
  by_lots buffer api (some matching) =
      ok (if matching then ask_india buffer api else refuse lot_size_mismatch)

  -- `check_india`, with the buffer of the limits; it raises where int(qty) does
  unfoldable pub check_india :
      (F → Option ℕ) → F → Option (IndiaApi F) → F → F → ℕ → Result (Unit {0}) (MarginDecision F)
  check_india int_of buffer api qty price lot_size =
      if (qty <=F nought) || (price <=F nought)
      then ok (refuse invalid_qty_or_price)
      else by_lots buffer api
          (if ltb 1 lot_size then lots_match (int_of qty) lot_size else some true)

  abbrev pub weigh_mt5 : F → Option F → Option F → Option F → MarginDecision F
  weigh_mt5 floor (some free) (some equity) (some required) =
      if equity <=F nought
      then refuse non_positive_equity
      else weigh (floor <=F ((free -F required) /F equity)) free_margin_below_floor required free
  weigh_mt5 floor _ _ _ = refuse margin_api_unreachable

  abbrev pub ask_mt5 : F → Option (Mt5Api F) → MarginDecision F
  ask_mt5 floor none = refuse no_margin_api
  ask_mt5 floor (some api) = weigh_mt5 floor api.free_margin api.equity api.margin_required

  -- `check_mt5`, with the floor of the limits
  unfoldable pub check_mt5 : F → Option (Mt5Api F) → F → MarginDecision F
  check_mt5 floor api lots = if lots <=F nought then refuse invalid_lots else ask_mt5 floor api
