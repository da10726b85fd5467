-- ===== src/Paper/Broker.antt =====
-- src/core/paper_broker.py: `PaperBroker`. An action is BUY or SELL, and the time is an argument. The
-- dict of positions keeps a symbol that was ever traded, as `setdefault` does.
use text.Mathlib.Text.{◌==◌ as str_eq}
use trading_os.Common.{
  ℕ, String, Bool, true, false, not, ◌&&◌, ◌||◌, Option, none, some, List, [], ◌∷◌, ◌++◌, get_or,
  if◌then◌else◌,
}
use trading_os.Common.Dict.{Dict, lookup, insert}
use trading_os.Common.Effects.{Result, ok, err, Method}
use trading_os.Float.{Float, ◌+F◌, ◌-F◌, ◌*F◌, ◌/F◌, ◌<F◌, ◌==F◌, nought, one}
use trading_os.Orders.Record.{Direction, buy, sell}
use trading_os.Paper.Costs.{
  IndiaCosts, ImpactModel, CostBreakdown, CostError, total, india_trade_cost, impact_fraction,
}

pub record Mt5Cost (F : Type 0) : Type 0 where
  pub half_spread : F  -- 0.0 where the key is missing
  pub commission_pct : F

pub record PaperConfig (F : Type 0) : Type 0 where
  pub costs : IndiaCosts F
  pub impact : ImpactModel F
  pub adv_map : Dict F
  pub sigma_map : Dict F
  pub mt5_cost_map : Dict (Mt5Cost F)
  pub order_id : ℕ → String  -- f"PB{n:06d}"

pub record PaperFill (F : Type 0) : Type 0 where
  pub orderid : String
  pub symbol : String
  pub action : Direction
  pub qty : F
  pub price : F
  pub cost : F
  pub ts : F

pub record PaperPosition (F : Type 0) : Type 0 where
  pub qty : F
  pub avg_price : F

-- The payload of an order, with none for a missing key.
pub record PaperPayload (F : Type 0) : Type 0 where
  pub symbol : String
  pub action : Direction
  pub quantity : F
  pub pricetype : Option String
  pub product : Option String
  pub trigger_price : Option F

-- A resting order is its payload, with the time at which it came to rest.
pub record RestingOrder (F : Type 0) : Type 0 where
  pub payload : PaperPayload F
  pub rested_at : F

pub record PaperBroker (F : Type 0) : Type 0 where
  pub cash : F
  pub last_price : Dict F
  pub positions : Dict (PaperPosition F)
  pub open_orders : Dict (RestingOrder F)
  pub fills : List (PaperFill F)
  pub total_costs : F
  pub next_id : ℕ

pub data PaperError : Type 0 where
  tick_not_positive no_trigger_price no_last_price : PaperError
  cost_raised : CostError → PaperError

pub data PaperReply (F : Type 0) : Type 0 where
  invalid_quantity no_market_data insufficient_margin unknown_orderid : PaperReply F
  rested done : String → PaperReply F
  traded : String → F → F → PaperReply F

abbrev pub PaperMethod : Type 0 → Type 0 → Type 0
PaperMethod F A = Method (PaperBroker F) PaperError A

abbrev pub is_stop : Option String → Bool
is_stop none = false
is_stop (some t) = str_eq t "SL-M" || str_eq t "SL"

abbrev pub is_market : Option String → Bool
is_market none = true
is_market (some t) = str_eq t "MARKET"

abbrev pub side_of : Direction → String
side_of buy = "buy"
side_of sell = "sell"

abbrev pub known {ℓ} : {V : Type ℓ} → Option V → Bool
known none = false
known (some v) = true

module _ {F : Type 0} ⦃fl : Float F⦄ where
  open fl use {lit, neg, abs}

  abbrev pub flat : PaperPosition F
  flat = record { qty = nought; avg_price = nought }

  abbrev pub slipped : Direction → F → F → F
  slipped buy ref slip = ref *F (one +F slip)
  slipped sell ref slip = ref *F (one -F slip)

  abbrev pub fill_price : PaperConfig F → String → Direction → F → F → F
  fill_price cfg symbol action qty ref_price = slipped action ref_price (
      impact_fraction cfg.impact qty (get_or (lookup symbol cfg.adv_map) (lit 1000000 0))
        (get_or (lookup symbol cfg.sigma_map) (lit 2 2)))

  abbrev pub total_of : Result CostError (CostBreakdown F) → Result PaperError F
  total_of (ok b) = ok (total b)
  total_of (err e) = err (cost_raised e)

  abbrev pub fill_cost : PaperConfig F → String → Direction → F → F → String → Result PaperError F
  fill_cost cfg symbol action qty price product = elim (lookup symbol cfg.mt5_cost_map) [
    | some mc ↦ ok (mc.half_spread *F qty +F (mc.commission_pct *F qty) *F price)
    | none ↦ total_of (
        india_trade_cost cfg.costs (side_of action) qty price
          (if str_eq product "CNC" then "delivery" else "intraday"))
  ]

  abbrev pub signed : Direction → F → F
  signed buy qty = qty
  signed sell qty = neg qty

  -- the sign of the position has changed, and it is not flat
  abbrev pub flips : F → F → Bool
  flips old new =
      not (old ==F nought)
      && (not (if nought <F old then nought <F new else not (nought <F new))
          && not (new ==F nought))

  abbrev pub new_average : PaperPosition F → F → F → F → F → F
  new_average p s new_qty qty price =
      if flips p.qty new_qty
      then price
      else if (nought <F s) && (nought <F new_qty)
      then ((if nought <F p.qty then p.avg_price *F p.qty else nought) +F qty *F price) /F new_qty
      else p.avg_price

  abbrev pub moved : PaperPosition F → Direction → F → F → PaperPosition F
  moved p action qty price =
      let new_qty = p.qty +F signed action qty in
      record {
        qty = new_qty;
        avg_price =
            if new_qty ==F nought
            then nought
            else new_average p (signed action qty) new_qty qty price;
      }

  abbrev pub cash_flow : Direction → F → F → F → F
  cash_flow buy qty price cost = (neg qty *F price) -F cost
  cash_flow sell qty price cost = (qty *F price) -F cost

  -- the writes of `_fill`
  abbrev pub record_fill : PaperFill F → PaperBroker F → PaperBroker F
  record_fill f b = record b {
    positions =
        insert f.symbol (moved (get_or (lookup f.symbol b.positions) flat) f.action f.qty f.price)
          b.positions;
    cash = b.cash +F cash_flow f.action f.qty f.price f.cost;
    total_costs = b.total_costs +F f.cost;
    fills = b.fills ++ (f ∷ []);
  }

  abbrev pub settle :
      String → String → Direction → F → F → F → Result PaperError F → PaperMethod F (PaperFill F)
  settle oid symbol action qty price now (err e) b = (err e, b)
  settle oid symbol action qty price now (ok cost) b =
      let f : PaperFill F = record {
        orderid = oid;
        symbol = symbol;
        action = action;
        qty = qty;
        price = price;
        cost = cost;
        ts = now;
      } in
      (ok f, record_fill f b)

  -- `_fill`
  unfoldable pub fill :
      PaperConfig F → F → String → String → Direction → F → F → String → PaperMethod F (PaperFill F)
  unfolding impact_fraction india_trade_cost total
  fill cfg now oid symbol action qty ref_price product =
      let price = fill_price cfg symbol action qty ref_price in
      settle oid symbol action qty price now (fill_cost cfg symbol action qty price product)

  -- the account at the start
  abbrev pub opened : F → PaperBroker F
  opened starting_cash = record {
    cash = starting_cash;
    last_price = [];
    positions = [];
    open_orders = [];
    fills = [];
    total_costs = nought;
    next_id = 1;
  }
