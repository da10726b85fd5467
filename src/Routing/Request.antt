-- ===== src/Routing/Request.antt =====
-- src/core/order_router.py and src/core/broker_payloads.py: requests, results, what is sent, and the
-- payloads. The answers of everything that the router calls are in `Answers`.
use text.Mathlib.Text.{◌==◌ as str_eq}
use trading_os.Common.{
  ℕ, String, Bool, false, not, ◌&&◌, ◌||◌, Option, List, [], ◌∷◌, if◌then◌else◌,
}
use trading_os.Common.Effects.{Result, ok, err}
use trading_os.Float.{Float, ◌==F◌}
use trading_os.Orders.Record.{Direction, OrderState, OrderError, OrderRecord}
use trading_os.Orders.Methods.{Lookup}
use trading_os.Sizing.Sizer.{SizeReason, SizeError}
use trading_os.Sizing.Margin.{MarginReason, IndiaApi, Mt5Api}
use trading_os.Guards.Budget.{BudgetError}
use trading_os.Guards.Stack.{Refusal}

pub record OrderRequest (F : Type 0) : Type 0 where
  pub symbol : String
  pub direction : Direction
  pub entry : F
  pub stop : F
  pub atr : F
  pub product : String
  pub lot_size : F
  pub algo_id : Option String
  pub p_win : Option F
  pub payoff_ratio : Option F
  pub expected_profit_per_unit : Option F

pub data Check : Type 0 where
  signal_check band_check session_check : Check

-- Why a pre-check failed. `float(raw)` of the cached VaR may raise, which is `VarCache.garbled`.
pub data Precheck : Type 0 where
  var_cache_missing var_cache_unreachable var_at_limit : Precheck
  check_error check_failed : Check → Precheck

pub data RouteReason (F : Type 0) : Type 0 where
  trading_halted entries_paused_shock missing_sebi_algo_id : RouteReason F
  precheck_failed : Precheck → RouteReason F
  portfolio_guard : Refusal F → RouteReason F
  sizing : SizeReason → RouteReason F
  margin : MarginReason → RouteReason F
  dispatch_timeout_reconciled accepted_in : OrderState → RouteReason F
  broker_rejected : String → RouteReason F

-- `checks`, a log of the run, is left out.
pub record RouteResult (F : Type 0) : Type 0 where
  pub accepted : Bool
  pub reason : RouteReason F
  pub order : Option (OrderRecord F)  -- `record`

-- What reaches `audit_fn`.
pub record AuditRow (F : Type 0) : Type 0 where
  pub symbol : String
  pub direction : Direction
  pub rejected : Bool  -- the outcome begins with "rejected:"
  pub outcome : RouteReason F
  pub client_order_id : Option String
  pub state : Option OrderState
  pub filled_qty : F

pub record OpenalgoPayload (F : Type 0) : Type 0 where
  pub apikey : String
  pub strategy : String
  pub exchange : String
  pub symbol : String
  pub action : Direction  -- "BUY" or "SELL"
  pub quantity : F
  pub product : String
  pub pricetype : String
  pub price : F
  pub trigger_price : F

pub record Mt5Payload (F : Type 0) : Type 0 where
  pub client_order_id : String
  pub symbol : String
  pub direction : Direction
  pub qty : F
  pub algo_id : Option String
  pub product : String

pub data Payload (F : Type 0) : Type 0 where
  to_openalgo : OpenalgoPayload F → Payload F
  to_mt5 : Mt5Payload F → Payload F

-- What leaves the router, in order.
pub data Sent (F : Type 0) : Type 0 where
  posted : Payload F → Sent F
  looked_up : String → Sent F
  audited : AuditRow F → Sent F
  told_filled : OrderRecord F → Sent F

pub data VarCache (F : Type 0) : Type 0 where
  no_redis unreachable missing garbled : VarCache F
  cached : F → VarCache F

-- An injected check: it is not wired, it raises, or it answers.
pub data Answer : Type 0 where
  not_wired raises : Answer
  says : Bool → Answer

-- What `client.post` does. A status of 400 or more comes with its text "http_<status>"; `unreadable` is
-- a body that is no JSON object; the numbers of one are readable.
pub record Reply (F : Type 0) : Type 0 where
  pub orderid : Option String
  pub broker_order_id : Option String
  pub filled_qty : Option F
  pub avg_price : Option F

pub data Response (F : Type 0) : Type 0 where
  transport_error other_error unreadable : Response F
  http_error : String → Response F
  answered : Reply F → Response F

pub record Answers (F : Type 0) : Type 0 where
  pub entries_paused : Bool
  pub var_cache : VarCache F
  pub signal : Answer
  pub band : Answer
  pub session : Answer
  pub equity : Option F  -- `equity_fn` of the portfolio guard
  pub balance : Option F
  pub cost_fn : Option (F → Option F)
  pub india_api : Option (IndiaApi F)
  pub mt5_api : Option (Mt5Api F)
  pub response : Response F
  pub lookup : Lookup F
  pub audit_wired : Bool
  pub on_filled : Option Bool  -- if it is wired, whether it returns
  pub fresh_id : String  -- the uuid of `create`
  pub now : F
  pub clock : ℕ  -- the same time, for the day of the prop rules

pub data RouteError (F : Type 0) : Type 0 where
  var_garbled guard_equity_raised balance_raised no_int on_filled_raised : RouteError F
  guard_raised : BudgetError → RouteError F
  sizer_raised : SizeError → RouteError F
  fractional_quantity post_raised bad_reply : RouteError F
  order_raised : OrderError F → RouteError F

abbrev pub among : String → List String → Bool
among x [] = false
among x (y ∷ ys) = str_eq x y || among x ys

abbrev pub non_crypto_exchanges : List String
non_crypto_exchanges = "NSE" ∷ "BSE" ∷ "NFO" ∷ "BFO" ∷ "MCX" ∷ "CDS" ∷ []

module _ {F : Type 0} ⦃fl : Float F⦄ where
  open fl use {is_finite, floor}

  -- `float(quantity) != int(quantity)`, or int raises
  abbrev pub fractional : F → Bool
  fractional quantity = not (is_finite quantity) || not (floor quantity ==F quantity)

  -- The result has the same number where `int` is taken: it is whole then.
  unfoldable pub openalgo_order_payload :
      String
      → String
      → String
      → String
      → Direction
      → F
      → String
      → String
      → F
      → F
      → Result (RouteError F) (OpenalgoPayload F)
  openalgo_order_payload apikey algo_id exchange symbol action quantity product pricetype price
        trigger_price =
      if among exchange non_crypto_exchanges && fractional quantity
      then err fractional_quantity
      else ok (record {
        apikey = apikey;
        strategy = algo_id;
        exchange = exchange;
        symbol = symbol;
        action = action;
        quantity = quantity;
        product = product;
        pricetype = pricetype;
        price = price;
        trigger_price = trigger_price;
      })
