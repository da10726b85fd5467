-- ===== src/Routing/Tests.antt =====
-- Runs of the router, and the theorems at them.
use trading_os.Common.{
  ℕ, ◌/◌, ◌≡◌, pos, negsuc, refl, true, false, Option, none, some, [], ◌∷◌, ◌++◌,
}
use trading_os.Common.Dict.{lookup}
use trading_os.Common.Effects.{ok, err}
use trading_os.Float.{fmin, fmax, ◌<F◌, ◌<=F◌, ◌==F◌}
use trading_os.Float.Fixed.{Fixed, fixed_float, whole, nano}
use trading_os.KillSwitch.Switch.{is_halted, require_trading_allowed}
use trading_os.Orders.Record.{
  buy, mt5_forex, created, sent, acked, filled, dispatched, broker_ack, fill_at, OrderRecord,
  overfill, transition, log,
}
use trading_os.Orders.Methods.{failed, mark_sent, on_ack, on_fill, on_timeout, reconcile_unknown}
use trading_os.Orders.Machine.{create, new_record}
use trading_os.Sizing.Sizer.{calculate_position_size, floor_lots}
use trading_os.Sizing.Margin.{check_mt5}
use trading_os.Routing.Request.{
  OrderRequest, cached, not_wired, says, Reply, answered, transport_error, Answers, RouteResult,
  Payload, to_mt5, accepted_in, posted, order_raised,
}
use trading_os.Routing.Dispatch.{RouterConfig, dispatch}
use trading_os.Routing.Router.{Router, route_order}
use trading_os.Routing.Posts.{posts}
use trading_os.Routing.Door.{Door, route_order-Door}
use trading_os.Routing.Settled.{Settled, result-Settled}
use trading_os.Routing.Cleared.{Cleared}
use trading_os.Routing.Overfilled.{acked_record, overfilled_reply_raises}

abbrev int_of_fixed : Fixed → Option ℕ
int_of_fixed none = none
int_of_fixed (some (pos n)) = some (n / 1000000000)
int_of_fixed (some (negsuc n)) = some 0

abbrev config : RouterConfig Fixed
config = record {
  forex = "EURUSD" ∷ [];
  crypto = "BTCUSD" ∷ [];
  risk = record {
    max_risk_per_trade_pct = nano 10000000;
    kelly_cap = nano 500000000;
    max_position_pct = nano 200000000;
    max_var_daily = nano 20000000;
    gap_assumption_atr = whole 2;
    max_daily_loss_pct = nano 30000000;
  };
  margin_buffer_india = nano 100000000;
  mt5_min_free_margin_pct = nano 500000000;
  api_key = "key";
  default_exchange = "NSE";
  int_of = int_of_fixed;
}

abbrev request : OrderRequest Fixed
request = record {
  symbol = "EURUSD";
  direction = buy;
  entry = whole 100;
  stop = whole 96;
  atr = whole 2;
  product = "delivery";
  lot_size = whole 3;
  algo_id = none;
  p_win = none;
  payoff_ratio = none;
  expected_profit_per_unit = none;
}

abbrev filled_at_once : Reply Fixed
filled_at_once = record {
  orderid = none;
  broker_order_id = some "B7";
  filled_qty = some (whole 99);
  avg_price = some (whole 101);
}

abbrev answers : Answers Fixed
answers = record {
  entries_paused = false;
  var_cache = cached (nano 10000000);
  signal = says true;
  band = not_wired;
  session = says true;
  equity = none;
  balance = some (whole 100000);
  cost_fn = none;
  india_api = none;
  mt5_api = some (record {
    free_margin = some (whole 900);
    equity = some (whole 1000);
    margin_required = some (whole 100);
  });
  response = answered filled_at_once;
  lookup = failed "no route";
  audit_wired = true;
  on_filled = some true;
  fresh_id = "id-1";
  now = whole 5;
  clock = 5;
}

abbrev lost : Answers Fixed
lost = record answers { response = transport_error }

abbrev router : Router Fixed
router = record {
  world = record { redis_up = true; halt_flag = none; sentinel = false; disk_ok = true };
  layers = none;
  desk = record { osm = record { records = [] }; trace = [] };
}

abbrev sent_record : OrderRecord Fixed
sent_record = new_record "id-1" "EURUSD" buy (whole 99) mt5_forex

abbrev mt5_order : Payload Fixed
mt5_order = to_mt5 (record {
  client_order_id = "id-1";
  symbol = "EURUSD";
  direction = buy;
  qty = whole 99;
  algo_id = none;
  product = "delivery";
})

abbrev filled_record : OrderRecord Fixed
filled_record = record sent_record {
  state = filled;
  broker_order_id = some "B7";
  filled_qty = whole 99;
  avg_fill_price = some (whole 101);
  history =
      record { at = whole 5; old = created; new = sent; note = dispatched }
      ∷ record { at = whole 5; old = sent; new = acked; note = broker_ack "B7" }
      ∷ record { at = whole 5; old = acked; new = filled; note = fill_at (whole 99) (whole 101) }
      ∷ [];
}

abbrev accepted_result : RouteResult Fixed
accepted_result = record {
  accepted = true;
  reason = accepted_in filled;
  order = some filled_record;
}

-- One order of 99 leaves and is filled.
route_runs :
    let (result, r) = route_order config answers request router in
    (result ≡ ok accepted_result) × (posts r.desk.trace ≡ mt5_order ∷ [])
unfolding route_order require_trading_allowed is_halted calculate_position_size floor_lots check_mt5
    create dispatch mark_sent on_ack on_fill transition log fmin fmax ◌<F◌ ◌<=F◌ ◌==F◌
route_runs = (refl, refl)

-- A timeout and a failed lookup: one order has left, and it is not accepted.
lost_runs :
    let (result, r) = route_order config lost request router in posts r.desk.trace ≡ mt5_order ∷ []
unfolding route_order require_trading_allowed is_halted calculate_position_size floor_lots check_mt5
    create dispatch mark_sent on_timeout reconcile_unknown transition log fmin fmax ◌<F◌ ◌<=F◌ ◌==F◌
lost_runs = refl

route_order-Door_example :
    Door config lost request router (route_order config lost request router).1
route_order-Door_example = route_order-Door config lost request router

result-Settled_example : Settled accepted_result (route_order config answers request router).1.desk
result-Settled_example = result-Settled config answers request router accepted_result route_runs.0

-- 120 are reported of 99.
abbrev too_much : Reply Fixed
too_much = record filled_at_once { filled_qty = some (whole 120) }

abbrev overfilling : Answers Fixed
overfilling = record answers { response = answered too_much }

overfilling_runs :
    let (result, r) = route_order config overfilling request router in
    (result ≡ err (order_raised (overfill (whole 120) (whole 99))))
    × (r.desk.trace ≡ posted mt5_order ∷ [])
unfolding route_order require_trading_allowed is_halted calculate_position_size floor_lots check_mt5
    create dispatch mark_sent on_ack on_fill transition log fmin fmax ◌<F◌ ◌<=F◌ ◌==F◌
overfilling_runs = (refl, refl)

overfilling-Cleared : Cleared config overfilling request router (whole 99)
unfolding is_halted calculate_position_size floor_lots check_mt5 fmin fmax ◌<F◌ ◌<=F◌ ◌==F◌
overfilling-Cleared = record {
  allowed = refl;
  calm = refl;
  tagged = refl;
  var_95 = nano 10000000;
  headroom = refl;
  checked = refl;
  guarded = tt;
  enough = record {
    balance = whole 100000;
    known = refl;
    size = _;
    sized = refl;
    same = refl;
    positive = refl;
    decision = check_mt5 config.mt5_min_free_margin_pct overfilling.mt5_api (whole 99);
    asked = refl;
    enough = refl;
  };
}

overfilled_reply_raises_example :
    let (result, r) = route_order config overfilling request router in
    (result ≡ err (order_raised (overfill (whole 120) (whole 99))))
    × (lookup "id-1" r.desk.osm.records ≡ some (acked_record (whole 5) "B7" sent_record))
    × (r.desk.trace ≡ router.desk.trace ++ (posted mt5_order ∷ []))
unfolding new_record ◌<F◌ ◌<=F◌
overfilled_reply_raises_example =
    overfilled_reply_raises config overfilling request (whole 99) too_much mt5_order router
      overfilling-Cleared refl refl refl refl refl
