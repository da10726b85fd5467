-- ===== src/Paper/Tests.antt =====
-- A day on paper, and the theorems at it.
use trading_os.Common.{◌≡◌, refl, ℕ, some, none, List, [], ◌∷◌, map}
use trading_os.Common.Dict.{lookup}
use trading_os.Common.Effects.{ok}
use trading_os.Float.{◌<F◌, ◌<=F◌, ◌==F◌, fmin, fmax}
use trading_os.Float.Fixed.{Fixed, fixed_float, whole, nano}
use trading_os.Orders.Record.{Direction, buy, sell}
use trading_os.Paper.Costs.{india_trade_cost, india_round_trip_cost, impact_fraction, total}
use trading_os.Paper.Broker.{PaperConfig, PaperPayload, PaperBroker, PaperFill, opened, fill}
use trading_os.Paper.Desk.{on_tick, place_order, modify_order, cancel_order, equity, positionbook}
use trading_os.Paper.Replay.{PaperCall, tick, place, run, IsLedger, run-IsLedger}
use trading_os.Paper.Ticks.{on_tick-fills_due, still_resting, due_fills, summary}

abbrev cfg : PaperConfig Fixed
cfg = record {
  costs = record {
    brokerage_flat = whole 20;
    stt_delivery_pct = nano 1000000;
    stt_intraday_sell_pct = nano 250000;
    exchange_txn_pct = nano 0;
    stamp_duty_pct = nano 0;
    gst_pct = nano 0;
  };
  impact = record { y_coefficient = whole 0 };
  adv_map = [];
  sigma_map = [];
  mt5_cost_map = [];
  order_id = λ n. "PB000001";
}

abbrev market : PaperPayload Fixed
market = record {
  symbol = "TCS";
  action = buy;
  quantity = whole 10;
  pricetype = none;
  product = none;
  trigger_price = none;
}

abbrev stop_loss : PaperPayload Fixed
stop_loss = record market {
  action = sell;
  pricetype = some "SL-M";
  trigger_price = some (whole 95);
}

-- ten shares are bought at 100, and a gap to 90 fills the stop at 95
abbrev day : List (PaperCall Fixed)
day =
    tick (whole 1) "TCS" (whole 100)
    ∷ place (whole 2) market
    ∷ place (whole 3) stop_loss
    ∷ tick (whole 4) "TCS" (whole 0)
    ∷ tick (whole 5) "TCS" (whole 90)
    ∷ []

abbrev before_gap : PaperBroker Fixed
unfolding run
before_gap =
    run cfg
      (tick (whole 1) "TCS" (whole 100) ∷ place (whole 2) market ∷ place (whole 3) stop_loss ∷ [])
      (opened (whole 10000))

abbrev stopped : PaperFill Fixed
stopped = record {
  orderid = "PB000001";
  symbol = "TCS";
  action = sell;
  qty = whole 10;
  price = whole 90;
  cost = nano 20225000000;
  ts = whole 5;
}

day_cash : (run cfg day (opened (whole 10000))).cash ≡ nano 9859775000000
unfolding run on_tick place_order modify_order cancel_order fill impact_fraction india_trade_cost
    total ◌<F◌ ◌<=F◌ ◌==F◌ fmin fmax
day_cash = refl

gap_fills_at_the_gap : (on_tick cfg (whole 5) "TCS" (whole 90) before_gap).0 ≡ ok (stopped ∷ [])
unfolding run on_tick place_order modify_order cancel_order fill impact_fraction india_trade_cost
    total ◌<F◌ ◌<=F◌ ◌==F◌ fmin fmax
gap_fills_at_the_gap = refl

run-IsLedger_example : IsLedger (whole 10000) (run cfg day (opened (whole 10000)))
run-IsLedger_example = run-IsLedger cfg day (whole 10000)

on_tick-fills_due_example :
    ((k : _)
      → lookup k (on_tick cfg (whole 5) "TCS" (whole 90) before_gap).1.open_orders
        ≡ still_resting "TCS" (whole 90) (lookup k before_gap.open_orders))
    × (map summary (stopped ∷ []) ≡ due_fills "TCS" (whole 90) before_gap.open_orders)
unfolding run place_order ◌<F◌ ◌<=F◌ ◌==F◌
on_tick-fills_due_example =
    on_tick-fills_due cfg (whole 5) "TCS" (whole 90) before_gap (stopped ∷ []) (refl, tt)
      gap_fills_at_the_gap

round_trip_costs :
    india_round_trip_cost cfg.costs (whole 10) (whole 100) (whole 90) "intraday"
    ≡ ok (nano 40225000000)
unfolding india_round_trip_cost india_trade_cost total ◌<=F◌
round_trip_costs = refl

-- One share is bought at 100 and two are sold at 100, at no cost: the account of 10000 is one share
-- short with 10100 in cash, and its equity is given as 10100. A short position that began at 0 is
-- given rightly.
abbrev free : PaperConfig Fixed
free = record cfg {
  costs = record cfg.costs { brokerage_flat = whole 0; stt_intraday_sell_pct = whole 0 };
}

abbrev ordered : Direction → ℕ → PaperPayload Fixed
ordered action n = record market { action = action; quantity = whole n }

flip_equity :
    equity (
      run free
        (tick (whole 1) "TCS" (whole 100)
          ∷ place (whole 2) (ordered buy 1)
          ∷ place (whole 3) (ordered sell 2)
          ∷ [])
        (opened (whole 10000)))
    ≡ whole 10100
unfolding run equity positionbook on_tick place_order fill impact_fraction india_trade_cost total
    ◌<F◌ ◌<=F◌ ◌==F◌ fmin fmax
flip_equity = refl

short_equity :
    equity (
      run free
        (tick (whole 1) "TCS" (whole 100) ∷ place (whole 2) (ordered sell 1) ∷ [])
        (opened (whole 10000)))
    ≡ whole 10000
unfolding run equity positionbook on_tick place_order fill impact_fraction india_trade_cost total
    ◌<F◌ ◌<=F◌ ◌==F◌ fmin fmax
short_equity = refl
