-- ===== src/Exits/Tests.antt =====
-- Runs of the exit manager, and the theorems at them.
use trading_os.Common.{
  ◌≡◌, ◌↔◌, ◌++◌, refl, String, true, false, none, some, [], ◌∷◌, if◌then◌else◌,
}
use trading_os.Common.Effects.{ok, err}
use trading_os.Orders.Record.{buy}
use trading_os.Float.{fmin, fmax, ◌<F◌, ◌<=F◌, ◌==F◌}
use trading_os.Float.Fixed.{Fixed, fixed_float, whole, nano}
use trading_os.Exits.Position.{
  place_stop, risk_on, trailing, exited, ManagedPosition, ExitConfig, position_exited, Outside,
  ExitError, stop_widen_attempt, no_open_position, call_failed, Work, call,
}
use trading_os.Exits.Moves.{
  force_stop_change, manual_exit, improving, exit_telemetry, ratchet_stop, take_partial, exit,
}
use trading_os.Exits.Bars.{Bar, on_bar, bar, force, run_operations, k_trail}
use trading_os.Exits.Ladder.{NotWider, Ratchets}
use trading_os.Exits.NeverWiden.{never_widen}
use trading_os.Exits.Leaving.{
  stop_hit_sends_nothing, force_stop_change_lem, closed_for_good, lost_modification,
}
use trading_os.Common.Dict.{lookup}
use trading_os.Exits.Manager.{
  ExitManager, NewPosition, attach, stop_order, from_snapshot, to_snapshot, naked_positions,
}
use trading_os.Exits.Restart.{restart_keeps, attach_lem}

-- a purchase of 10 at 100 with its stop at 98
abbrev bought : Work Fixed
bought = record {
  pos = record {
    symbol = "EURUSD";
    direction = buy;
    entry = whole 100;
    qty = whole 10;
    atr = whole 1;
    leg = "mt5_forex";
    stop = whole 98;
    r_value = whole 2;
    stop_order_id = "S1";
    state = risk_on;
    extreme = whole 100;
    bars_no_progress = 0;
    partials_taken = [];
    remaining_qty = whole 10;
    lot_size = whole 1;
    opened_at = whole 0;
    profit_locked = false;
    telemetry = none;
  };
  modify_calls = 0;
  calls = [];
}

abbrev config : ExitConfig Fixed
config = record {
  k_sl_initial = ("mt5_forex", whole 2) ∷ [];
  min_ratchet_step_atr = nano 100000000;
  k_trail_by_regime = ("RANGE", whole 2) ∷ ("SHOCK", whole 1) ∷ [];
  event_tighten_minutes = whole 30;
  crypto_weekend_policy = "tighten";
  max_bars_no_progress = ("mt5_forex", 20) ∷ [];
  breakeven_at_r = whole 1;
  partials =
      record { at_r = whole 1; pct = whole 50 } ∷ record { at_r = whole 2; pct = whole 25 } ∷ [];
  profit_lock = none;
}

abbrev broker : Outside Fixed
broker = record {
  has_replace_stop = true;
  has_cancel_stop = true;
  on_partial = false;
  on_exit = true;
  answer = λ made c. some "S2";
}

-- a broker that answers no call
abbrev silent : Outside Fixed
silent = record broker { answer = λ made c. none }

abbrev quiet : Bar Fixed
quiet = record {
  high = whole 105;
  low = whole 101;
  close = whole 104;
  regime = record { trend_state = none; vol_regime = none };
  event_minutes = none;
  crypto_weekend = false;
}

abbrev fall : Bar Fixed
fall = record quiet { high = whole 99; low = whole 97; close = whole 98 }

-- Two units of profit: breakeven, both partials and the trail at 105 - 2.
trail_runs :
    let v = (on_bar config broker quiet bought).1 in
    (v.pos.state ≡ trailing)
    × (v.pos.stop ≡ whole 103)
    × (v.modify_calls ≡ 2)
    × (v.pos.remaining_qty ≡ whole 3)
unfolding on_bar ratchet_stop take_partial exit k_trail call fmin fmax ◌<F◌ ◌<=F◌ ◌==F◌
trail_runs = (refl, refl, refl, refl)

never_widen_example :
    let v = run_operations config broker (bar quiet ∷ force (whole 90) ∷ bar fall ∷ []) bought in
    NotWider buy (whole 98) v.pos.stop × Ratchets bought v
never_widen_example =
    never_widen config broker (bar quiet ∷ force (whole 90) ∷ bar fall ∷ []) bought

stop_hit_sends_nothing_example :
    let v = (on_bar config broker fall bought).1 in
    let told = some (exit_telemetry bought.pos (whole 98) "stop_hit") in
    (v.pos ≡ record bought.pos { telemetry = told; state = exited })
    × (v.calls ≡ (
        if broker.on_exit
        then bought.calls ++ (position_exited "EURUSD" told ∷ [])
        else bought.calls))
unfolding ◌<F◌ ◌<=F◌
stop_hit_sends_nothing_example =
    stop_hit_sends_nothing config broker fall bought refl refl refl refl

force_stop_change_lem_test :
    ((force_stop_change config broker (whole 97) bought).0 ≡ err stop_widen_attempt)
    ↔ (improving bought.pos (whole 97) ≡ false)
force_stop_change_lem_test = force_stop_change_lem config broker (whole 97) bought

closed_for_good_example :
    let v = (manual_exit silent (whole 101) "manual_close" bought).1 in
    (v.pos.state ≡ exited)
    × ((b : Bar Fixed) → on_bar config silent b v ≡ (ok [], v))
    × ((p : Fixed) (r : String) → manual_exit silent p r v ≡ (err no_open_position, v))
closed_for_good_example = closed_for_good config silent (whole 101) "manual_close" bought

-- The market order failed, and the position is EXITED with its whole quantity.
exit_fails :
    let (r, v) = manual_exit silent (whole 101) "manual_close" bought in
    (r ≡ err call_failed) × (v.pos.remaining_qty ≡ whole 10)
unfolding manual_exit exit call ◌<F◌ ◌<=F◌ ◌==F◌
exit_fails = (refl, refl)

lost_modification_example :
    let (r, v) = force_stop_change config silent (whole 99) bought in
    (r ≡ err call_failed)
    × (v.pos.stop ≡ whole 99)
    × (v.modify_calls ≡ bought.modify_calls)
    × (force_stop_change config broker (whole 99) v ≡ (err stop_widen_attempt, v))
unfolding ◌<F◌
lost_modification_example = lost_modification config silent broker (whole 99) bought refl refl refl

abbrev entry : NewPosition Fixed
entry = record {
  symbol = "EURUSD";
  direction = buy;
  entry = whole 100;
  qty = whole 10;
  atr = whole 1;
  leg = "mt5_forex";
  structure_stop = some (whole 97);
  lot_size = whole 1;
  now = whole 0;
}

abbrev empty : ExitManager Fixed
empty = record { positions = []; modify_calls = 0; calls = [] }

abbrev manager : ExitManager Fixed
manager = record { positions = ("EURUSD", bought.pos) ∷ []; modify_calls = 0; calls = [] }

-- The stop of the structure is the wider one.
attach_runs :
    let (r, m') = attach config broker entry empty in
    (m'.calls ≡ (stop_order entry (whole 97) ∷ [])) × (naked_positions m' ≡ [])
unfolding attach naked_positions fmax ◌<F◌ ◌<=F◌
attach_runs = (refl, refl)

attach_lem_example :
    let (r, m') = attach config broker entry empty in
    ((p : ManagedPosition Fixed)
      → r ≡ ok p
      → (lookup "EURUSD" m'.positions ≡ some p)
        × (broker.answer [] (place_stop "EURUSD" entry.qty p.stop entry.leg entry.direction)
            ≡ some p.stop_order_id)
        × (m'.calls ≡ [] ++ (place_stop "EURUSD" entry.qty p.stop entry.leg entry.direction ∷ []))
        × (p.qty ≡ entry.qty)
        × (p.remaining_qty ≡ entry.qty))
    × ((x : ExitError) → r ≡ err x → m'.positions ≡ [])
attach_lem_example = attach_lem config broker entry empty

restart_keeps_example :
    lookup "EURUSD" (from_snapshot [] (to_snapshot manager)).positions ≡ some bought.pos
restart_keeps_example = restart_keeps [] manager "EURUSD" (refl, tt)
