-- ===== src/KillSwitch/Tests.antt =====
-- Runs of src/core/kill_switch.py with one broker that answers and one that does not.
use mathlib.Core.List.{Memᴰ}
use text.Mathlib.Text.{◌==◌ as str_eq}
use trading_os.Common.{◌≡◌, ◌≢◌, ◌↔◌, ◌⊎◌, refl, Bool, true, false, Option, none, some, [], ◌∷◌}
use trading_os.Common.Effects.{ok, err}
use trading_os.Float.Fixed.{Fixed, fixed_float, whole, nano}
use trading_os.KillSwitch.Switch.{
  Value, is_set, World, Broker, Config, KillReport, Reason, manual, fetch_positions_failed,
  cancel_failed, audit_failed, sentinel_not_written, is_halted, require_trading_allowed, kill_all,
  unlock, check_auto_triggers, finish, opened, cancel_all, close_all, sweep, sweep_orders,
  sweep_positions, notify,
}
use trading_os.KillSwitch.Halting.{
  redis_becomes, require_trading_allowed_iff, kill_all_halts, unlock_lem, LossBreached, VarBreached,
  check_auto_triggers_lem,
}
use trading_os.KillSwitch.Sweep.{Swept, kill_all-Swept}

abbrev calm : World
calm = record { redis_up = true; halt_flag = none; sentinel = false; disk_ok = true }

abbrev broker : Broker
broker = record {
  open_orders = some ("1" ∷ "2" ∷ []);
  cancel_order = λ oid. str_eq oid "1";
  open_positions = none;
  close_position = λ pid. true;
}

abbrev config : Config Fixed
config = record {
  brokers = ("india", some broker) ∷ ("mt5", none) ∷ [];
  unlock_phrase = "resume";
  auto_daily_loss = nano 30000000;
  auto_var = true;
  max_var_daily = nano 20000000;
  audit_fn = some (λ report. false);
  alert_fn = none;
}

abbrev why : Reason Fixed
why = manual "panic"

kill_all_runs :
    (kill_all config why (whole 1) calm).0
    ≡ ok (record {
      reason = why;
      triggered_at = whole 1;
      orders_cancelled = ("india", "1") ∷ [];
      positions_closed = [];
      failures = cancel_failed "india" "2" ∷ fetch_positions_failed "india" ∷ audit_failed ∷ [];
    })
unfolding kill_all finish sweep sweep_orders sweep_positions cancel_all close_all notify
kill_all_runs = refl

require_trading_allowed_iff_test :
    ((require_trading_allowed calm).0 ≡ ok tt)
    ↔ ((calm.redis_up ≡ true) × (is_set calm.halt_flag ≡ false) × (calm.sentinel ≡ false))
require_trading_allowed_iff_test = require_trading_allowed_iff calm

kill_all_halts_example :
    let (result, w') = kill_all config why (whole 1) calm in
    ((calm.disk_ok ≡ true)
      × (result ≡ ok (finish config (opened true why (whole 1))))
      × ((up : Bool) (flag : Option Value) → is_halted (redis_becomes up flag w') ≡ true))
    ⊎ (calm.disk_ok ≡ false) × (result ≡ err sentinel_not_written) × (is_halted w' ≡ true)
kill_all_halts_example = kill_all_halts config why (whole 1) calm

unlock_lem_test :
    let (result, w') = unlock config "resume" calm in
    ((result ≡ ok tt)
      ↔ ((config.unlock_phrase ≢ "") × ("resume" ≡ config.unlock_phrase) × (calm.redis_up ≡ true)))
    × (result ≡ ok tt → is_halted w' ≡ false)
    × (result ≢ ok tt → w' ≡ calm)
unlock_lem_test = unlock_lem config "resume" calm

check_auto_triggers_lem_example :
    let (result, w') = check_auto_triggers config (whole 1) none (some (nano 25000000)) calm in
    (LossBreached config none ⊎ VarBreached config (some (nano 25000000))
      → (result ≢ ok none) × (is_halted w' ≡ true))
    × (¬ LossBreached config none
        → ¬ VarBreached config (some (nano 25000000))
        → (result ≡ ok none) × (w' ≡ calm))
check_auto_triggers_lem_example =
    check_auto_triggers_lem config (whole 1) none (some (nano 25000000)) calm

kill_all-Swept_example :
    (report : KillReport Fixed) × (((kill_all config why (whole 1) calm).0 ≡ ok report)
      × Swept Fixed "india" broker report)
kill_all-Swept_example =
    kill_all-Swept config why (whole 1) calm "india" broker refl (Memᴰ.head refl)
