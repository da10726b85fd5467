-- ===== src/KillSwitch/Switch.antt =====
-- src/core/kill_switch.py: `KillSwitch`. Redis and the sentinel file are the state; whether Redis answers
-- and whether the file can be written are part of it, and may change between calls. What a broker
-- and the two notification functions answer to each call is an argument.
use text.Mathlib.Text.{◌==◌ as str_eq}
use trading_os.Common.{
  ℕ, Bool, true, false, not, ◌&&◌, ◌||◌, Option, none, some, List, [], ◌∷◌, ◌++◌, String, nat_eq,
  if◌then◌else◌,
}
use trading_os.Common.Effects.{ok, err, Method}
use trading_os.Float.{Float, ◌<F◌, ◌<=F◌}

-- A value that `redis.get` can return.
pub data Value : Type 0 where
  str bytes : String → Value
  number : ℕ → Value
  truth : Bool → Value

-- `flag in ("1", b"1", 1, True, "true")`; `True == 1` in Python
abbrev pub is_set : Option Value → Bool
is_set none = false
is_set (some (str s)) = str_eq s "1" || str_eq s "true"
is_set (some (bytes s)) = str_eq s "1"
is_set (some (number n)) = nat_eq n 1
is_set (some (truth b)) = b

pub record World : Type 0 where
  pub redis_up : Bool
  pub halt_flag : Option Value
  pub sentinel : Bool
  pub disk_ok : Bool

pub data Failure : Type 0 where
  redis_set_failed audit_failed alert_failed : Failure
  fetch_orders_failed fetch_positions_failed : String → Failure
  cancel_failed close_failed : String → String → Failure

-- The answers of one broker: None stands for an exception of the fetch, and a Boolean says whether
-- the call for an id went through. Each listed order and position is its id: one without an "id" key
-- raises a KeyError out of the sweep, which is not modelled.
pub record Broker : Type 0 where
  pub open_orders : Option (List String)
  pub cancel_order : String → Bool
  pub open_positions : Option (List String)
  pub close_position : String → Bool

pub data Reason (F : Type 0) : Type 0 where
  manual : String → Reason F
  daily_loss var_breach : F → F → Reason F

-- A leg's name with an id, as `f"{leg_name}:{oid}"` shows them.
pub record KillReport (F : Type 0) : Type 0 where
  pub reason : Reason F
  pub triggered_at : F
  pub orders_cancelled : List (String × String)
  pub positions_closed : List (String × String)
  pub failures : List Failure

pub record Config (F : Type 0) : Type 0 where
  pub brokers : List (String × Option Broker)
  pub unlock_phrase : String
  pub auto_daily_loss : F
  pub auto_var : Bool
  pub max_var_daily : F
  pub audit_fn : Option (KillReport F → Bool)
  pub alert_fn : Option (KillReport F → Bool)

pub data SwitchError : Type 0 where
  trading_halted sentinel_not_written wrong_phrase redis_unreachable : SwitchError

abbrev pub SwitchMethod : Type 0 → Type 0
SwitchMethod A = Method World SwitchError A

unfoldable pub is_halted : World → Bool
is_halted w = if w.redis_up then is_set w.halt_flag || w.sentinel else true

unfoldable pub require_trading_allowed : SwitchMethod (Unit {0})
unfolding is_halted
require_trading_allowed w = if is_halted w then (err trading_halted, w) else (ok tt, w)

-- `redis.set(HALT_KEY, "1")`, which does nothing if Redis is away
abbrev raise_flag : World → World
raise_flag w = if w.redis_up then record w { halt_flag = some (str "1") } else w

module _ {F : Type 0} where
  abbrev pub failure : Failure → KillReport F → KillReport F
  failure f report = record report { failures = report.failures ++ (f ∷ []) }

  abbrev pub cancelled : String → String → KillReport F → KillReport F
  cancelled leg oid report = record report {
    orders_cancelled = report.orders_cancelled ++ ((leg, oid) ∷ []);
  }

  abbrev pub closed : String → String → KillReport F → KillReport F
  closed leg pid report = record report {
    positions_closed = report.positions_closed ++ ((leg, pid) ∷ []);
  }

  -- `for order in orders`
  unfoldable pub cancel_all : String → Broker → List String → KillReport F → KillReport F
  cancel_all leg broker [] report = report
  cancel_all leg broker (oid ∷ rest) report = cancel_all leg broker rest (
      if broker.cancel_order oid
      then cancelled leg oid report
      else failure (cancel_failed leg oid) report)

  -- `for pos in positions`
  unfoldable pub close_all : String → Broker → List String → KillReport F → KillReport F
  close_all leg broker [] report = report
  close_all leg broker (pid ∷ rest) report = close_all leg broker rest (
      if broker.close_position pid
      then closed leg pid report
      else failure (close_failed leg pid) report)

  unfoldable pub sweep_orders : String → Broker → KillReport F → KillReport F
  sweep_orders leg broker report = elim broker.open_orders [
    | none ↦ failure (fetch_orders_failed leg) report
    | some orders ↦ cancel_all leg broker orders report
  ]

  unfoldable pub sweep_positions : String → Broker → KillReport F → KillReport F
  sweep_positions leg broker report = elim broker.open_positions [
    | none ↦ failure (fetch_positions_failed leg) report
    | some positions ↦ close_all leg broker positions report
  ]

  -- `for leg_name, broker in self.brokers.items()`
  unfoldable pub sweep : List (String × Option Broker) → KillReport F → KillReport F
  sweep [] report = report
  sweep ((leg, none) ∷ rest) report = sweep rest report
  sweep ((leg, some broker) ∷ rest) report =
      sweep rest (sweep_positions leg broker (sweep_orders leg broker report))

  -- an optional notification, which must not mask the kill
  unfoldable pub notify : Option (KillReport F → Bool) → Failure → KillReport F → KillReport F
  notify none f report = report
  notify (some fn) f report = if fn report then report else failure f report

  abbrev blank : Reason F → F → KillReport F
  blank reason now = record {
    reason = reason;
    triggered_at = now;
    orders_cancelled = [];
    positions_closed = [];
    failures = [];
  }

  -- the report after `redis.set`, which may fail
  abbrev pub opened : Bool → Reason F → F → KillReport F
  opened up reason now =
      if up then blank reason now else failure redis_set_failed (blank reason now)

  -- from the flags on: brokers, then audit, then alert
  unfoldable pub finish : Config F → KillReport F → KillReport F
  unfolding notify
  finish config report =
      notify config.alert_fn alert_failed
        (notify config.audit_fn audit_failed (sweep config.brokers report))

  unfoldable pub kill_all : Config F → Reason F → F → SwitchMethod (KillReport F)
  kill_all config reason now w =
      let flagged = raise_flag w in
      if w.disk_ok
      then (ok (finish config (opened w.redis_up reason now)), record flagged { sentinel = true })
      else (err sentinel_not_written, flagged)

  unfoldable pub unlock : Config F → String → SwitchMethod (Unit {0})
  unlock config phrase w =
      if str_eq config.unlock_phrase "" || not (str_eq phrase config.unlock_phrase)
      then (err wrong_phrase, w)
      else if w.redis_up
      then (ok tt, record w { halt_flag = none; sentinel = false })
      else (err redis_unreachable, w)

module _ {F : Type 0} ⦃fl : Float F⦄ where
  -- the two tests, with the reason that each one gives
  abbrev pub loss_reason : Config F → Option F → Option (Reason F)
  loss_reason config none = none
  loss_reason config (some pnl) =
      if pnl <=F fl.neg config.auto_daily_loss
      then some (daily_loss pnl config.auto_daily_loss)
      else none

  abbrev pub var_reason : Config F → Option F → Option (Reason F)
  var_reason config none = none
  var_reason config (some var) =
      if config.auto_var && (config.max_var_daily <F var)
      then some (var_breach var config.max_var_daily)
      else none

  abbrev pub kill_if : Config F → F → Option (Reason F) → SwitchMethod (Option (KillReport F))
  kill_if config now none w = (ok none, w)
  kill_if config now (some reason) w =
      let (r, w') = kill_all config reason now w in
      elim r [ ok report ↦ (ok (some report), w') | err e ↦ (err e, w') ]

  -- `daily_pnl_pct` and `var_95` may be None.
  unfoldable pub check_auto_triggers :
      Config F → F → Option F → Option F → SwitchMethod (Option (KillReport F))
  unfolding kill_all
  check_auto_triggers config now daily_pnl_pct var_95 = elim (loss_reason config daily_pnl_pct) [
    | some reason ↦ kill_if config now (some reason)
    | none ↦ kill_if config now (var_reason config var_95)
  ]
