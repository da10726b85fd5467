-- ===== src/Shock/Guard.antt =====
-- src/intel/anomaly_guard.py: `AnomalyGuard`. Redis and the callbacks answer as the arguments say;
-- `calls` is the list of the calls made to them.
use trading_os.Common.{
  ℕ, ℤ, String, Bool, true, false, ◌&&◌, Option, none, some, List, [], ◌∷◌, ◌++◌, map, get_or,
  if◌then◌else◌,
}
use trading_os.Common.Dict.{Dict, lookup, insert}
use trading_os.Float.{Float, ◌-F◌, ◌*F◌, ◌<F◌, ◌<=F◌, fmax, nought}
use trading_os.Shock.Window.{Tick, TickWindow, add, return_over, volume_over}

-- The trigger of a shock event, with its details.
pub data Trigger (F : Type 0) : Type 0 where
  velocity : ℕ → F → F → Trigger F
  spread_blowout volume_spike : F → F → Trigger F
  pause_set_failed cancel_entries_failed tighten_exits_failed alert_failed : String → Trigger F

pub record ShockEvent (F : Type 0) : Type 0 where
  pub symbol : String
  pub trigger : Trigger F
  pub ts : F

pub record Baseline (F : Type 0) : Type 0 where
  pub sigma_1s : F
  pub sigma_5s : F
  pub sigma_30s : F
  pub median_spread : F
  pub volume_30s : F

pub data ShockCall (F : Type 0) : Type 0 where
  set_pause : ℤ → ShockCall F
  cancel_entries tighten_exits : String → ShockCall F
  send_alert : String → List (Trigger F) → ShockCall F

pub record ShockConfig (F : Type 0) : Type 0 where
  pub k_1s : F
  pub k_5s : F
  pub k_30s : F
  pub spread_mult : F
  pub volume_mult : F
  pub cooloff_seconds : F
  pub pause_ttl : ℤ  -- int(cooloff_seconds)
  pub has_cancel : Bool
  pub has_tighten : Bool
  pub has_alert : Bool

-- What the calls of one tick raise, or none.
pub record ShockAnswers (F : Type 0) : Type 0 where
  pub redis : Option String
  pub cancel : Option String
  pub tighten : Option String
  pub alert : Option String
  pub now : F

pub record AnomalyGuard (F : Type 0) : Type 0 where
  pub windows : Dict (TickWindow F)
  pub baselines : Dict (Baseline F)
  pub last_shock_ts : Dict F
  pub events : List (ShockEvent F)
  pub calls : List (ShockCall F)

module _ {F : Type 0} ⦃fl : Float F⦄ where
  open fl use {lit, abs}

  unfoldable pub prime : String → F → F → F → F → F → AnomalyGuard F → AnomalyGuard F
  prime symbol s1 s5 s30 spread volume g = record g {
    baselines =
        insert symbol
          (record {
            sigma_1s = s1;
            sigma_5s = s5;
            sigma_30s = s30;
            median_spread = spread;
            volume_30s = volume;
          })
          g.baselines;
  }

  abbrev pub new_window : TickWindow F
  new_window = record { ticks = []; max_age = lit 60 0 }

  -- one turn of the loop over the horizons
  abbrev pub too_fast : F → F → Option F → Option (F × F)
  too_fast k sigma none = none
  too_fast k sigma (some ret) = if (k *F sigma) <F abs ret then some (ret, k *F sigma) else none

  abbrev pub fast_over : F → F → F → TickWindow F → Option (F × F)
  fast_over k sigma seconds w =
      if sigma <=F nought then none else too_fast k sigma (return_over seconds w)

  -- the trigger of a horizon, else those of the longer ones
  abbrev pub or_longer : ℕ → Option (F × F) → List (Trigger F) → List (Trigger F)
  or_longer h (some r) longer = velocity h r.0 r.1 ∷ []
  or_longer h none longer = longer

  abbrev pub velocity_triggers : ShockConfig F → Baseline F → TickWindow F → List (Trigger F)
  velocity_triggers cfg base w = or_longer 1 (fast_over cfg.k_1s base.sigma_1s (lit 1 0) w) (
      or_longer 5 (fast_over cfg.k_5s base.sigma_5s (lit 5 0) w)
        (or_longer 30 (fast_over cfg.k_30s base.sigma_30s (lit 30 0) w) []))

  abbrev pub above : (F → F → Trigger F) → F → F → F → List (Trigger F)
  above trigger value mult baseline =
      if (nought <F baseline) && ((mult *F baseline) <F value)
      then trigger value baseline ∷ []
      else []

  -- the triggers of one tick
  unfoldable pub detect : ShockConfig F → Baseline F → Tick F → TickWindow F → List (Trigger F)
  detect cfg base tick w =
      (velocity_triggers cfg base w
        ++ above spread_blowout (fmax nought (tick.ask -F tick.bid)) cfg.spread_mult
            base.median_spread)
      ++ above volume_spike (volume_over (lit 30 0) w) cfg.volume_mult base.volume_30s

  abbrev pub at_symbol : String → F → List (Trigger F) → List (ShockEvent F)
  at_symbol symbol ts = map (λ t. record { symbol = symbol; trigger = t; ts = ts })

  -- a call in a `try` whose `except` records the failure
  abbrev pub attempt :
      String
      → F
      → ShockCall F
      → (String → Trigger F)
      → Option String
      → AnomalyGuard F
      → AnomalyGuard F
  attempt symbol now call failed none g = record g { calls = g.calls ++ (call ∷ []) }
  attempt symbol now call failed (some exc) g = record g {
    calls = g.calls ++ (call ∷ []);
    events = g.events ++ at_symbol symbol now (failed exc ∷ []);
  }

  abbrev pub attempt_if :
      Bool
      → String
      → F
      → ShockCall F
      → (String → Trigger F)
      → Option String
      → AnomalyGuard F
      → AnomalyGuard F
  attempt_if true symbol now call failed answer g = attempt symbol now call failed answer g
  attempt_if false symbol now call failed answer g = g

  unfoldable pub act_on_shock :
      ShockConfig F
      → ShockAnswers F
      → String
      → F
      → List (Trigger F)
      → AnomalyGuard F
      → AnomalyGuard F
  act_on_shock cfg out symbol ts triggers g =
      let recorded = record g { events = g.events ++ at_symbol symbol ts triggers } in
      let paused =
        attempt symbol out.now (set_pause cfg.pause_ttl) pause_set_failed out.redis recorded in
      let cancelled =
        attempt_if cfg.has_cancel symbol out.now (cancel_entries symbol) cancel_entries_failed
          out.cancel paused in
      let tightened =
        attempt_if cfg.has_tighten symbol out.now (tighten_exits symbol) tighten_exits_failed
          out.tighten cancelled in
      attempt_if cfg.has_alert symbol out.now (send_alert symbol triggers) alert_failed out.alert
        tightened

  abbrev pub cooling : ShockConfig F → F → Option F → Bool
  cooling cfg ts none = false
  cooling cfg ts (some last) = (ts -F last) <F cfg.cooloff_seconds

  abbrev pub fire :
      ShockConfig F
      → ShockAnswers F
      → String
      → F
      → List (Trigger F)
      → AnomalyGuard F
      → List (Trigger F) × AnomalyGuard F
  fire cfg out symbol ts [] g = ([], g)
  fire cfg out symbol ts (t ∷ more) g =
      if cooling cfg ts (lookup symbol g.last_shock_ts) then ([], g) else (
        t ∷ more,
        act_on_shock cfg out symbol ts (t ∷ more)
            (record g { last_shock_ts = insert symbol ts g.last_shock_ts }),
      )

  abbrev pub judge :
      ShockConfig F
      → ShockAnswers F
      → String
      → Tick F
      → TickWindow F
      → Option (Baseline F)
      → AnomalyGuard F
      → List (Trigger F) × AnomalyGuard F
  judge cfg out symbol tick w none g = ([], g)
  judge cfg out symbol tick w (some base) g = fire cfg out symbol tick.ts (detect cfg base tick w) g

  unfoldable pub process_tick :
      ShockConfig F
      → ShockAnswers F
      → String
      → Tick F
      → AnomalyGuard F
      → List (Trigger F) × AnomalyGuard F
  process_tick cfg out symbol tick g =
      let w = add tick (get_or (lookup symbol g.windows) new_window) in
      judge cfg out symbol tick w (lookup symbol g.baselines)
        (record g { windows = insert symbol w g.windows })

-- The answer of Redis to `get`.
pub data Flag : Type 0 where
  unreachable missing set other : Flag

unfoldable pub entries_paused : Flag → Bool
entries_paused unreachable = true
entries_paused missing = false
entries_paused set = true
entries_paused other = false
