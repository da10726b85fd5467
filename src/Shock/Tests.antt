-- ===== src/Shock/Tests.antt =====
-- A spread that opens, with Redis away, and the theorems at it.
use trading_os.Common.{◌≡◌, refl, ℕ, pos, true, false, some, none, List, [], ◌∷◌, ◌++◌, arith}
use trading_os.Float.{◌<F◌, ◌<=F◌, fmax, ◌-F◌}
use trading_os.Float.Fixed.{Fixed, fixed_float, whole}
use trading_os.Shock.Window.{Tick, TickWindow, add, add-recent, recent, return_over, volume_over}
use trading_os.Shock.Guard.{
  Trigger, spread_blowout, pause_set_failed, ShockConfig, ShockAnswers, AnomalyGuard, prime, detect,
  act_on_shock, process_tick,
}
use trading_os.Shock.Reflex.{reflex_is_complete, calls_for, events_for}
use trading_os.Shock.Cooloff.{Arrival, shocks, AreSpaced, shocks-AreSpaced}

abbrev cfg : ShockConfig Fixed
cfg = record {
  k_1s = whole 6;
  k_5s = whole 5;
  k_30s = whole 4;
  spread_mult = whole 3;
  volume_mult = whole 5;
  cooloff_seconds = whole 300;
  pause_ttl = pos 300;
  has_cancel = true;
  has_tighten = false;
  has_alert = true;
}

abbrev redis_away : ShockAnswers Fixed
redis_away = record {
  redis = some "refused";
  cancel = none;
  tighten = none;
  alert = none;
  now = whole 7;
}

abbrev primed : AnomalyGuard Fixed
unfolding prime
primed =
    prime "TCS" (whole 0) (whole 0) (whole 0) (whole 1) (whole 0)
      (record { windows = []; baselines = []; last_shock_ts = []; events = []; calls = [] })

abbrev wide : ℕ → Tick Fixed
wide n = record {
  ts = whole n;
  price = whole 100;
  bid = whole 98;
  ask = whole 102;
  volume = whole 1;
}

abbrev blown : Trigger Fixed
blown = spread_blowout (whole 4) (whole 1)

pause_failed :
    (process_tick cfg redis_away "TCS" (wide 5) primed).1.events
    ≡ (record { symbol = "TCS"; trigger = blown; ts = whole 5 })
      ∷ (record { symbol = "TCS"; trigger = pause_set_failed "refused"; ts = whole 7 })
      ∷ []
unfolding process_tick prime act_on_shock detect add return_over volume_over ◌<F◌ ◌<=F◌ fmax
pause_failed = refl

reflex_is_complete_example :
    ((process_tick cfg redis_away "TCS" (wide 5) primed).1.calls
      ≡ [] ++ calls_for cfg "TCS" (process_tick cfg redis_away "TCS" (wide 5) primed).0)
    × ((process_tick cfg redis_away "TCS" (wide 5) primed).1.events
        ≡ []
          ++ events_for cfg redis_away "TCS"
              (whole 5)
              (process_tick cfg redis_away "TCS" (wide 5) primed).0)
unfolding prime
reflex_is_complete_example = reflex_is_complete cfg redis_away "TCS" (wide 5) primed

abbrev arrives : ℕ → Arrival Fixed
arrives n = record { symbol = "TCS"; tick = wide n; answers = redis_away }

abbrev arrivals : List (Arrival Fixed)
arrivals = arrives 5 ∷ arrives 100 ∷ arrives 305 ∷ []

two_shocks : shocks cfg arrivals primed ≡ ("TCS", whole 5) ∷ ("TCS", whole 305) ∷ []
unfolding shocks process_tick prime act_on_shock detect add return_over volume_over ◌<F◌ ◌<=F◌ fmax
two_shocks = refl

shocks-AreSpaced_example : AreSpaced cfg (shocks cfg arrivals primed)
shocks-AreSpaced_example = shocks-AreSpaced cfg arrivals primed

abbrev window : TickWindow Fixed
window = record { ticks = wide 1 ∷ wide 50 ∷ []; max_age = whole 60 }

add-recent_example :
    (add (wide 70) window).ticks
    ≡ recent ((wide 70).ts -F window.max_age) (wide 1 ∷ wide 50 ∷ wide 70 ∷ [])
add-recent_example = add-recent (wide 70) window (
  ((refl, refl, omega arith), ((refl, refl, omega arith), tt)),
  (((refl, refl, omega arith), tt), (tt, tt)),
)
