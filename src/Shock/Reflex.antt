-- ===== src/Shock/Reflex.antt =====
-- src/intel/anomaly_guard.py: what a tick makes the guard do, whatever fails, and how far apart two
-- shocks of a symbol are.
use trading_os.Common.{
  ◌≡◌, refl, sym, ◌∙◌, String, Bool, true, false, Option, none, some, List, [], ◌∷◌, ◌++◌, get_or,
  if◌then◌else◌, ++-assoc, ++-nil,
}
use trading_os.Common.Dict.{Dict, lookup, insert}
use trading_os.Float.{Float}
use trading_os.Shock.Window.{Tick, TickWindow, add}
use trading_os.Shock.Guard.{
  Trigger, ShockEvent, Baseline, ShockCall, set_pause, cancel_entries, tighten_exits, send_alert,
  ShockConfig, ShockAnswers, AnomalyGuard, pause_set_failed, cancel_entries_failed,
  tighten_exits_failed, alert_failed, new_window, detect, at_symbol, attempt, attempt_if,
  act_on_shock, cooling, fire, judge, process_tick,
}

abbrev if_set : {A : Type 0} → Bool → A → List A
if_set true a = a ∷ []
if_set false a = []

module _ {F : Type 0} ⦃fl : Float F⦄ where
  -- the calls that a shock demands
  abbrev pub calls_for : ShockConfig F → String → List (Trigger F) → List (ShockCall F)
  calls_for cfg symbol [] = []
  calls_for cfg symbol (t ∷ ts) =
      ((set_pause cfg.pause_ttl ∷ []) ++ if_set cfg.has_cancel (cancel_entries symbol))
      ++ (if_set cfg.has_tighten (tighten_exits symbol)
          ++ if_set cfg.has_alert (send_alert symbol (t ∷ ts)))

  abbrev failure : String → F → Bool → (String → Trigger F) → Option String → List (ShockEvent F)
  failure symbol now false failed answer = []
  failure symbol now true failed none = []
  failure symbol now true failed (some exc) = at_symbol symbol now (failed exc ∷ [])

  -- the events that it leaves
  abbrev pub events_for :
      ShockConfig F → ShockAnswers F → String → F → List (Trigger F) → List (ShockEvent F)
  events_for cfg out symbol ts [] = []
  events_for cfg out symbol ts (t ∷ more) =
      at_symbol symbol ts (t ∷ more)
      ++ ((failure symbol out.now true pause_set_failed out.redis
            ++ failure symbol out.now cfg.has_cancel cancel_entries_failed out.cancel)
          ++ (failure symbol out.now cfg.has_tighten tighten_exits_failed out.tighten
              ++ failure symbol out.now cfg.has_alert alert_failed out.alert))

-- From one state to another the guard has made these calls, left these events, and kept its times.
pub record Acted {F : Type 0} ⦃fl : Float F⦄ (g h : AnomalyGuard F) (cs : List (ShockCall F))
    (es : List (ShockEvent F)) : Type 0 where
  pub calls : h.calls ≡ g.calls ++ cs
  pub events : h.events ≡ g.events ++ es
  pub times : h.last_shock_ts ≡ g.last_shock_ts

module _ {F : Type 0} ⦃fl : Float F⦄ where
  Acted-trans :
      (g h k : AnomalyGuard F) (cs ds : List (ShockCall F)) (es fs : List (ShockEvent F))
      → Acted g h cs es
      → Acted h k ds fs
      → Acted g k (cs ++ ds) (es ++ fs)
  Acted-trans g h k cs ds es fs p q = record {
    calls = cc (p.calls, q.calls, ++-assoc g.calls cs ds);
    events = cc (p.events, q.events, ++-assoc g.events es fs);
    times = q.times ∙ p.times;
  }

  attempt-Acted :
      (c : Bool) (symbol : String) (now : F) (call : ShockCall F) (failed : String → Trigger F)
      (answer : Option String) (g : AnomalyGuard F)
      → Acted g
          (attempt_if c symbol now call failed answer g)
          (if_set c call)
          (failure symbol now c failed answer)
  attempt-Acted true symbol now call failed none g = record {
    calls = refl;
    events = sym (++-nil g.events);
    times = refl;
  }
  attempt-Acted true symbol now call failed (some exc) g = record {
    calls = refl;
    events = refl;
    times = refl;
  }
  attempt-Acted false symbol now call failed answer g = record {
    calls = sym (++-nil g.calls);
    events = sym (++-nil g.events);
    times = refl;
  }

  act_on_shock-Acted :
      (cfg : ShockConfig F) (out : ShockAnswers F) (symbol : String) (ts : F) (t : Trigger F)
      (more : List (Trigger F)) (g : AnomalyGuard F)
      → Acted g
          (act_on_shock cfg out symbol ts (t ∷ more) g)
          (calls_for cfg symbol (t ∷ more))
          (events_for cfg out symbol ts (t ∷ more))
  unfolding act_on_shock
  act_on_shock-Acted cfg out symbol ts t more g =
      Acted-trans g g0 g4 [] _ (at_symbol symbol ts (t ∷ more)) _
        (record { calls = sym (++-nil g.calls); events = refl; times = refl })
        (Acted-trans g0 g2 g4 _ _ _ _
          (Acted-trans g0 g1 g2 _ _ _ _
            (attempt-Acted true symbol out.now (set_pause cfg.pause_ttl) pause_set_failed out.redis
              g0)
            (attempt-Acted cfg.has_cancel symbol out.now (cancel_entries symbol)
              cancel_entries_failed out.cancel g1))
          (Acted-trans g2 g3 g4 _ _ _ _
            (attempt-Acted cfg.has_tighten symbol out.now (tighten_exits symbol)
              tighten_exits_failed out.tighten g2)
            (attempt-Acted cfg.has_alert symbol out.now (send_alert symbol (t ∷ more)) alert_failed
              out.alert g3)))
    where
      g0 : AnomalyGuard F
      g0 = record g { events = g.events ++ at_symbol symbol ts (t ∷ more) }

      g1 : AnomalyGuard F
      g1 = attempt symbol out.now (set_pause cfg.pause_ttl) pause_set_failed out.redis g0

      g2 : AnomalyGuard F
      g2 =
          attempt_if cfg.has_cancel symbol out.now (cancel_entries symbol) cancel_entries_failed
            out.cancel g1

      g3 : AnomalyGuard F
      g3 =
          attempt_if cfg.has_tighten symbol out.now (tighten_exits symbol) tighten_exits_failed
            out.tighten g2

      g4 : AnomalyGuard F
      g4 =
          attempt_if cfg.has_alert symbol out.now (send_alert symbol (t ∷ more)) alert_failed
            out.alert g3

  -- What a tick's triggers and the state after it say of each other.
  abbrev pub Fired :
      ShockConfig F
      → ShockAnswers F
      → String
      → F
      → AnomalyGuard F
      → List (Trigger F)
      → AnomalyGuard F
      → Type 0
  Fired cfg out symbol ts g [] h = Acted g h [] []
  Fired cfg out symbol ts g (t ∷ more) h =
      (cooling cfg ts (lookup symbol g.last_shock_ts) ≡ false)
      × (h.last_shock_ts ≡ insert symbol ts g.last_shock_ts)
      × (h.calls ≡ g.calls ++ calls_for cfg symbol (t ∷ more))
      × (h.events ≡ g.events ++ events_for cfg out symbol ts (t ∷ more))

  unchanged : (g : AnomalyGuard F) → Acted g g [] []
  unchanged g = record {
    calls = sym (++-nil g.calls);
    events = sym (++-nil g.events);
    times = refl;
  }

  acting :
      (cfg : ShockConfig F) (out : ShockAnswers F) (symbol : String) (ts : F) (t : Trigger F)
      (more : List (Trigger F)) (g : AnomalyGuard F) (c : Bool)
      → cooling cfg ts (lookup symbol g.last_shock_ts) ≡ c
      → let p : List (Trigger F) × AnomalyGuard F =
          (if c then ([], g) else (
            t ∷ more,
            act_on_shock cfg out symbol ts
                (t ∷ more)
                (record g { last_shock_ts = insert symbol ts g.last_shock_ts }),
          )) in
        Fired cfg out symbol ts g p.0 p.1
  acting cfg out symbol ts t more g true e = unchanged g
  acting cfg out symbol ts t more g false e =
      let a =
        act_on_shock-Acted cfg out symbol ts t more
          (record g { last_shock_ts = insert symbol ts g.last_shock_ts }) in
      (e, a.times, a.calls, a.events)

  fire-Fired :
      (cfg : ShockConfig F) (out : ShockAnswers F) (symbol : String) (ts : F)
      (triggers : List (Trigger F)) (g : AnomalyGuard F)
      → Fired cfg out symbol ts g
          (fire cfg out symbol ts triggers g).0
          (fire cfg out symbol ts triggers g).1
  fire-Fired cfg out symbol ts [] g = unchanged g
  fire-Fired cfg out symbol ts (t ∷ more) g =
      acting cfg out symbol ts t more g (cooling cfg ts (lookup symbol g.last_shock_ts)) refl

  judge-Fired :
      (cfg : ShockConfig F) (out : ShockAnswers F) (symbol : String) (tick : Tick F)
      (w : TickWindow F) (base : Option (Baseline F)) (g : AnomalyGuard F)
      → Fired cfg out symbol tick.ts g
          (judge cfg out symbol tick w base g).0
          (judge cfg out symbol tick w base g).1
  judge-Fired cfg out symbol tick w none g = unchanged g
  judge-Fired cfg out symbol tick w (some base) g =
      fire-Fired cfg out symbol tick.ts (detect cfg base tick w) g

  -- the windows are not read
  windowed :
      (cfg : ShockConfig F) (out : ShockAnswers F) (symbol : String) (ts : F) (g : AnomalyGuard F)
      (ws : Dict (TickWindow F)) (triggers : List (Trigger F)) (h : AnomalyGuard F)
      → Fired cfg out symbol ts (record g { windows = ws }) triggers h
      → Fired cfg out symbol ts g triggers h
  windowed cfg out symbol ts g ws [] h a = record {
    calls = a.calls;
    events = a.events;
    times = a.times;
  }
  windowed cfg out symbol ts g ws (t ∷ more) h a = a

  pub process_tick-Fired :
      (cfg : ShockConfig F) (out : ShockAnswers F) (symbol : String) (tick : Tick F)
      (g : AnomalyGuard F)
      → Fired cfg out symbol tick.ts g
          (process_tick cfg out symbol tick g).0
          (process_tick cfg out symbol tick g).1
  unfolding process_tick
  process_tick-Fired cfg out symbol tick g =
      let w = add tick (get_or (lookup symbol g.windows) new_window) in
      windowed cfg out symbol tick.ts g (insert symbol w g.windows) _ _ (
        judge-Fired cfg out symbol tick w (lookup symbol g.baselines)
          (record g { windows = insert symbol w g.windows }))

  told :
      (cfg : ShockConfig F) (out : ShockAnswers F) (symbol : String) (ts : F) (g : AnomalyGuard F)
      (triggers : List (Trigger F)) (h : AnomalyGuard F)
      → Fired cfg out symbol ts g triggers h
      → (h.calls ≡ g.calls ++ calls_for cfg symbol triggers)
        × (h.events ≡ g.events ++ events_for cfg out symbol ts triggers)
  told cfg out symbol ts g [] h a = (a.calls, a.events)
  told cfg out symbol ts g (t ∷ more) h a = (a.2, a.3)

-- Whatever Redis and the callbacks answer: a tick that returns triggers has set the pause of
-- entries, asked for the entry orders to be cancelled, for the exits to be tightened and for an
-- alert, in this order and each once, as far as the callback is there; a call that raises stops none
-- of the later ones. The triggers are recorded before any of the failures. A tick that returns
-- nothing makes no call and leaves no event.
pub reflex_is_complete :
    {F : Type 0} ⦃fl : Float F⦄ (cfg : ShockConfig F) (out : ShockAnswers F) (symbol : String)
    (tick : Tick F) (g : AnomalyGuard F)
    → let r = process_tick cfg out symbol tick g in
      (r.1.calls ≡ g.calls ++ calls_for cfg symbol r.0)
      × (r.1.events ≡ g.events ++ events_for cfg out symbol tick.ts r.0)
reflex_is_complete cfg out symbol tick g =
    told cfg out symbol tick.ts g (process_tick cfg out symbol tick g).0
      (process_tick cfg out symbol tick g).1 (process_tick-Fired cfg out symbol tick g)
