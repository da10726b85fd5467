-- ===== src/Exits/Bars.antt =====
-- src/exits/exit_manager.py: `on_bar`, the life of a position from bar to bar.
use trading_os.Common.{
  ℕ, suc, leb, String, Bool, true, false, not, ◌&&◌, ◌||◌, Option, none, some, List, [], ◌∷◌, ◌++◌,
  get_or, if◌then◌else◌,
}
use trading_os.Common.Dict.{lookup}
use trading_os.Common.Effects.{ok, pure, raise, gets, ◌>>=◌, ◌>>◌}
use text.Mathlib.Text.{◌==◌ as str_eq}
use trading_os.Float.{Float, ◌+F◌, ◌-F◌, ◌*F◌, ◌/F◌, ◌<F◌, ◌<=F◌, ◌==F◌, fmax, fmin}
use trading_os.Exits.Position.{
  ManagedPosition, ExitConfig, Partial, ProfitLock, Outside, breakeven, trailing, missing_key, Work,
  WorkMethod, is_long, is_exited, is_risk_on, is_breakeven, update,
}
use trading_os.Exits.Moves.{
  ratchet_stop, r_multiple, take_partial, exit, force_stop_change, manual_exit,
}

pub record Regime : Type 0 where
  pub trend_state : Option String
  pub vol_regime : Option String

-- The arguments of `on_bar` after the symbol.
pub record Bar (F : Type 0) : Type 0 where
  pub high : F
  pub low : F
  pub close : F
  pub regime : Regime
  pub event_minutes : Option F
  pub crypto_weekend : Bool

pub data Action (F : Type 0) : Type 0 where
  skipped_corrupt_bar exit_weekend_flatten exit_stop_hit exit_time_stop : Action F
  stop_to_breakeven partial_1 partial_2 : Action F
  locked trail : F → Action F

abbrev pub is_shock : Regime → Bool
is_shock regime = elim regime.vol_regime [ none ↦ false | some v ↦ str_eq v "SHOCK" ]

module _ {F : Type 0} ⦃fl : Float F⦄ where
  open fl use {is_finite, lit}

  abbrev pub key_of : {A : Type 0} → Option A → WorkMethod F A
  key_of none = raise missing_key
  key_of (some a) = pure a

  -- `actions.append(a)`, if the step was taken
  abbrev pub noted : Action F → Bool → List (Action F)
  noted a taken = if taken then a ∷ [] else []

  abbrev pub near_event : ExitConfig F → Option F → Bool
  near_event cfg none = false
  near_event cfg (some minutes) = minutes <=F cfg.event_tighten_minutes

  abbrev pub halve : Bool → F → F
  halve c k = if c then k /F lit 2 0 else k

  -- `_k_trail`
  unfoldable pub k_trail : ExitConfig F → Bar F → String → WorkMethod F F
  k_trail cfg bar leg = do
    let weekend =
        bar.crypto_weekend
        && (str_eq leg "mt5_crypto" && str_eq cfg.crypto_weekend_policy "tighten")
    range ← key_of (lookup "RANGE" cfg.k_trail_by_regime)
    let usual = get_or (lookup (get_or bar.regime.trend_state "RANGE") cfg.k_trail_by_regime) range
    k ← if is_shock bar.regime then key_of (lookup "SHOCK" cfg.k_trail_by_regime) else pure usual
    pure (halve weekend (halve (near_event cfg bar.event_minutes) k))

  -- 2. extremes and progress
  abbrev pub progress : Bar F → ManagedPosition F → ManagedPosition F
  progress bar pos =
      let new_extreme =
        if is_long pos then fmax pos.extreme bar.high else fmin pos.extreme bar.low in
      if not (new_extreme ==F pos.extreme)
      then record pos { extreme = new_extreme; bars_no_progress = 0 }
      else record pos { bars_no_progress = suc pos.bars_no_progress }

  abbrev pub among : F → List F → Bool
  among x [] = false
  among x (y ∷ ys) = (x ==F y) || among x ys

  -- a partial that was not taken before
  abbrev pub partial_once : Outside F → Partial F → F → Action F → WorkMethod F (List (Action F))
  partial_once out p close action w =
      if among p.at_r w.pos.partials_taken
      then (ok [], w)
      else (take_partial out p.at_r p.pct close >> pure (action ∷ [])) w

  abbrev pub partial_at :
      Outside F → Option (Partial F) → F → Action F → WorkMethod F (List (Action F))
  partial_at out none close action = pure []
  partial_at out (some p) close action = partial_once out p close action

  abbrev pub first : List (Partial F) → Option (Partial F)
  first [] = none
  first (p ∷ ps) = some p

  abbrev pub second : List (Partial F) → Option (Partial F)
  second [] = none
  second (p ∷ ps) = first ps

  -- 4. breakeven and the first partial
  abbrev pub to_breakeven : ExitConfig F → Outside F → Bar F → WorkMethod F (List (Action F))
  to_breakeven cfg out bar = do
    pos ← gets (λ w. w.pos)
    moved ← ratchet_stop cfg out pos.entry false
    taken ← partial_at out (first cfg.partials) bar.close partial_1
    update (λ p. record p { state = breakeven })
    pure (noted stop_to_breakeven moved ++ taken)

  abbrev pub breakeven_step : ExitConfig F → Outside F → Bar F → F → WorkMethod F (List (Action F))
  breakeven_step cfg out bar r_now w =
      if is_risk_on w.pos && (cfg.breakeven_at_r <=F r_now)
      then to_breakeven cfg out bar w
      else (ok [], w)

  -- 5. the second partial
  abbrev pub trailing_if_due :
      Outside F → Option (Partial F) → Bar F → F → WorkMethod F (List (Action F))
  trailing_if_due out none bar r_now w = (ok [], w)
  trailing_if_due out (some p) bar r_now w =
      if is_breakeven w.pos && (p.at_r <=F r_now)
      then (do
        taken ← partial_once out p bar.close partial_2
        update (λ p. record p { state = trailing })
        pure taken)
          w
      else (ok [], w)

  abbrev pub trailing_step : ExitConfig F → Outside F → Bar F → F → WorkMethod F (List (Action F))
  trailing_step cfg out = trailing_if_due out (second cfg.partials)

  -- 5.5 the profit lock
  abbrev pub lock_level : ManagedPosition F → ProfitLock F → F
  lock_level pos pl =
      if is_long pos
      then pos.entry +F pl.lock_r *F pos.r_value
      else pos.entry -F pl.lock_r *F pos.r_value

  abbrev pub lock_if_due :
      ExitConfig F → Outside F → Option (ProfitLock F) → F → WorkMethod F (List (Action F))
  lock_if_due cfg out none r_now w = (ok [], w)
  lock_if_due cfg out (some pl) r_now w =
      if not w.pos.profit_locked && (pl.at_r <=F r_now)
      then (do
        moved ← ratchet_stop cfg out (lock_level w.pos pl) false
        update (λ p. record p { profit_locked = true })
        pure (noted (locked pl.lock_r) moved))
          w
      else (ok [], w)

  -- 6. the chandelier trail
  abbrev pub tight : Bool → Option (ProfitLock F) → F → F
  tight is_locked none k = k
  tight is_locked (some pl) k = if is_locked then fmin k pl.trail_k else k

  abbrev pub chandelier : ManagedPosition F → F → F
  chandelier pos k =
      if is_long pos then pos.extreme -F k *F pos.atr else pos.extreme +F k *F pos.atr

  abbrev pub trails : ManagedPosition F → Bool
  trails pos = elim pos.state [ breakeven ↦ true | trailing ↦ true | _ ↦ pos.profit_locked ]

  abbrev pub trail_step : ExitConfig F → Outside F → Bar F → WorkMethod F (List (Action F))
  trail_step cfg out bar w =
      if trails w.pos
      then (do
        usual ← k_trail cfg bar w.pos.leg
        let k = tight w.pos.profit_locked cfg.profit_lock usual
        moved ← ratchet_stop cfg out (chandelier w.pos k) false
        pure (noted (trail k) moved))
          w
      else (ok [], w)

  abbrev pub later_steps : ExitConfig F → Outside F → Bar F → F → WorkMethod F (List (Action F))
  later_steps cfg out bar r_now = do
    first_actions ← breakeven_step cfg out bar r_now
    second_actions ← trailing_step cfg out bar r_now
    lock_actions ← lock_if_due cfg out cfg.profit_lock r_now
    trail_actions ← trail_step cfg out bar
    pure (first_actions ++ second_actions ++ lock_actions ++ trail_actions)

  abbrev pub leave : Action F → WorkMethod F (Unit {0}) → WorkMethod F (List (Action F))
  leave a m = m >> pure (a ∷ [])

  -- 3. the time stop, and the steps after it
  abbrev pub by_limit : ExitConfig F → Outside F → Bar F → ℕ → WorkMethod F (List (Action F))
  by_limit cfg out bar limit w =
      if leb limit w.pos.bars_no_progress
      then leave exit_time_stop (exit out bar.close "time_stop_no_progress") w
      else later_steps cfg out bar (r_multiple w.pos bar.close) w

  abbrev pub time_stop : ExitConfig F → Outside F → Bar F → WorkMethod F (List (Action F))
  time_stop cfg out bar w =
      (key_of (lookup w.pos.leg cfg.max_bars_no_progress) >>= by_limit cfg out bar) w

  abbrev pub corrupt : Bar F → Bool
  corrupt bar =
      not (is_finite bar.high && (is_finite bar.low && is_finite bar.close))
      || (bar.high <F bar.low)

  abbrev pub stop_hit : Bar F → ManagedPosition F → Bool
  stop_hit bar pos = if is_long pos then bar.low <=F pos.stop else pos.stop <=F bar.high

  abbrev pub flattens : ExitConfig F → Bar F → ManagedPosition F → Bool
  flattens cfg bar pos =
      bar.crypto_weekend
      && (str_eq pos.leg "mt5_crypto" && str_eq cfg.crypto_weekend_policy "flatten")

  -- `on_bar` of a position that the manager has
  unfoldable pub on_bar : ExitConfig F → Outside F → Bar F → WorkMethod F (List (Action F))
  unfolding ratchet_stop take_partial exit k_trail
  on_bar cfg out bar w =
      if is_exited w.pos
      then (ok [], w)
      else if corrupt bar
      then (ok (skipped_corrupt_bar ∷ []), w)
      else if flattens cfg bar w.pos
      then leave exit_weekend_flatten (exit out bar.close "crypto_weekend_flatten") w
      else if stop_hit bar w.pos
      then leave exit_stop_hit (exit out w.pos.stop "stop_hit") w
      else (update (progress bar) >> time_stop cfg out bar) w

-- A call of one method on a position, with its arguments.
pub data Operation (F : Type 0) : Type 0 where
  bar : Bar F → Operation F
  force : F → Operation F
  close_by_hand : F → String → Operation F

module _ {F : Type 0} ⦃fl : Float F⦄ where
  unfoldable pub apply_operation : ExitConfig F → Outside F → Operation F → WorkMethod F (Unit {0})
  apply_operation cfg out (bar b) = on_bar cfg out b >> pure tt
  apply_operation cfg out (force new_stop) = force_stop_change cfg out new_stop
  apply_operation cfg out (close_by_hand price reason) = manual_exit out price reason

  -- A history of calls, each of which may raise: the caller goes on with the position as it is.
  unfoldable pub run_operations : ExitConfig F → Outside F → List (Operation F) → Work F → Work F
  run_operations cfg out [] w = w
  run_operations cfg out (o ∷ os) w = run_operations cfg out os (apply_operation cfg out o w).1
