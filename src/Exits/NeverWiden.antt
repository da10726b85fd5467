-- ===== src/Exits/NeverWiden.antt =====
-- src/exits/exit_manager.py: the stop of a position moves toward profit only, whatever is called.
use trading_os.Common.{
  ◌≡◌, refl, String, true, false, not, ◌&&◌, Option, none, some, List, [], ◌∷◌, ◌++◌, arith,
  if◌then◌else◌, get_or, leb, ℕ,
}
use trading_os.Common.Dict.{lookup}
use trading_os.Common.Effects.{Result, pure, raise_if, ◌>>=◌, ◌>>◌}
use trading_os.Common.Steps.{Respects, stay-Respects, >>=-Within, branch-Respects, choose-Within}
use trading_os.Float.{Float, ◌<=F◌}
use trading_os.Exits.Position.{
  ManagedPosition, ExitConfig, ExitError, Outside, breakeven, trailing, Work, WorkMethod, Partial,
  ProfitLock, is_risk_on, is_breakeven, is_exited, no_open_position, update,
}
use trading_os.Exits.Moves.{ratchet_stop, take_partial, exit, force_stop_change, manual_exit}
use trading_os.Exits.Bars.{
  Bar, Action, Operation, bar, force, close_by_hand, apply_operation, run_operations, on_bar,
  k_trail, key_of, is_shock, progress, among, partial_once, partial_at, first, breakeven_step,
  trailing_if_due, trailing_step, second, lock_level, lock_if_due, tight, chandelier, trails,
  trail_step, later_steps, leave, by_limit, time_stop, corrupt, stop_hit, flattens, noted, locked,
  trail, partial_1, partial_2, stop_to_breakeven, exit_time_stop,
}
use trading_os.Exits.Ladder.{
  NotWider, Ladder-NotWider, Ratchets, Ratchets-refl, Ratchets-IsPreorder,
}
use trading_os.Exits.SafeMoves.{Safe, update-Safe, ratchet_stop-Safe, take_partial-Safe, exit-Safe}

module _ {F : Type 0} ⦃fl : Float F⦄ where
  stay : {A : Type 0} (w : Work F) (r : Result ExitError A) → Respects Ratchets w (r, w)
  stay w r = stay-Respects Ratchets-IsPreorder w r

  then-Safe :
      {A B : Type 0} (m : WorkMethod F A) (f : A → WorkMethod F B)
      → Safe m
      → ((a : A) → Safe (f a))
      → Safe (m >>= f)
  then-Safe m f h k = >>=-Within Ratchets-IsPreorder m f h k

  pure-Safe : {A : Type 0} (a : A) → Safe (pure {S = Work F} {E = ExitError} a)
  pure-Safe a w = stay w _

  map-Safe : {A B : Type 0} (m : WorkMethod F A) (g : A → B) → Safe m → Safe (m >>= λ a. pure (g a))
  map-Safe m g h = then-Safe m (λ a. pure (g a)) h (λ a. pure-Safe (g a))

  -- An assignment that keeps the direction and the stop, and a result.
  set-Safe :
      {A : Type 0} (f : ManagedPosition F → ManagedPosition F) (a : A)
      → ((p : ManagedPosition F) → (f p).direction ≡ p.direction)
      → ((p : ManagedPosition F) → (f p).stop ≡ p.stop)
      → Safe (update f >> pure a)
  set-Safe f a h k = map-Safe (update f) (λ _. a) (update-Safe f h k)

  key_of-Safe : {A : Type 0} (o : Option A) → Safe {F = F} (key_of o)
  key_of-Safe none w = stay w _
  key_of-Safe (some a) w = stay w _

  k_trail-Safe : (cfg : ExitConfig F) (b : Bar F) (leg : String) → Safe (k_trail cfg b leg)
  unfolding k_trail
  k_trail-Safe cfg b leg =
      then-Safe (key_of (lookup "RANGE" cfg.k_trail_by_regime)) _ (key_of-Safe _) (λ range.
        then-Safe
          (if is_shock b.regime
            then key_of (lookup "SHOCK" cfg.k_trail_by_regime)
            else pure
                (get_or (lookup (get_or b.regime.trend_state "RANGE") cfg.k_trail_by_regime) range))
          _ (choose-Within (is_shock b.regime) (key_of-Safe _) (pure-Safe _)) (λ k. pure-Safe _))

  progress-direction : (b : Bar F) (p : ManagedPosition F) → (progress b p).direction ≡ p.direction
  progress-direction b p = ground arith

  progress-stop : (b : Bar F) (p : ManagedPosition F) → (progress b p).stop ≡ p.stop
  progress-stop b p = ground arith

  partial_once-Safe :
      (out : Outside F) (p : Partial F) (close : F) (a : Action F)
      → Safe (partial_once out p close a)
  partial_once-Safe out p close a w =
      branch-Respects w (among p.at_r w.pos.partials_taken) (stay w _) (
        map-Safe (take_partial out p.at_r p.pct close) (λ _. a ∷ []) (take_partial-Safe out _ _ _)
          w)

  partial_at-Safe :
      (out : Outside F) (p : Option (Partial F)) (close : F) (a : Action F)
      → Safe (partial_at out p close a)
  partial_at-Safe out none close a w = stay w _
  partial_at-Safe out (some p) close a w = partial_once-Safe out p close a w

  breakeven_step-Safe :
      (cfg : ExitConfig F) (out : Outside F) (b : Bar F) (r_now : F)
      → Safe (breakeven_step cfg out b r_now)
  breakeven_step-Safe cfg out b r_now w =
      let to = λ (p : ManagedPosition F). record p { state = breakeven } in
      branch-Respects w (is_risk_on w.pos && (cfg.breakeven_at_r <=F r_now))
        (then-Safe (ratchet_stop cfg out w.pos.entry false)
          (λ moved. partial_at out (first cfg.partials) b.close partial_1 >>= λ taken.
            update to >> pure (noted stop_to_breakeven moved ++ taken))
          (ratchet_stop-Safe cfg out w.pos.entry false)
          (λ moved.
            then-Safe (partial_at out (first cfg.partials) b.close partial_1)
              (λ taken. update to >> pure (noted stop_to_breakeven moved ++ taken))
              (partial_at-Safe out _ _ _) (λ taken. set-Safe to _ (λ _. refl) (λ _. refl)))
          w)
        (stay w _)

  trailing_if_due-Safe :
      (out : Outside F) (p : Option (Partial F)) (b : Bar F) (r_now : F)
      → Safe (trailing_if_due out p b r_now)
  trailing_if_due-Safe out none b r_now w = stay w _
  trailing_if_due-Safe out (some p) b r_now w =
      let to = λ (p : ManagedPosition F). record p { state = trailing } in
      branch-Respects w (is_breakeven w.pos && (p.at_r <=F r_now))
        (then-Safe (partial_once out p b.close partial_2) (λ taken. update to >> pure taken)
          (partial_once-Safe out p b.close partial_2)
          (λ taken. set-Safe to taken (λ _. refl) (λ _. refl)) w)
        (stay w _)

  lock_if_due-Safe :
      (cfg : ExitConfig F) (out : Outside F) (pl : Option (ProfitLock F)) (r_now : F)
      → Safe (lock_if_due cfg out pl r_now)
  lock_if_due-Safe cfg out none r_now w = stay w _
  lock_if_due-Safe cfg out (some pl) r_now w =
      let lock = λ (p : ManagedPosition F). record p { profit_locked = true } in
      branch-Respects w (not w.pos.profit_locked && (pl.at_r <=F r_now))
        (then-Safe (ratchet_stop cfg out (lock_level w.pos pl) false)
          (λ moved. update lock >> pure (noted (locked pl.lock_r) moved))
          (ratchet_stop-Safe cfg out _ false) (λ moved. set-Safe lock _ (λ _. refl) (λ _. refl)) w)
        (stay w _)

  trail_step-Safe : (cfg : ExitConfig F) (out : Outside F) (b : Bar F) → Safe (trail_step cfg out b)
  trail_step-Safe cfg out b w =
      let k_of = λ (usual : F). tight w.pos.profit_locked cfg.profit_lock usual in
      branch-Respects w (trails w.pos)
        (then-Safe (k_trail cfg b w.pos.leg)
          (λ usual. ratchet_stop cfg out (chandelier w.pos (k_of usual)) false >>= λ moved.
            pure (noted (trail (k_of usual)) moved))
          (k_trail-Safe cfg b w.pos.leg)
          (λ usual.
            map-Safe (ratchet_stop cfg out (chandelier w.pos (k_of usual)) false)
              (λ moved. noted (trail (k_of usual)) moved) (ratchet_stop-Safe cfg out _ false))
          w)
        (stay w _)

  later_steps-Safe :
      (cfg : ExitConfig F) (out : Outside F) (b : Bar F) (r_now : F)
      → Safe (later_steps cfg out b r_now)
  later_steps-Safe cfg out b r_now =
      then-Safe (breakeven_step cfg out b r_now) _ (breakeven_step-Safe cfg out b r_now)
        (λ first_actions.
          then-Safe (trailing_step cfg out b r_now) _
            (trailing_if_due-Safe out (second cfg.partials) b r_now)
            (λ second_actions.
              then-Safe (lock_if_due cfg out cfg.profit_lock r_now) _
                (lock_if_due-Safe cfg out cfg.profit_lock r_now)
                (λ lock_actions. map-Safe (trail_step cfg out b) _ (trail_step-Safe cfg out b))))

  leave-Safe : (a : Action F) (m : WorkMethod F (Unit {0})) → Safe m → Safe (leave a m)
  leave-Safe a m h = map-Safe m (λ _. a ∷ []) h

  by_limit-Safe :
      (cfg : ExitConfig F) (out : Outside F) (b : Bar F) (limit : ℕ)
      → Safe (by_limit cfg out b limit)
  by_limit-Safe cfg out b limit w =
      branch-Respects w (leb limit w.pos.bars_no_progress)
        (leave-Safe exit_time_stop (exit out b.close "time_stop_no_progress")
          (exit-Safe out b.close "time_stop_no_progress") w)
        (later_steps-Safe cfg out b _ w)

  on_bar-Safe : (cfg : ExitConfig F) (out : Outside F) (b : Bar F) → Safe (on_bar cfg out b)
  unfolding on_bar
  on_bar-Safe cfg out b w = branch-Respects w (is_exited w.pos) (stay w _) (
      branch-Respects w (corrupt b) (stay w _) (
        branch-Respects w (flattens cfg b w.pos)
          (leave-Safe _ (exit out b.close "crypto_weekend_flatten")
            (exit-Safe out b.close "crypto_weekend_flatten") w)
          (branch-Respects w (stop_hit b w.pos)
            (leave-Safe _ (exit out w.pos.stop "stop_hit") (exit-Safe out w.pos.stop "stop_hit") w)
            (then-Safe (update (progress b)) (λ _. time_stop cfg out b)
              (update-Safe (progress b) (progress-direction b) (progress-stop b))
              (λ _ v.
                then-Safe (key_of (lookup v.pos.leg cfg.max_bars_no_progress)) (by_limit cfg out b)
                  (key_of-Safe _) (by_limit-Safe cfg out b) v)
              w))))

  apply_operation-Safe :
      (cfg : ExitConfig F) (out : Outside F) (o : Operation F) → Safe (apply_operation cfg out o)
  unfolding apply_operation force_stop_change manual_exit
  apply_operation-Safe cfg out (bar b) =
      map-Safe (on_bar cfg out b) (λ _. tt) (on_bar-Safe cfg out b)
  apply_operation-Safe cfg out (force new_stop) =
      map-Safe (ratchet_stop cfg out new_stop true) (λ _. tt)
        (ratchet_stop-Safe cfg out new_stop true)
  apply_operation-Safe cfg out (close_by_hand price reason) =
      then-Safe (λ w. raise_if (is_exited w.pos) no_open_position w) (λ _. exit out price reason)
        (λ w. stay w _) (λ _. exit-Safe out price reason)

  pub run_operations-Ratchets :
      (cfg : ExitConfig F) (out : Outside F) (os : List (Operation F)) (w : Work F)
      → Ratchets w (run_operations cfg out os w)
  unfolding run_operations
  run_operations-Ratchets cfg out [] w = Ratchets-refl w
  run_operations-Ratchets cfg out (o ∷ os) w =
      let v = (apply_operation cfg out o w).1 in
      Ratchets-IsPreorder.transitive w v (run_operations cfg out os v)
        (apply_operation-Safe cfg out o w).related (run_operations-Ratchets cfg out os v)

  -- No stop sent to the broker, and not the stop that the manager holds, ever moves away from profit:
  -- whatever bars, forced changes and closes by hand a position sees, in whatever order and whichever of
  -- them raise, its stop in the end is the one it had or strictly nearer to profit; each price sent by
  -- modify_stop is strictly better than the stop before it; each replaced stop has the price of the
  -- stop at that time.
  pub never_widen :
      (cfg : ExitConfig F) (out : Outside F) (os : List (Operation F)) (w : Work F)
      → let v = run_operations cfg out os w in
        NotWider w.pos.direction w.pos.stop v.pos.stop × Ratchets w v
  never_widen cfg out os w =
      let h = run_operations-Ratchets cfg out os w in
      (
        Ladder-NotWider w.pos.direction w.pos.stop (run_operations cfg out os w).pos.stop h.made
            h.climbed,
        h,
      )
