-- ===== src/Exits/Leaving.antt =====
-- src/exits/exit_manager.py: how a position is left, and what happens to it afterwards.
use trading_os.Common.{
  ◌≡◌, ◌↔◌, refl, sym, ◌∙◌, ap, String, true, false, none, some, [], ◌∷◌, ◌++◌, arith,
  if◌then◌else◌, Bool-cases, inl, inr,
}
use mathlib.Core.Path.{subst}
use trading_os.Common.Effects.{Result, ok, err}
use trading_os.Float.{Float, ◌<F◌}
use trading_os.Exits.Position.{
  call_failed, modify_stop, position_exited, exited, ExitError, no_open_position,
  stop_widen_attempt, ManagedPosition, ExitConfig, Outside, Work, call, is_exited,
}
use trading_os.Exits.Moves.{
  exit, manual_exit, ratchet_stop, force_stop_change, exit_telemetry, improving, batched,
}
use trading_os.Exits.Bars.{Bar, on_bar, corrupt, flattens, stop_hit, exit_stop_hit, leave, Action}

module _ {F : Type 0} ⦃fl : Float F⦄ where
  exit-stop_hit :
      (out : Outside F) (price : F) (w : Work F)
      → let told = some (exit_telemetry w.pos price "stop_hit") in
        (exit out price "stop_hit" w).1 ≡ record w {
          pos = record w.pos { telemetry = told; state = exited };
          calls =
              if out.on_exit then w.calls ++ (position_exited w.pos.symbol told ∷ []) else w.calls;
        }
  unfolding exit call
  exit-stop_hit out price w = ground arith

  leave-state :
      (a : Action F) (p : Result ExitError (Unit {0}) × Work F) → (leave a (λ _. p) p.1).1 ≡ p.1
  leave-state a (ok x, v) = refl
  leave-state a (err e, v) = refl

  on_bar-stop_hit :
      (cfg : ExitConfig F) (out : Outside F) (b : Bar F) (w : Work F)
      → is_exited w.pos ≡ false
      → corrupt b ≡ false
      → flattens cfg b w.pos ≡ false
      → stop_hit b w.pos ≡ true
      → (on_bar cfg out b w).1 ≡ (exit out w.pos.stop "stop_hit" w).1
  unfolding on_bar
  on_bar-stop_hit cfg out b w o c f h =
      rw (o, c, f, h) (leave-state exit_stop_hit (exit out w.pos.stop "stop_hit" w))

  -- A stop that is hit leaves the position without an order: the broker has filled the stop, and no
  -- second order closes the position again. The position is EXITED at the price of its stop, and
  -- on_exit, if it is set, is the only call made. This holds for an open position, a bar that is not
  -- corrupt, and no weekend to flatten.
  pub stop_hit_sends_nothing :
      (cfg : ExitConfig F) (out : Outside F) (b : Bar F) (w : Work F)
      → is_exited w.pos ≡ false
      → corrupt b ≡ false
      → flattens cfg b w.pos ≡ false
      → stop_hit b w.pos ≡ true
      → let v = (on_bar cfg out b w).1 in
        let told = some (exit_telemetry w.pos w.pos.stop "stop_hit") in
        (v.pos ≡ record w.pos { telemetry = told; state = exited })
        × (v.calls ≡ (
            if out.on_exit then w.calls ++ (position_exited w.pos.symbol told ∷ []) else w.calls))
  stop_hit_sends_nothing cfg out b w o c f h =
      let e = on_bar-stop_hit cfg out b w o c f h ∙ exit-stop_hit out w.pos.stop w in
      (ap (λ v. v.pos) e, ap (λ v. v.calls) e)

  -- `_exit` leaves the position EXITED also if one of its calls raises.
  exit-exited :
      (out : Outside F) (price : F) (reason : String) (w : Work F)
      → (exit out price reason w).1.pos.state ≡ exited
  unfolding exit call
  exit-exited out price reason w = ground arith

  -- A forced change of the stop raises StopWidenAttempt exactly if the new stop is not strictly nearer
  -- to profit, and then changes nothing.
  pub force_stop_change_lem :
      (cfg : ExitConfig F) (out : Outside F) (new_stop : F) (w : Work F)
      → ((force_stop_change cfg out new_stop w).0 ≡ err stop_widen_attempt)
        ↔ (improving w.pos new_stop ≡ false)
  unfolding force_stop_change ratchet_stop call
  force_stop_change_lem cfg out new_stop w = (λ h. ground arith, λ h. ground arith)

  is_exited-exited : (w : Work F) → is_exited w.pos ≡ true → w.pos.state ≡ exited
  is_exited-exited w h = ground arith

  manual_exit-exited :
      (out : Outside F) (price : F) (reason : String) (w : Work F)
      → (manual_exit out price reason w).1.pos.state ≡ exited
  unfolding manual_exit
  manual_exit-exited out price reason w = elim (Bool-cases (is_exited w.pos)) [
    | inl h ↦ rw h (is_exited-exited w h)
    | inr h ↦ rw h (exit-exited out price reason w)
  ]

  on_bar-exited :
      (cfg : ExitConfig F) (out : Outside F) (b : Bar F) (v : Work F)
      → v.pos.state ≡ exited
      → on_bar cfg out b v ≡ (ok [], v)
  unfolding on_bar
  on_bar-exited cfg out b v h = rw h refl

  manual_exit-refused :
      (out : Outside F) (price : F) (reason : String) (v : Work F)
      → v.pos.state ≡ exited
      → manual_exit out price reason v ≡ (err no_open_position, v)
  unfolding manual_exit
  manual_exit-refused out price reason v h = rw h refl

  -- After a close by hand the position is EXITED, whether the call returned or raised, so also if the
  -- market order failed; from then on no bar does anything with it, and a second close by hand is
  -- refused.
  pub closed_for_good :
      (cfg : ExitConfig F) (out : Outside F) (price : F) (reason : String) (w : Work F)
      → let v = (manual_exit out price reason w).1 in
        (v.pos.state ≡ exited)
        × ((b : Bar F) → on_bar cfg out b v ≡ (ok [], v))
        × ((p : F) (r : String) → manual_exit out p r v ≡ (err no_open_position, v))
  closed_for_good cfg out price reason w =
      let v = (manual_exit out price reason w).1 in
      let h = manual_exit-exited out price reason w in
      (h, λ b. on_bar-exited cfg out b v h, λ p r. manual_exit-refused out p r v h)

  not-lt_self : (a : F) → (a <F a) ≡ false
  unfolding ◌<F◌
  not-lt_self a = ground arith

  not-improving_self : (p : ManagedPosition F) → improving p p.stop ≡ false
  not-improving_self p = ground (arith, not-lt_self p.stop)

  -- the state after a modification that failed
  abbrev pub moved_only_here : F → Work F → Work F
  moved_only_here new_stop w = record w {
    pos = record w.pos { stop = new_stop };
    calls = w.calls ++ (modify_stop w.pos.stop_order_id new_stop w.pos.leg ∷ []);
  }

  force_stop_change-failed :
      (cfg : ExitConfig F) (out : Outside F) (new_stop : F) (w : Work F)
      → improving w.pos new_stop ≡ true
      → batched cfg w.pos new_stop ≡ false
      → out.answer w.calls (modify_stop w.pos.stop_order_id new_stop w.pos.leg) ≡ none
      → force_stop_change cfg out new_stop w ≡ (err call_failed, moved_only_here new_stop w)
  unfolding force_stop_change ratchet_stop call
  force_stop_change-failed cfg out new_stop w i b a = rw (i, b, a) refl

  force_stop_change-refused :
      (cfg : ExitConfig F) (out : Outside F) (new_stop : F) (v : Work F)
      → improving v.pos new_stop ≡ false
      → force_stop_change cfg out new_stop v ≡ (err stop_widen_attempt, v)
  unfolding force_stop_change ratchet_stop
  force_stop_change-refused cfg out new_stop v h = rw h refl

  -- If the broker fails to move a stop, the manager holds the new stop all the same, the counter of
  -- modifications is as it was, and a second attempt at the same price is refused as a widening, without
  -- a call to the broker.
  pub lost_modification :
      (cfg : ExitConfig F) (out later : Outside F) (new_stop : F) (w : Work F)
      → improving w.pos new_stop ≡ true
      → batched cfg w.pos new_stop ≡ false
      → out.answer w.calls (modify_stop w.pos.stop_order_id new_stop w.pos.leg) ≡ none
      → let (r, v) = force_stop_change cfg out new_stop w in
        (r ≡ err call_failed)
        × (v.pos.stop ≡ new_stop)
        × (v.modify_calls ≡ w.modify_calls)
        × (force_stop_change cfg later new_stop v ≡ (err stop_widen_attempt, v))
  lost_modification cfg out later new_stop w i b a =
      let e = force_stop_change-failed cfg out new_stop w i b a in
      let v = moved_only_here new_stop w in
      (
        ap (λ p. p.0) e,
        ap (λ p. p.1.pos.stop) e,
        ap (λ p. p.1.modify_calls) e,
        subst (λ v. force_stop_change cfg later new_stop v ≡ (err stop_widen_attempt, v))
            (sym (ap (λ p. p.1) e))
            (force_stop_change-refused cfg later new_stop v (not-improving_self v.pos)),
      )
