-- ===== src/Exits/Moves.antt =====
-- src/exits/exit_manager.py: the moves of one position: the ratchet, partials and the exit.
use trading_os.Common.{
  suc, String, Bool, true, false, not, ◌&&◌, ◌||◌, some, [], ◌∷◌, ◌++◌, if◌then◌else◌,
}
use trading_os.Common.Effects.{ok, err, pure, raise_if, gets, modify, ◌>>=◌, ◌>>◌}
use text.Mathlib.Text.{◌==◌ as str_eq}
use trading_os.Float.{Float, ◌-F◌, ◌*F◌, ◌/F◌, ◌<F◌, ◌<=F◌, ◌==F◌, fmax, nought}
use trading_os.Exits.Position.{
  ManagedPosition, Call, ExitConfig, Outside, exited, modify_stop, exit_market, replace_stop,
  cancel_stop, partial_taken, position_exited, stop_widen_attempt, no_open_position, not_a_number,
  WorkMethod, call, is_long, is_exited, is_risk_on, update, ExitTelemetry,
}

module _ {F : Type 0} ⦃fl : Float F⦄ where
  open fl use {is_finite, floor, abs, lit}

  abbrev pub when : Bool → WorkMethod F (Unit {0}) → WorkMethod F (Unit {0})
  when c m = if c then m else pure tt

  -- a call whose answer is not used
  abbrev pub tell : Outside F → Call F → WorkMethod F (Unit {0})
  tell out c = call out c >> pure tt

  abbrev pub improving : ManagedPosition F → F → Bool
  improving pos candidate = if is_long pos then pos.stop <F candidate else candidate <F pos.stop

  -- too small a step, except before breakeven
  abbrev pub batched : ExitConfig F → ManagedPosition F → F → Bool
  batched cfg pos candidate =
      (abs (candidate -F pos.stop) <F (cfg.min_ratchet_step_atr *F pos.atr)) && not (is_risk_on pos)

  -- The stop is written before the broker is told.
  abbrev pub move_stop : Outside F → F → WorkMethod F Bool
  move_stop out candidate = do
    update (λ p. record p { stop = candidate })
    pos ← gets (λ w. w.pos)
    call out (modify_stop pos.stop_order_id candidate pos.leg)
    modify (λ w. record w { modify_calls = suc w.modify_calls })
    pure true

  -- `_ratchet_stop`
  unfoldable pub ratchet_stop : ExitConfig F → Outside F → F → Bool → WorkMethod F Bool
  unfolding call
  ratchet_stop cfg out candidate force w =
      if not (improving w.pos candidate)
      then (if force then err stop_widen_attempt else ok false, w)
      else if batched cfg w.pos candidate
      then (ok false, w)
      else move_stop out candidate w

  unfoldable pub force_stop_change : ExitConfig F → Outside F → F → WorkMethod F (Unit {0})
  force_stop_change cfg out new_stop = ratchet_stop cfg out new_stop true >> pure tt

  abbrev pub r_multiple : ManagedPosition F → F → F
  r_multiple pos price =
      let move = if is_long pos then price -F pos.entry else pos.entry -F price in
      if pos.r_value ==F nought then nought else move /F pos.r_value

  -- `math.floor(x / lot) * lot`, which raises at a lot of 0, NaN and infinity
  abbrev pub whole_lots : F → F → WorkMethod F F
  whole_lots x lot w = (
    if (lot ==F nought) || not (is_finite (x /F lot))
        then err not_a_number
        else ok (floor (x /F lot) *F lot),
    w,
  )

  -- the stop for the quantity that is left
  abbrev pub replace_resting : Outside F → WorkMethod F (Unit {0})
  replace_resting out = do
    pos ← gets (λ w. w.pos)
    when ((nought <F pos.remaining_qty) && out.has_replace_stop) (do
      id ← call out (
          replace_stop pos.stop_order_id pos.symbol pos.remaining_qty pos.stop pos.leg
            pos.direction)
      update (λ p. record p { stop_order_id = id }))

  abbrev pub carve : Outside F → F → F → F → WorkMethod F (Unit {0})
  carve out at_r price qty = do
    pos ← gets (λ w. w.pos)
    call out (exit_market pos.symbol qty pos.leg pos.direction)
    update (λ p. record p { remaining_qty = fmax nought (p.remaining_qty -F qty) })
    replace_resting out
    when out.on_partial (tell out (partial_taken pos.symbol qty price at_r))

  -- `_take_partial`: the lots are computed first, as the code does.
  unfoldable pub take_partial : Outside F → F → F → F → WorkMethod F (Unit {0})
  take_partial out at_r pct price = do
    pos ← gets (λ w. w.pos)
    qty ← whole_lots ((pos.qty *F pct) /F lit 100 0) pos.lot_size
    update (λ p. record p { partials_taken = p.partials_taken ++ (at_r ∷ []) })
    when (not (qty <=F nought)) (carve out at_r price qty)

  abbrev pub exit_telemetry : ManagedPosition F → F → String → ExitTelemetry F
  exit_telemetry pos price reason =
      let mfe_r = r_multiple pos pos.extreme in
      let realized_r = r_multiple pos price in
      record {
        exit_reason = reason;
        exit_price = price;
        realized_r = realized_r;
        mfe_r = mfe_r;
        mfe_captured_pct = if nought <F mfe_r then (realized_r /F mfe_r) *F lit 100 0 else nought;
      }

  -- the cancellation, whose exception is logged only
  abbrev pub try_cancel : Outside F → WorkMethod F (Unit {0})
  try_cancel out w =
      if out.has_cancel_stop
      then (ok tt, (call out (cancel_stop w.pos.stop_order_id w.pos.leg) w).1)
      else (ok tt, w)

  abbrev pub sell_rest : Outside F → F → WorkMethod F (Unit {0})
  sell_rest out qty = do
    pos ← gets (λ w. w.pos)
    when (nought <F qty) (tell out (exit_market pos.symbol qty pos.leg pos.direction))

  abbrev pub close_out : Outside F → WorkMethod F (Unit {0})
  close_out out = do
    try_cancel out
    pos ← gets (λ w. w.pos)
    qty ← whole_lots pos.remaining_qty pos.lot_size
    sell_rest out qty

  abbrev pub tell_exit : Outside F → WorkMethod F (Unit {0})
  tell_exit out = do
    pos ← gets (λ w. w.pos)
    when out.on_exit (tell out (position_exited pos.symbol pos.telemetry))

  -- `_exit`
  unfoldable pub exit : Outside F → F → String → WorkMethod F (Unit {0})
  unfolding call
  exit out price reason = do
    update (λ p. record p { telemetry = some (exit_telemetry p price reason); state = exited })
    when (not (str_eq reason "stop_hit")) (close_out out)
    tell_exit out

  -- `manual_exit` of a position that the manager has
  unfoldable pub manual_exit : Outside F → F → String → WorkMethod F (Unit {0})
  manual_exit out price reason = do
    pos ← gets (λ w. w.pos)
    raise_if (is_exited pos) no_open_position
    exit out price reason
