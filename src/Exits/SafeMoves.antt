-- ===== src/Exits/SafeMoves.antt =====
-- src/exits/exit_manager.py: each move of a position moves its stop toward profit only.
use trading_os.Common.{
  suc, ◌≡◌, refl, sym, String, Bool, true, false, not, ◌&&◌, some, [], ◌∷◌, ◌++◌, if◌then◌else◌,
  Bool-cases, inl, inr,
}
use trading_os.Common.Effects.{pure, modify, ◌>>=◌, ◌>>◌}
use trading_os.Common.Steps.{
  Respects, Within, stay-Respects, after-Respects, >>=-Within, branch-Respects,
}
use trading_os.Orders.Record.{Direction, buy, sell}
use trading_os.Float.{Float, ◌<F◌, ◌<=F◌, ◌*F◌, ◌/F◌, ◌-F◌, fmax, nought}
use trading_os.Float.Laws.{lt→Less}
use trading_os.Exits.Position.{
  Call, modify_stop, exit_market, replace_stop, cancel_stop, partial_taken, position_exited,
  ManagedPosition, ExitConfig, Outside, exited, Work, WorkMethod, call, update,
}
use trading_os.Exits.Moves.{
  improving, batched, move_stop, ratchet_stop, when, tell, whole_lots, replace_resting, carve,
  take_partial, try_cancel, sell_rest, close_out, tell_exit, exit, exit_telemetry,
}
use mathlib.Core.List.{append-nil}
use text.Mathlib.Text.{◌==◌ as str_eq}
use trading_os.Exits.Ladder.{Better, Ladder, Ratchets, Ratchets-IsPreorder}

module _ {F : Type 0} ⦃fl : Float F⦄ where
  open fl use {lit}

  abbrev pub Safe : {A : Type 0} → WorkMethod F A → Type 0
  Safe m = Within Ratchets m

  -- A call that leaves the ladder at the stop as it is.
  call-Ratchets :
      (out : Outside F) (c : Call F) (w : Work F)
      → Ladder w.pos.direction w.pos.stop (c ∷ []) w.pos.stop
      → Respects Ratchets w (call out c w)
  unfolding call
  call-Ratchets out c w h = record {
    related = record { made = c ∷ []; grown = refl; same_side = refl; climbed = h };
  }

  -- An assignment that keeps the direction and the stop.
  pub update-Safe :
      (f : ManagedPosition F → ManagedPosition F)
      → ((p : ManagedPosition F) → (f p).direction ≡ p.direction)
      → ((p : ManagedPosition F) → (f p).stop ≡ p.stop)
      → Safe (update f)
  update-Safe f h k w = record {
    related = record {
      made = [];
      grown = sym (append-nil w.calls);
      same_side = h w.pos;
      climbed = sym (k w.pos);
    };
  }

  improving-Better :
      (d : Direction) (a b : F)
      → (if elim d as (λ _. Bool) [ buy ↦ true | sell ↦ false ] then a <F b else b <F a) ≡ true
      → Better d a b
  improving-Better buy a b h = lt→Less a b h
  improving-Better sell a b h = lt→Less b a h

  move_stop-Ratchets :
      (out : Outside F) (candidate : F) (w : Work F)
      → improving w.pos candidate ≡ true
      → Respects Ratchets w (move_stop out candidate w)
  unfolding call
  move_stop-Ratchets out candidate w h =
      let w' : Work F = record w { pos = record w.pos { stop = candidate } } in
      let c = modify_stop w.pos.stop_order_id candidate w.pos.leg in
      after-Respects Ratchets-IsPreorder w (call out c w')
        (λ _. modify (λ v. record v { modify_calls = suc v.modify_calls }) >> pure true)
        (record {
          related = record {
            made = c ∷ [];
            grown = refl;
            same_side = refl;
            climbed = (improving-Better w.pos.direction w.pos.stop candidate h, refl);
          };
        })
        (λ _ v. record {
          related = record {
            made = [];
            grown = sym (append-nil v.calls);
            same_side = refl;
            climbed = refl;
          };
        })

  pub ratchet_stop-Safe :
      (cfg : ExitConfig F) (out : Outside F) (candidate : F) (force : Bool)
      → Safe (ratchet_stop cfg out candidate force)
  unfolding ratchet_stop
  ratchet_stop-Safe cfg out candidate force w = elim (Bool-cases (improving w.pos candidate)) [
    | inl h ↦ rw h (
        branch-Respects w (batched cfg w.pos candidate) (stay-Respects Ratchets-IsPreorder w _)
          (move_stop-Ratchets out candidate w h))
    | inr h ↦ rw h (stay-Respects Ratchets-IsPreorder w _)
  ]

  when-Respects :
      (c : Bool) (m : WorkMethod F (Unit {0})) (w : Work F)
      → Respects Ratchets w (m w)
      → Respects Ratchets w (when c m w)
  when-Respects true m w h = h
  when-Respects false m w h = stay-Respects Ratchets-IsPreorder w _

  tell-Respects :
      (out : Outside F) (c : Call F) (w : Work F)
      → Ladder w.pos.direction w.pos.stop (c ∷ []) w.pos.stop
      → Respects Ratchets w (tell out c w)
  tell-Respects out c w h =
      after-Respects Ratchets-IsPreorder w (call out c w) (λ _. pure tt) (call-Ratchets out c w h)
        (λ _ v. stay-Respects Ratchets-IsPreorder v _)

  whole_lots-Safe : (x lot : F) → Safe (whole_lots x lot)
  whole_lots-Safe x lot w = stay-Respects Ratchets-IsPreorder w _

  replace_resting-Safe : (out : Outside F) → Safe (replace_resting out)
  replace_resting-Safe out w =
      let p = w.pos in
      let c = replace_stop p.stop_order_id p.symbol p.remaining_qty p.stop p.leg p.direction in
      when-Respects ((nought <F p.remaining_qty) && out.has_replace_stop) _ w (
        after-Respects Ratchets-IsPreorder w (call out c w)
          (λ id. update (λ p. record p { stop_order_id = id })) (call-Ratchets out c w (refl, refl))
          (λ id. update-Safe _ (λ _. refl) (λ _. refl)))

  carve-Safe : (out : Outside F) (at_r price qty : F) → Safe (carve out at_r price qty)
  carve-Safe out at_r price qty w =
      let c = exit_market w.pos.symbol qty w.pos.leg w.pos.direction in
      after-Respects Ratchets-IsPreorder w (call out c w)
        (λ _.
          update (λ p. record p { remaining_qty = fmax nought (p.remaining_qty -F qty) })
          >> replace_resting out
          >> when out.on_partial (tell out (partial_taken w.pos.symbol qty price at_r)))
        (call-Ratchets out c w refl)
        (λ _.
          >>=-Within Ratchets-IsPreorder _ _
            (>>=-Within Ratchets-IsPreorder _ _ (update-Safe _ (λ _. refl) (λ _. refl))
              (λ _. replace_resting-Safe out))
            (λ _ v. when-Respects out.on_partial _ v (tell-Respects out _ v refl)))

  pub take_partial-Safe :
      (out : Outside F) (at_r pct price : F) → Safe (take_partial out at_r pct price)
  unfolding take_partial
  take_partial-Safe out at_r pct price w =
      after-Respects Ratchets-IsPreorder w
        (whole_lots ((w.pos.qty *F pct) /F lit 100 0) w.pos.lot_size w)
        (λ qty.
          update (λ p. record p { partials_taken = p.partials_taken ++ (at_r ∷ []) })
          >> when (not (qty <=F nought)) (carve out at_r price qty))
        (whole_lots-Safe _ _ w)
        (λ qty.
          >>=-Within Ratchets-IsPreorder _ _
            (update-Safe (λ p. record p { partials_taken = p.partials_taken ++ (at_r ∷ []) })
              (λ _. refl) (λ _. refl))
            (λ _ v.
              when-Respects (not (qty <=F nought)) (carve out at_r price qty) v
                (carve-Safe out at_r price qty v)))

  try_cancel-Safe : (out : Outside F) → Safe (try_cancel out)
  try_cancel-Safe out w =
      branch-Respects w out.has_cancel_stop
        (record {
          related = (call-Ratchets out (cancel_stop w.pos.stop_order_id w.pos.leg) w refl).related;
        })
        (stay-Respects Ratchets-IsPreorder w _)

  sell_rest-Safe : (out : Outside F) (qty : F) → Safe (sell_rest out qty)
  sell_rest-Safe out qty w =
      when-Respects (nought <F qty)
        (tell out (exit_market w.pos.symbol qty w.pos.leg w.pos.direction)) w
        (tell-Respects out _ w refl)

  close_out-Safe : (out : Outside F) → Safe (close_out out)
  close_out-Safe out =
      >>=-Within Ratchets-IsPreorder (try_cancel out)
        (λ _ w. (whole_lots w.pos.remaining_qty w.pos.lot_size >>= λ qty. sell_rest out qty) w)
        (try_cancel-Safe out)
        (λ _ w.
          after-Respects Ratchets-IsPreorder w (whole_lots w.pos.remaining_qty w.pos.lot_size w)
            (λ qty. sell_rest out qty) (whole_lots-Safe _ _ w) (λ qty. sell_rest-Safe out qty))

  tell_exit-Safe : (out : Outside F) → Safe (tell_exit out)
  tell_exit-Safe out w =
      when-Respects out.on_exit (tell out (position_exited w.pos.symbol w.pos.telemetry)) w
        (tell-Respects out _ w refl)

  pub exit-Safe : (out : Outside F) (price : F) (reason : String) → Safe (exit out price reason)
  unfolding exit
  exit-Safe out price reason =
      >>=-Within Ratchets-IsPreorder _ (λ _. tell_exit out)
        (>>=-Within Ratchets-IsPreorder
          (update
            (λ p. record p { telemetry = some (exit_telemetry p price reason); state = exited }))
          (λ _. when (not (str_eq reason "stop_hit")) (close_out out))
          (update-Safe _ (λ _. refl) (λ _. refl))
          (λ _ w.
            when-Respects (not (str_eq reason "stop_hit")) (close_out out) w
              (close_out-Safe out w)))
        (λ _. tell_exit-Safe out)
