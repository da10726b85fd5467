-- ===== src/Orders/Fills.antt =====
-- src/core/order_state_machine.py: what is filled of an order.
use trading_os.Common.{
  ◌≡◌, true, false, ◌||◌, ◌⊎◌, inl, inr, List, [], ◌∷◌, arith, if◌then◌else◌, All, Bool-cases,
  get_or,
}
use trading_os.Float.{Float, ◌+F◌, ◌-F◌, ◌<F◌, ◌<=F◌, ◌≤F◌, IsFinite, nought}
use trading_os.Float.Laws.{Ieee, lt→Less, not-lt→≤, not-le→Less, Less→≤F, ≤F-refl, ≤F-trans}
use trading_os.Orders.Record.{OrderRecord}
use trading_os.Orders.Methods.{
  Truth, failed, absent, found, tolerance, mark_sent, on_ack, on_fill, on_reject, on_cancel,
  on_timeout, reconcile_unknown,
}
use trading_os.Orders.Machine.{
  Event, send, timed_out, ack, reject, cancel, fill, reconcile, apply_event, run_events,
}

module _ {F : Type 0} ⦃fl : Float F⦄ where
  -- What a fill of `qty` makes of the filled quantity.
  booked : OrderRecord F → F → F
  booked r qty =
      if (qty <=F nought) || ((r.requested_qty +F tolerance) <F (r.filled_qty +F qty))
      then r.filled_qty
      else r.filled_qty +F qty

  on_fill-filled_qty :
      (now qty price : F) (r : OrderRecord F)
      → (apply_event (fill now qty price) r).1.filled_qty ≡ booked r qty
  unfolding apply_event on_fill booked
  on_fill-filled_qty now qty price r = ground arith

  abbrev reported : Truth F → F
  reported truth = get_or truth.filled_qty nought

  reconcile-filled_qty :
      (now : F) (truth : Truth F) (r : OrderRecord F)
      → ((apply_event (reconcile now (found truth)) r).1.filled_qty ≡ r.filled_qty)
        ⊎ ((r.filled_qty <F reported truth) ≡ true)
          × ((apply_event (reconcile now (found truth)) r).1.filled_qty
              ≡ booked r (reported truth -F r.filled_qty))
  unfolding apply_event reconcile_unknown booked
  reconcile-filled_qty now truth r = ground arith

  -- Events that book nothing.
  abbrev BooksNothing : Event F → Type 0
  BooksNothing (fill now qty price) = ⊥
  BooksNothing (reconcile now (found truth)) = ⊥
  BooksNothing _ = Unit

  kept :
      (e : Event F) (r : OrderRecord F)
      → BooksNothing e
      → (apply_event e r).1.filled_qty ≡ r.filled_qty
  unfolding apply_event mark_sent on_ack on_fill on_reject on_cancel on_timeout reconcile_unknown
  kept (send now) r h = ground arith
  kept (timed_out now) r h = ground arith
  kept (ack now id) r h = ground arith
  kept (reject now reason) r h = ground arith
  kept (cancel now note) r h = ground arith
  kept (fill now qty price) r h = absurd h
  kept (reconcile now (failed exc)) r h = ground arith
  kept (reconcile now absent) r h = ground arith
  kept (reconcile now (found truth)) r h = absurd h

  requested_kept :
      (e : Event F) (r : OrderRecord F) → (apply_event e r).1.requested_qty ≡ r.requested_qty
  unfolding apply_event mark_sent on_ack on_fill on_reject on_cancel on_timeout reconcile_unknown
  requested_kept (send now) r = ground arith
  requested_kept (timed_out now) r = ground arith
  requested_kept (ack now id) r = ground arith
  requested_kept (reject now reason) r = ground arith
  requested_kept (cancel now note) r = ground arith
  requested_kept (fill now qty price) r = ground arith
  requested_kept (reconcile now answer) r = ground arith

  -- The filled quantity is a finite number, at least 0 and at most the order's, up to the tolerance.
  pub record WithinOrder (requested amount : F) : Type 0 where
    pub finite : IsFinite amount
    pub nonneg : nought ≤F amount
    pub capped : amount ≤F (requested +F tolerance)
    pub cap_finite : IsFinite (requested +F tolerance)

  -- All quantities that an event reports are finite.
  abbrev pub IsFiniteEvent : Event F → Type 0
  IsFiniteEvent (fill now qty price) = IsFinite qty
  IsFiniteEvent (reconcile now (found truth)) = IsFinite (reported truth)
  IsFiniteEvent _ = Unit

  -- The filled quantity may only grow, within the order.
  abbrev Grows : F → F → F → Type 0
  Grows requested old new = WithinOrder requested new × (old ≤F new)

module _ {F : Type 0} ⦃fl : Float F⦄ ⦃ieee : Ieee F⦄ where
  Grows-refl : (q a : F) → WithinOrder q a → Grows q a a
  Grows-refl q a w = (w, ≤F-refl a (ieee.finite-IsReal a w.finite))

  accepted-Grows :
      (r : OrderRecord F) (qty : F)
      → IsFinite qty
      → WithinOrder r.requested_qty r.filled_qty
      → (qty <=F nought) ≡ false
      → ((r.requested_qty +F tolerance) <F (r.filled_qty +F qty)) ≡ false
      → Grows r.requested_qty r.filled_qty (r.filled_qty +F qty)
  accepted-Grows r qty f w h k =
      let zero-IsReal = ieee.finite-IsReal nought (ieee.lit-finite 0 0 (omega arith)) in
      let pos_qty = not-le→Less qty nought (ieee.finite-IsReal qty f) zero-IsReal h in
      let grown = ieee.add-ge r.filled_qty qty w.finite f (Less→≤F nought qty pos_qty) in
      let under =
        not-lt→≤ (r.requested_qty +F tolerance) (r.filled_qty +F qty)
          (ieee.finite-IsReal (r.requested_qty +F tolerance) w.cap_finite)
          (ieee.add-IsReal r.filled_qty qty w.finite f) k in
      (
        record {
          finite =
              ieee.IsFinite_between r.filled_qty (r.filled_qty +F qty)
                (r.requested_qty +F tolerance) w.finite w.cap_finite grown under;
          nonneg = ≤F-trans nought r.filled_qty (r.filled_qty +F qty) w.nonneg grown;
          capped = under;
          cap_finite = w.cap_finite;
        },
        grown,
      )

  booked-Grows :
      (r : OrderRecord F) (qty : F)
      → IsFinite qty
      → WithinOrder r.requested_qty r.filled_qty
      → Grows r.requested_qty r.filled_qty (booked r qty)
  unfolding booked
  booked-Grows r qty f w = elim (Bool-cases (qty <=F nought)) [
    | inl h ↦ rw h (Grows-refl r.requested_qty r.filled_qty w)
    | inr h ↦ elim (Bool-cases ((r.requested_qty +F tolerance) <F (r.filled_qty +F qty))) [
      | inl k ↦ rw (h, k) (Grows-refl r.requested_qty r.filled_qty w)
      | inr k ↦ rw (h, k) (accepted-Grows r qty f w h k)
    ]
  ]

  rest-IsFinite :
      (total done : F)
      → IsFinite total
      → IsFinite done
      → nought ≤F done
      → (done <F total) ≡ true
      → IsFinite (total -F done)
  rest-IsFinite total done ft fd h k =
      let below = Less→≤F done total (lt→Less done total k) in
      let (a, b) = ieee.sub_between total done ft fd h below in
      ieee.IsFinite_between nought (total -F done) total (ieee.lit-finite 0 0 (omega arith)) ft a b

  event-Grows :
      (e : Event F) (r : OrderRecord F)
      → IsFiniteEvent e
      → WithinOrder r.requested_qty r.filled_qty
      → Grows r.requested_qty r.filled_qty (apply_event e r).1.filled_qty
  event-Grows (fill now qty price) r f w =
      rw (on_fill-filled_qty now qty price r) (booked-Grows r qty f w)
  event-Grows (reconcile now (found truth)) r f w = elim (reconcile-filled_qty now truth r) [
    | inl same ↦ rw same (Grows-refl r.requested_qty r.filled_qty w)
    | inr (more, added) ↦
        let left = rest-IsFinite (reported truth) r.filled_qty f w.finite w.nonneg more in
        rw added (booked-Grows r (reported truth -F r.filled_qty) left w)
  ]
  event-Grows (reconcile now (failed exc)) r f w =
      rw (kept (reconcile now (failed exc)) r tt) (Grows-refl r.requested_qty r.filled_qty w)
  event-Grows (reconcile now absent) r f w =
      rw (kept (reconcile now absent) r tt) (Grows-refl r.requested_qty r.filled_qty w)
  event-Grows (send now) r f w =
      rw (kept (send now) r tt) (Grows-refl r.requested_qty r.filled_qty w)
  event-Grows (timed_out now) r f w =
      rw (kept (timed_out now) r tt) (Grows-refl r.requested_qty r.filled_qty w)
  event-Grows (ack now id) r f w =
      rw (kept (ack now id) r tt) (Grows-refl r.requested_qty r.filled_qty w)
  event-Grows (reject now reason) r f w =
      rw (kept (reject now reason) r tt) (Grows-refl r.requested_qty r.filled_qty w)
  event-Grows (cancel now note) r f w =
      rw (kept (cancel now note) r tt) (Grows-refl r.requested_qty r.filled_qty w)

  -- While the reported quantities are finite, no run of calls, whatever raises in it, takes the filled
  -- quantity below what it was or above the order's quantity plus the tolerance of 1e-9.
  pub filled_bounded :
      (es : List (Event F)) (r : OrderRecord F)
      → All IsFiniteEvent es
      → WithinOrder r.requested_qty r.filled_qty
      → WithinOrder r.requested_qty (run_events es r).filled_qty
        × (r.filled_qty ≤F (run_events es r).filled_qty)
  unfolding run_events
  filled_bounded [] r f w = Grows-refl r.requested_qty r.filled_qty w
  filled_bounded (e ∷ es) r f w =
      let s = (apply_event e r).1 in
      let (w', g) = event-Grows e r f.0 w in
      let same = requested_kept e r in
      let (last, h) = filled_bounded es s f.1 (rw same w') in
      (rw same at last, ≤F-trans r.filled_qty s.filled_qty (run_events es s).filled_qty g h)
