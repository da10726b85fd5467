-- ===== src/Orders/Legality.antt =====
-- src/core/order_state_machine.py: terminal states, and what a retry needs.
use mathlib.Core.List.{Memᴰ}
use text.Mathlib.Text.{◌==◌ as str_eq}
use trading_os.Common.{
  if◌then◌else◌, ◌≡◌, ◌≢◌, refl, ◌∙◌, Bool, true, false, ◌⊎◌, inl, inr, some, List, [], ◌∷◌, String,
  arith,
}
use trading_os.Common.Dict.{lookup, lookup-insert}
use trading_os.Common.Effects.{ok, err}
use trading_os.Float.{Float, nought}
use trading_os.Orders.Record.{
  OrderState, OrderState-discrete, retry_of, created, unknown, failed_not_placed, terminal_states,
  legal, OrderRecord, retry_not_allowed, log,
}
use trading_os.Orders.Methods.{
  failed, absent, found, mark_sent, on_ack, on_fill, on_reject, on_cancel, on_timeout,
  reconcile_unknown,
}
use trading_os.Orders.Machine.{
  OrderStateMachine, Event, send, timed_out, ack, reject, cancel, fill, reconcile, apply_event,
  run_events, new_record, retry_as_new,
}

if_same :
    {A : Type 0} (c : Bool) (x y z : A)
    → (if c then x else (if c then y else z)) ≡ (if c then x else z)
if_same true x y z = refl
if_same false x y z = refl

module _ {F : Type 0} ⦃fl : Float F⦄ where
  terminal_step :
      (e : Event F) (r : OrderRecord F)
      → terminal_states r.state ≡ true
      → (apply_event e r).1.state ≡ r.state
  unfolding apply_event mark_sent on_ack on_fill on_reject on_cancel on_timeout reconcile_unknown
  terminal_step (send now) r h = ground arith
  terminal_step (timed_out now) r h = ground arith
  terminal_step (ack now id) r h = ground arith
  terminal_step (reject now reason) r h = ground arith
  terminal_step (cancel now note) r h = ground arith
  terminal_step (fill now qty price) r h = ground arith
  terminal_step (reconcile now answer) r h = ground arith

  -- A record in a terminal state stays in that state, whatever is called on it afterwards.
  pub terminal_absorbs :
      (es : List (Event F)) (r : OrderRecord F)
      → terminal_states r.state ≡ true
      → (run_events es r).state ≡ r.state
  unfolding run_events
  terminal_absorbs [] r h = refl
  terminal_absorbs (e ∷ es) r h =
      let step = terminal_step e r h in terminal_absorbs es (apply_event e r).1 (rw step h) ∙ step

  -- A call that asks the broker and is told that it has no such order.
  abbrev pub ConfirmsAbsence : Event F → Type 0
  ConfirmsAbsence (reconcile now absent) = Unit
  ConfirmsAbsence _ = ⊥

  absence_step :
      (e : Event F) (r : OrderRecord F)
      → (apply_event e r).1.state ≡ failed_not_placed
      → (r.state ≡ failed_not_placed) ⊎ ConfirmsAbsence e
  unfolding apply_event mark_sent on_ack on_fill on_reject on_cancel on_timeout reconcile_unknown
  absence_step (send now) r h = inl (ground arith)
  absence_step (timed_out now) r h = inl (ground arith)
  absence_step (ack now id) r h = inl (ground arith)
  absence_step (reject now reason) r h = inl (ground arith)
  absence_step (cancel now note) r h = inl (ground arith)
  absence_step (fill now qty price) r h = inl (ground arith)
  absence_step (reconcile now (failed exc)) r h = inl (ground arith)
  absence_step (reconcile now absent) r h = inr tt
  absence_step (reconcile now (found truth)) r h = inl (ground arith)

  -- A record gets to FAILED_NOT_PLACED, the only state that may be retried, through a reconciliation
  -- in which the broker confirmed that it has no such order, and in no other way.
  pub retry_needs_absence :
      (es : List (Event F)) (r : OrderRecord F)
      → r.state ≢ failed_not_placed
      → (run_events es r).state ≡ failed_not_placed
      → (e : Event F) × Memᴰ e es × ConfirmsAbsence e
  unfolding run_events
  retry_needs_absence [] r ne h = absurd (ne h)
  retry_needs_absence (e ∷ es) r ne h =
      elim (OrderState-discrete (apply_event e r).1.state failed_not_placed) [
        | yes p ↦ elim (absence_step e r p) [
          | inl q ↦ absurd (ne q)
          | inr c ↦ (e, Memᴰ.head refl, c)
        ]
        | no q ↦
            let (a, m, c) = retry_needs_absence es (apply_event e r).1 q h in (a, Memᴰ.tail m, c)
      ]

  timeout_step :
      (t : F) (r : OrderRecord F)
      → legal r.state unknown ≡ true
      → (apply_event (timed_out t) r).1.state ≡ unknown
  unfolding apply_event on_timeout
  timeout_step t r h = ground arith

  -- Calls of `reconcile_unknown` in which the lookup itself fails.
  abbrev pub failed_lookups : List (F × String) → List (Event F)
  failed_lookups [] = []
  failed_lookups ((now, exc) ∷ rest) = reconcile now (failed exc) ∷ failed_lookups rest

  failed_step :
      (now : F) (exc : String) (r : OrderRecord F)
      → r.state ≡ unknown
      → (apply_event (reconcile now (failed exc)) r).1.state ≡ unknown
  unfolding apply_event reconcile_unknown
  failed_step now exc r h = ground arith

  stays_unknown :
      (tries : List (F × String)) (r : OrderRecord F)
      → r.state ≡ unknown
      → (run_events (failed_lookups tries) r).state ≡ unknown
  unfolding run_events
  stays_unknown [] r h = h
  stays_unknown ((now, exc) ∷ rest) r h =
      stays_unknown rest (apply_event (reconcile now (failed exc)) r).1 (failed_step now exc r h)

  retry_refused :
      (id : String) (now : F) (r : OrderRecord F) (m : OrderStateMachine F) (s : OrderState)
      → r.state ≡ s
      → s ≢ failed_not_placed
      → retry_as_new id now r m ≡ (err (retry_not_allowed s), m)
  unfolding retry_as_new
  retry_refused id now r m s h ne = ground arith

  -- After a timeout, as long as every lookup at the broker fails, the order is in state UNKNOWN and a
  -- retry raises RetryNotAllowed and creates nothing: no second order is sent while the first may
  -- be alive.
  pub no_double_order :
      (t : F) (tries : List (F × String)) (id : String) (now : F) (r : OrderRecord F)
      (m : OrderStateMachine F)
      → legal r.state unknown ≡ true
      → let s = run_events (timed_out t ∷ failed_lookups tries) r in
        (s.state ≡ unknown) × (retry_as_new id now s m ≡ (err (retry_not_allowed unknown), m))
  unfolding run_events
  no_double_order t tries id now r m h =
      let u = stays_unknown tries (apply_event (timed_out t) r).1 (timeout_step t r h) in
      (u, retry_refused id now _ m unknown u (ground arith))

  -- A record that repeats the order of `r` under a new id, with nothing sent or filled.
  pub record IsFreshCopy (id : String) (r fresh : OrderRecord F) : Type 0 where
    pub new_id : fresh.client_order_id ≡ id
    pub unsent : fresh.state ≡ created
    pub unfilled : fresh.filled_qty ≡ nought
    pub same_symbol : fresh.symbol ≡ r.symbol
    pub same_direction : fresh.direction ≡ r.direction
    pub same_qty : fresh.requested_qty ≡ r.requested_qty
    pub same_leg : fresh.leg ≡ r.leg

  -- A retry of a record in FAILED_NOT_PLACED returns a record that repeats the order under the new
  -- id, with nothing sent or filled; the machine has it under that id, and all its other records are
  -- as they were.
  pub retry_as_new_lem :
      (id : String) (now : F) (r : OrderRecord F) (m : OrderStateMachine F)
      → r.state ≡ failed_not_placed
      → (fresh : OrderRecord F) × ((retry_as_new id now r m).0 ≡ ok fresh)
        × IsFreshCopy id r fresh
        × ((other : String)
            → lookup other (retry_as_new id now r m).1.records
              ≡ (if str_eq id other then some fresh else lookup other m.records))
  unfolding retry_as_new
  retry_as_new_lem id now r m h =
      let fresh =
        log now created created (retry_of r.client_order_id)
          (new_record id r.symbol r.direction r.requested_qty r.leg) in
      (
        fresh,
        rw h refl,
        record {
          new_id = refl;
          unsent = refl;
          unfilled = refl;
          same_symbol = refl;
          same_direction = refl;
          same_qty = refl;
          same_leg = refl;
        },
        λ other. rw h (simp lookup-insert (if_same (str_eq id other) _ _ _)),
      )
