-- ===== src/Orders/Trail.antt =====
-- src/core/order_state_machine.py: what the history of a record says about its state.
use mathlib.Core.List.{append-nil, append_assoc}
use trading_os.Common.{
  get_or, String, ◌≡◌, refl, sym, ◌∙◌, ap, Bool, true, false, not, ◌&&◌, ◌||◌, Option, none, some,
  List, [], ◌∷◌, ◌++◌, arith, if◌then◌else◌, Bool-cases, inl, inr,
}
use trading_os.Common.Effects.{Result, ok, err, pure, modify, gets, ◌>>=◌}
use trading_os.Float.{◌+F◌, ◌-F◌, ◌<F◌, ◌<=F◌, ◌==F◌, nought, Float}
use trading_os.Orders.Record.{
  reconcile_failed, Direction, Leg, adopted, created, sent, acked, partial, filled, rejected,
  cancelled, unknown, failed_not_placed, OrderState, legal, is_state, Entry, Note, OrderError,
  OrderRecord, RecordMethod, log, transition,
}
use trading_os.Orders.Methods.{
  same_id, is_status, status_acked, status_rejected, status_cancelled, fill_transition, adopt_fill,
  adopt_status, adopt_id, after_lookup, tolerance, Truth, Lookup, failed, absent, found, mark_sent,
  on_ack, on_fill, on_reject, on_cancel, on_timeout, reconcile_unknown, book_fill,
}
use trading_os.Orders.Machine.{
  new_record, Event, send, timed_out, ack, reject, cancel, fill, reconcile, apply_event, run_events,
}

-- Entries that lead from one state to another: each begins where the one before it ended, and
-- stays in its state or makes a transition of the table.
abbrev pub Chain : {F : Type 0} → OrderState → List (Entry F) → OrderState → Type 0
Chain s [] t = s ≡ t
Chain s (e ∷ es) t =
    (e.old ≡ s) × ((is_state e.new e.old || legal e.old e.new) ≡ true) × Chain e.new es t

-- A change of a record that its history accounts for.
pub record Trail (F : Type 0) (r r' : OrderRecord F) : Type 0 where
  pub entries : List (Entry F)
  pub grown : r'.history ≡ r.history ++ entries
  pub linked : Chain r.state entries r'.state

module _ {F : Type 0} where
  Chain-append :
      (s t u : OrderState) (xs ys : List (Entry F))
      → Chain s xs t
      → Chain t ys u
      → Chain s (xs ++ ys) u
  Chain-append s t u [] ys p q = rw p q
  Chain-append s t u (x ∷ xs) ys (a, b, c) q = (a, b, Chain-append x.new t u xs ys c q)

  pub Trail-refl : (r : OrderRecord F) → Trail F r r
  Trail-refl r = record { entries = []; grown = sym (append-nil r.history); linked = refl }

  pub Trail-trans : (r s t : OrderRecord F) → Trail F r s → Trail F s t → Trail F r t
  Trail-trans r s t p q = record {
    entries = p.entries ++ q.entries;
    grown = q.grown ∙ ap (λ h. h ++ q.entries) p.grown ∙ append_assoc r.history p.entries q.entries;
    linked = Chain-append r.state s.state t.state p.entries q.entries p.linked q.linked;
  }

  -- Fields other than the state and the history do not matter.
  Trail-from :
      (r s : OrderRecord F) {t : OrderRecord F}
      → r.state ≡ s.state
      → r.history ≡ s.history
      → Trail F s t
      → Trail F r t
  Trail-from r s p q h = record {
    entries = h.entries;
    grown = h.grown ∙ ap (λ l. l ++ h.entries) (sym q);
    linked = rw p h.linked;
  }

-- The outcome of a call on `r`, whether it returned or raised, left a trail.
record Leaves (F A : Type 0) (r : OrderRecord F) (p : Result (OrderError F) A × OrderRecord F)
    : Type 0 where
  trail : Trail F r p.1

-- A method whose every call leaves a trail.
abbrev Trails : {F A : Type 0} → RecordMethod F A → Type 0
Trails {F} {A} m = (r : OrderRecord F) → Leaves F A r (m r)

refused : (a b : Bool) → (a || b) ≡ false → (not a && not b) ≡ true
refused a b h = ground arith

admitted : (a b : Bool) → (a || b) ≡ true → (not a && not b) ≡ false
admitted a b h = ground arith

module _ {F : Type 0} where
  -- Both branches of a test leave a trail from `r`.
  branch :
      {A : Type 0} (r : OrderRecord F) (c : Bool) (x y : Result (OrderError F) A × OrderRecord F)
      → Leaves F A r x
      → Leaves F A r y
      → Leaves F A r (if c then x else y)
  branch r true x y p q = p
  branch r false x y p q = q

  still : {A : Type 0} (r : OrderRecord F) (x : Result (OrderError F) A) → Leaves F A r (x, r)
  still r x = record { trail = Trail-refl r }

  Leaves-from :
      {A : Type 0} (r s : OrderRecord F) {p : Result (OrderError F) A × OrderRecord F}
      → r.state ≡ s.state
      → r.history ≡ s.history
      → Leaves F A s p
      → Leaves F A r p
  Leaves-from r s e h l = record { trail = Trail-from r s e h l.trail }

  transition-Trails : (now : F) (t : OrderState) (n : Note F) → Trails (transition now t n)
  unfolding transition log
  transition-Trails now t n r = elim (Bool-cases (is_state t r.state || legal r.state t)) [
    | inl fine ↦
        let e : Entry F = record { at = now; old = r.state; new = t; note = n } in
        rw (admitted _ _ fine) (record {
          trail = record { entries = e ∷ []; grown = refl; linked = (refl, fine, refl) };
        })
    | inr bad ↦ rw (refused _ _ bad) (still r _)
  ]

  modify-Trails :
      (f : OrderRecord F → OrderRecord F)
      → ((r : OrderRecord F) → Trail F r (f r))
      → Trails (modify f)
  modify-Trails f h r = record { trail = h r }

  choose-Trails :
      {A : Type 0} (c : Bool) {m k : RecordMethod F A}
      → Trails m
      → Trails k
      → Trails (if c then m else k)
  choose-Trails true p q = p
  choose-Trails false p q = q

  after :
      {A B : Type 0} (r : OrderRecord F) (p : Result (OrderError F) A × OrderRecord F)
      (f : A → RecordMethod F B)
      → Leaves F A r p
      → ((a : A) → Trails (f a))
      → Leaves F B r (((λ _. p) >>= f) r)
  after r (ok a, s) f h k = record { trail = Trail-trans r s (f a s).1 h.trail (k a s).trail }
  after r (err e, s) f h k = record { trail = h.trail }

  >>=-Trails :
      {A B : Type 0} (m : RecordMethod F A) (f : A → RecordMethod F B)
      → Trails m
      → ((a : A) → Trails (f a))
      → Trails (m >>= f)
  >>=-Trails m f h k r = after r (m r) f (h r) k

is_unknown : (s : OrderState) → is_state s unknown ≡ true → s ≡ unknown
is_unknown s h = ground arith

module _ {F : Type 0} ⦃fl : Float F⦄ where
  on_ack-Trails : (now : F) (id : String) → Trails (on_ack now id)
  unfolding on_ack
  on_ack-Trails now id r =
      branch r (is_state r.state acked && same_id r.broker_order_id id) _ _ (still r _) (
        Leaves-from r (record r { broker_order_id = some id }) refl refl
          (transition-Trails now acked _ _))

  book_fill-Trails :
      (now qty price : F) (r : OrderRecord F)
      → Leaves F (Unit {0}) r (fill_transition now qty price (book_fill qty price r))
  book_fill-Trails now qty price r =
      let s = book_fill qty price r in
      Leaves-from r s refl refl (
        branch s (fl.abs (s.filled_qty -F s.requested_qty) <=F tolerance) _ _
          (transition-Trails now filled _ s) (transition-Trails now partial _ s))

  on_fill-Trails : (now qty price : F) → Trails (on_fill now qty price)
  unfolding on_fill
  on_fill-Trails now qty price r =
      let total = r.filled_qty +F qty in
      branch r (qty <=F nought) _ _ (still r _) (
        branch r ((r.requested_qty +F tolerance) <F total) _ _ (still r _) (
          branch r (total ==F nought) _ _
            (Leaves-from r (record r { filled_qty = total }) refl refl (still _ _))
            (book_fill-Trails now qty price r)))

  on_reject-Trails : (now : F) (reason : String) → Trails (on_reject now reason)
  unfolding on_reject
  on_reject-Trails now reason r =
      Leaves-from r (record r { reject_reason = some reason }) refl refl
        (transition-Trails now rejected _ _)

  adopt_status-Trails : (now : F) (truth : Truth F) → Trails (adopt_status now truth)
  adopt_status-Trails now truth =
      choose-Trails (is_status truth.status status_acked) (transition-Trails now acked _) (
        choose-Trails (is_status truth.status status_rejected) (on_reject-Trails now _) (
          choose-Trails (is_status truth.status status_cancelled)
            (transition-Trails now cancelled _) (λ r. still r _)))

  adopt_fill-Trails : (now total price : F) → Trails (adopt_fill now total price)
  adopt_fill-Trails now total price r =
      >>=-Trails (if is_state r.state unknown then transition now acked adopted else pure tt)
        (λ _. on_fill now (total -F r.filled_qty) price)
        (choose-Trails (is_state r.state unknown) (transition-Trails now acked adopted)
          (λ s. still s _))
        (λ _. on_fill-Trails now _ price) r

  after_adopt-Trails :
      (now : F) (truth : Truth F) (done : F) (price : Option F)
      → Trails (λ (r : OrderRecord F).
        (elim price as (λ _. RecordMethod F (Unit {0})) [
          | none ↦ adopt_status now truth
          | some price ↦
              if done <F get_or truth.filled_qty nought
              then adopt_fill now (get_or truth.filled_qty nought) price
              else adopt_status now truth
        ])
          r)
  after_adopt-Trails now truth done none = adopt_status-Trails now truth
  after_adopt-Trails now truth done (some price) =
      choose-Trails (done <F get_or truth.filled_qty nought) (adopt_fill-Trails now _ price)
        (adopt_status-Trails now truth)

  after_lookup-Trails :
      (now : F) (answer : Lookup F)
      → (r : OrderRecord F) → r.state ≡ unknown
      → Leaves F (Unit {0}) r (after_lookup now answer r)
  unfolding log
  after_lookup-Trails now (failed exc) r h =
      let e : Entry F = record {
        at = now;
        old = unknown;
        new = unknown;
        note = reconcile_failed exc;
      } in
      record { trail = record { entries = e ∷ []; grown = refl; linked = (sym h, refl, sym h) } }
  after_lookup-Trails now absent r h = transition-Trails now failed_not_placed _ r
  after_lookup-Trails now (found truth) r h =
      Leaves-from r (adopt_id truth r) refl refl
        (after_adopt-Trails now truth r.filled_qty truth.avg_price (adopt_id truth r))

  reconcile-Trails : (now : F) (answer : Lookup F) → Trails (reconcile_unknown now answer)
  unfolding reconcile_unknown
  reconcile-Trails now answer r = elim (Bool-cases (is_state r.state unknown)) [
    | inl h ↦ rw h (
        after r (after_lookup now answer r) (λ _. gets (λ s. s.state))
          (after_lookup-Trails now answer r (is_unknown r.state h)) (λ _ s. still s _))
    | inr h ↦ rw h (still r _)
  ]

  -- Every call on a record, also one that raises, extends its history by a legal chain from the
  -- state before the call to the state after it.
  apply_event-Trails : (e : Event F) → Trails (apply_event e)
  unfolding apply_event mark_sent on_timeout on_cancel
  apply_event-Trails (send now) = transition-Trails now sent _
  apply_event-Trails (timed_out now) = transition-Trails now unknown _
  apply_event-Trails (ack now id) = on_ack-Trails now id
  apply_event-Trails (reject now reason) = on_reject-Trails now reason
  apply_event-Trails (cancel now note) = transition-Trails now cancelled _
  apply_event-Trails (fill now qty price) = on_fill-Trails now qty price
  apply_event-Trails (reconcile now answer) =
      >>=-Trails (reconcile_unknown now answer) (λ _. pure tt) (reconcile-Trails now answer)
        (λ _ r. still r _)

  pub run_events-Trail : (es : List (Event F)) (r : OrderRecord F) → Trail F r (run_events es r)
  unfolding run_events
  run_events-Trail [] r = Trail-refl r
  run_events-Trail (e ∷ es) r =
      let s = (apply_event e r).1 in
      Trail-trans r s (run_events es s) (apply_event-Trails e r).trail (run_events-Trail es s)

  -- The history of an order, from its creation on, is a legal chain of states from CREATED to its
  -- present state, whatever was called on it and whichever calls raised.
  pub history-Chain :
      (id symbol : String) (direction : Direction) (qty : F) (leg : Leg) (es : List (Event F))
      → let r = run_events es (new_record id symbol direction qty leg) in
        Chain created r.history r.state
  unfolding new_record
  history-Chain id symbol direction qty leg es =
      let t = run_events-Trail es (new_record id symbol direction qty leg) in rw t.grown t.linked
