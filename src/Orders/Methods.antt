-- ===== src/Orders/Methods.antt =====
-- src/core/order_state_machine.py: the methods of `OrderStateMachine` that work on one record. The
-- current time is an argument, and so is the answer of the broker in `reconcile_unknown`.
use trading_os.Common.{
  Bool, true, false, not, ◌&&◌, Option, none, some, String, get_or, if◌then◌else◌,
}
use text.Mathlib.Text.{◌==◌ as str_eq}
use trading_os.Common.Effects.{ok, err, pure, raise_if, modify, gets, ◌>>=◌, ◌>>◌}
use trading_os.Float.{Float, ◌+F◌, ◌-F◌, ◌*F◌, ◌/F◌, ◌<F◌, ◌<=F◌, ◌==F◌, nought}
use trading_os.Orders.Record.{
  OrderState, sent, acked, partial, filled, rejected, cancelled, unknown, failed_not_placed,
  is_state, dispatched, timeout_after_send, confirmed_absent, adopted, adopted_acked,
  adopted_cancelled, broker_ack, free_text, reconcile_failed, fill_at, partial_at,
  reconcile_only_from_unknown, fill_not_positive, zero_division, overfill, OrderRecord,
  RecordMethod, log, transition,
}

-- `truth.get("status")`; any other text, or none, is `other`.
pub data Status : Type 0 where
  status_acked status_rejected status_cancelled other : Status

-- The broker's dict, with `none` for a missing key (and `some none` for a key that holds None).
pub record Truth (F : Type 0) : Type 0 where
  pub broker_order_id : Option (Option String)
  pub status : Status
  pub filled_qty : Option F
  pub avg_price : Option F
  pub reason : Option String

-- What `await broker_lookup(client_order_id)` does: it raises, returns None or returns a dict.
pub data Lookup (F : Type 0) : Type 0 where
  failed : String → Lookup F
  absent : Lookup F
  found : Truth F → Lookup F

abbrev pub is_status : Status → Status → Bool
is_status status_acked status_acked = true
is_status status_rejected status_rejected = true
is_status status_cancelled status_cancelled = true
is_status _ _ = false

abbrev pub same_id : Option String → String → Bool
same_id none b = false
same_id (some a) b = str_eq a b

module _ {F : Type 0} ⦃fl : Float F⦄ where
  open fl use {abs, lit}

  abbrev pub tolerance : F
  tolerance = lit 1 9

  unfoldable pub mark_sent : F → RecordMethod F (Unit {0})
  unfolding transition
  mark_sent now = transition now sent dispatched

  unfoldable pub on_ack : F → String → RecordMethod F (Unit {0})
  unfolding transition
  on_ack now broker_order_id r =
      if is_state r.state acked && same_id r.broker_order_id broker_order_id
      then (ok tt, r)
      else transition now acked (broker_ack broker_order_id)
          (record r { broker_order_id = some broker_order_id })

  -- `prev_notional`
  abbrev pub prev_notional : OrderRecord F → F
  prev_notional r = get_or r.avg_fill_price nought *F r.filled_qty

  -- the assignments of `on_fill`, and the transition that ends it
  abbrev pub book_fill : F → F → OrderRecord F → OrderRecord F
  book_fill qty price r =
      let total = r.filled_qty +F qty in
      record r {
        filled_qty = total;
        avg_fill_price = some ((prev_notional r +F qty *F price) /F total);
      }

  abbrev pub fill_transition : F → F → F → RecordMethod F (Unit {0})
  fill_transition now qty price r =
      if abs (r.filled_qty -F r.requested_qty) <=F tolerance
      then transition now filled (fill_at qty price) r
      else transition now partial (partial_at qty price) r

  unfoldable pub on_fill : F → F → F → RecordMethod F (Unit {0})
  unfolding transition
  on_fill now qty price r =
      let new_filled = r.filled_qty +F qty in
      if qty <=F nought
      then (err fill_not_positive, r)
      else if (r.requested_qty +F tolerance) <F new_filled
      then (err (overfill new_filled r.requested_qty), r)
      else if new_filled ==F nought
      then (err zero_division, record r { filled_qty = new_filled })
      else fill_transition now qty price (book_fill qty price r)

  unfoldable pub on_reject : F → String → RecordMethod F (Unit {0})
  unfolding transition
  on_reject now reason = do
    modify (λ r. record r { reject_reason = some reason })
    transition now rejected (free_text reason)

  unfoldable pub on_cancel : F → String → RecordMethod F (Unit {0})
  unfolding transition
  on_cancel now note =
      transition now cancelled (free_text (if str_eq note "" then "cancelled" else note))

  unfoldable pub on_timeout : F → RecordMethod F (Unit {0})
  unfolding transition
  on_timeout now = transition now unknown timeout_after_send

  -- the end of `reconcile_unknown`, for a dict from the broker
  abbrev pub adopt_id : Truth F → OrderRecord F → OrderRecord F
  adopt_id truth r = record r { broker_order_id = get_or truth.broker_order_id r.broker_order_id }

  abbrev pub adopt_fill : F → F → F → RecordMethod F (Unit {0})
  adopt_fill now total price = do
    self_fill ← gets (λ r. total -F r.filled_qty)
    state ← gets (λ r. r.state)
    if is_state state unknown then transition now acked adopted else pure tt
    on_fill now self_fill price

  abbrev pub adopt_status : F → Truth F → RecordMethod F (Unit {0})
  adopt_status now truth =
      if is_status truth.status status_acked
      then transition now acked adopted_acked
      else if is_status truth.status status_rejected
      then on_reject now (get_or truth.reason "rejected at broker")
      else if is_status truth.status status_cancelled
      then transition now cancelled adopted_cancelled
      else pure tt

  abbrev pub adopt : F → Truth F → RecordMethod F (Unit {0})
  adopt now truth = do
    modify (adopt_id truth)
    done ← gets (λ r. r.filled_qty)
    let total = get_or truth.filled_qty nought
    elim truth.avg_price [
      | none ↦ adopt_status now truth
      | some price ↦ if done <F total then adopt_fill now total price else adopt_status now truth
    ]

  abbrev pub after_lookup : F → Lookup F → RecordMethod F (Unit {0})
  after_lookup now (failed exc) = modify (log now unknown unknown (reconcile_failed exc))
  after_lookup now absent = transition now failed_not_placed confirmed_absent
  after_lookup now (found truth) = adopt now truth

  -- Returns the state of the record at the end.
  unfoldable pub reconcile_unknown : F → Lookup F → RecordMethod F OrderState
  unfolding transition on_fill on_reject log
  reconcile_unknown now answer = do
    state ← gets (λ r. r.state)
    raise_if (not (is_state state unknown)) (reconcile_only_from_unknown state)
    after_lookup now answer
    gets (λ r. r.state)
