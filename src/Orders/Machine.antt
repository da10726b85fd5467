-- ===== src/Orders/Machine.antt =====
-- src/core/order_state_machine.py: the class `OrderStateMachine`, with its records by client order id.
-- A record is one Python object, shared by the dict and by its holders: it is named by its id, and
-- a method on it writes the dict's copy. A fresh uuid is an argument.
use trading_os.Common.{none, List, [], ◌∷◌, String, get_or, if◌then◌else◌}
use trading_os.Common.Dict.{Dict, lookup, insert, values}
use trading_os.Common.Effects.{ok, err, Method, pure, ◌>>◌}
use trading_os.Float.{Float, ◌+F◌, ◌*F◌, ◌<F◌, nought, one}
use trading_os.Orders.Record.{
  created, failed_not_placed, is_state, Direction, buy, sell, Leg, retry_of, OrderError,
  retry_not_allowed, OrderRecord, RecordMethod, log,
}
use trading_os.Orders.Methods.{
  Lookup, mark_sent, on_ack, on_fill, on_reject, on_cancel, on_timeout, reconcile_unknown,
}

pub record OrderStateMachine (F : Type 0) : Type 0 where
  pub records : Dict (OrderRecord F)

-- A call of one method on a record, with its arguments and the time.
pub data Event (F : Type 0) : Type 0 where
  send timed_out : F → Event F
  ack reject cancel : F → String → Event F
  fill : F → F → F → Event F
  reconcile : F → Lookup F → Event F

module _ {F : Type 0} ⦃fl : Float F⦄ where
  -- the new record of `create`
  unfoldable pub new_record : String → String → Direction → F → Leg → OrderRecord F
  new_record id symbol direction qty leg = record {
    client_order_id = id;
    symbol = symbol;
    direction = direction;
    requested_qty = qty;
    leg = leg;
    state = created;
    broker_order_id = none;
    filled_qty = nought;
    avg_fill_price = none;
    reject_reason = none;
    history = [];
  }

  unfoldable pub create :
      String
      → String
      → Direction
      → F
      → Leg
      → OrderStateMachine F
      → OrderRecord F × OrderStateMachine F
  unfolding new_record
  create id symbol direction qty leg m =
      let rec = new_record id symbol direction qty leg in
      (rec, record { records = insert id rec m.records })

  -- `retry_as_new`: the fresh record is the one in the dict, so its history entry is written there.
  unfoldable pub retry_as_new :
      String → F → OrderRecord F → Method (OrderStateMachine F) (OrderError F) (OrderRecord F)
  unfolding create log
  retry_as_new id now rec m =
      if is_state rec.state failed_not_placed
      then (let (fresh, m') = create id rec.symbol rec.direction rec.requested_qty rec.leg m in
          let noted = log now created created (retry_of rec.client_order_id) fresh in
          (ok noted, record { records = insert id noted m'.records }))
      else (err (retry_not_allowed rec.state), m)

  unfoldable pub apply_event : Event F → RecordMethod F (Unit {0})
  apply_event (send now) = mark_sent now
  apply_event (timed_out now) = on_timeout now
  apply_event (ack now id) = on_ack now id
  apply_event (reject now reason) = on_reject now reason
  apply_event (cancel now note) = on_cancel now note
  apply_event (fill now qty price) = on_fill now qty price
  apply_event (reconcile now answer) = reconcile_unknown now answer >> pure tt

  -- A history of calls, each of which may raise: the caller goes on with the record as it is.
  unfoldable pub run_events : List (Event F) → OrderRecord F → OrderRecord F
  run_events [] r = r
  run_events (e ∷ es) r = run_events es (apply_event e r).1

  abbrev pub signed_qty : OrderRecord F → F
  signed_qty r = elim r.direction [ buy ↦ one | sell ↦ fl.neg one ] *F r.filled_qty

  -- the loop body of `open_exposure`
  unfoldable pub add_exposure : Dict F → OrderRecord F → Dict F
  add_exposure out r =
      if nought <F r.filled_qty
      then insert r.symbol (get_or (lookup r.symbol out) nought +F signed_qty r) out
      else out

  unfoldable pub exposure_from : Dict F → List (OrderRecord F) → Dict F
  exposure_from out [] = out
  exposure_from out (r ∷ rs) = exposure_from (add_exposure out r) rs

  unfoldable pub open_exposure : OrderStateMachine F → Dict F
  open_exposure m = exposure_from [] (values m.records)
