-- ===== src/Routing/Overfilled.antt =====
-- src/core/order_router.py: a reply that reports more than was ordered.
use trading_os.Common.{◌≡◌, ◌∙◌, ap, refl, true, false, some, [], ◌∷◌, ◌++◌, get_or, String}
use trading_os.Common.Effects.{Result, ok, err, bind_ok, continue, pure, ◌>>=◌}
use trading_os.Float.{Float, ◌+F◌, ◌<F◌, ◌<=F◌, nought}
use trading_os.Orders.Record.{
  OrderRecord, RecordMethod, OrderError, created, acked, sent, dispatched, broker_ack, overfill,
  transition, log,
}
use trading_os.Orders.Methods.{mark_sent, on_ack, on_fill, tolerance}
use trading_os.Routing.Request.{
  OrderRequest, Payload, posted, answered, accepted_in, Reply, Answers, RouteError, order_raised,
}
use trading_os.Routing.Dispatch.{
  RouterConfig, Desk, note, on_record, stored, payload_for, book_reply, by_response, dispatch,
  dispatched_as, first_id,
}
use trading_os.Routing.Router.{Router, close_route, route_order}
use trading_os.Routing.Cleared.{leg_of, Cleared, IsPayload}
use trading_os.Routing.Sends.{guarded_router, guarded_router-desk, route_order-sends}
use trading_os.Routing.Settled.{Holds-stored}
use trading_os.Orders.Machine.{create, new_record}
use trading_os.Common.Dict.{lookup}

module _ {F : Type 0} ⦃fl : Float F⦄ where
  mark_sent-created :
      (now : F) (rec : OrderRecord F)
      → rec.state ≡ created
      → mark_sent now rec ≡ (ok tt, record (log now created sent dispatched rec) { state = sent })
  unfolding mark_sent transition
  mark_sent-created now rec h = rw h refl

  on_ack-sent :
      (now : F) (id : String) (rec : OrderRecord F)
      → rec.state ≡ sent
      → on_ack now id rec ≡ (
        ok tt,
        record (log now sent acked (broker_ack id) (record rec { broker_order_id = some id })) {
          state = acked;
        },
      )
  unfolding on_ack transition
  on_ack-sent now id rec h = rw h refl

  on_fill-overfill :
      (now qty price : F) (rec : OrderRecord F)
      → (qty <=F nought) ≡ false
      → ((rec.requested_qty +F tolerance) <F (rec.filled_qty +F qty)) ≡ true
      → on_fill now qty price rec ≡ (err (overfill (rec.filled_qty +F qty) rec.requested_qty), rec)
  unfolding on_fill
  on_fill-overfill now qty price rec p o = rw (p, o) refl

  on_record-ok :
      (rec rec' : OrderRecord F) (m : RecordMethod F (Unit {0})) (d : Desk F)
      → m rec ≡ (ok tt, rec')
      → on_record rec m d ≡ (ok rec', stored rec' d)
  on_record-ok rec rec' m d h =
      ap
        (λ p. (
          elim p.0 as (λ _. Result (RouteError F) (OrderRecord F)) [
            | ok x ↦ ok p.1
            | err e ↦ err (order_raised e)
          ],
          stored p.1 d,
        ))
        h

  on_record-err :
      (rec : OrderRecord F) (e : OrderError F) (m : RecordMethod F (Unit {0})) (d : Desk F)
      → m rec ≡ (err e, rec)
      → on_record rec m d ≡ (err (order_raised e), stored rec d)
  on_record-err rec e m d h =
      ap
        (λ p. (
          elim p.0 as (λ _. Result (RouteError F) (OrderRecord F)) [
            | ok x ↦ ok p.1
            | err e ↦ err (order_raised e)
          ],
          stored p.1 d,
        ))
        h

  -- the record at the broker's acknowledgement
  abbrev pub acked_record : F → String → OrderRecord F → OrderRecord F
  acked_record now id rec =
      let rec' = record (log now created sent dispatched rec) { state = sent } in
      record (log now sent acked (broker_ack id) (record rec' { broker_order_id = some id })) {
        state = acked;
      }

  book_reply-raises :
      (a : Answers F) (entry : F) (reply : Reply F) (rec : OrderRecord F) (d : Desk F)
      → let qty = get_or reply.filled_qty nought in
        (nought <F qty) ≡ true
        → (qty <=F nought) ≡ false
        → ((rec.requested_qty +F tolerance) <F (rec.filled_qty +F qty)) ≡ true
        → book_reply a entry reply rec d
          ≡ (err (order_raised (overfill (rec.filled_qty +F qty) rec.requested_qty)), stored rec d)
  book_reply-raises a entry reply rec d p q o =
      let qty = get_or reply.filled_qty nought in
      let price = get_or reply.avg_price entry in
      rw p
        (on_record-err rec _ (on_fill a.now qty price) d (on_fill-overfill a.now qty price rec q o))

  -- the desk after a reply that cannot be booked
  abbrev pub overfilled_desk : F → Payload F → String → OrderRecord F → Desk F → Desk F
  overfilled_desk now p id rec d =
      let first = record (log now created sent dispatched rec) { state = sent } in
      let left = acked_record now id rec in
      stored left (stored left (note (posted p) (stored first d)).1)

  dispatch-overfilled :
      (cfg : RouterConfig F) (a : Answers F) (req : OrderRequest F) (rec : OrderRecord F)
      (reply : Reply F) (p : Payload F) (d : Desk F)
      → rec.state ≡ created
      → payload_for cfg rec req ≡ ok p
      → a.response ≡ answered reply
      → let qty = get_or reply.filled_qty nought in
        (nought <F qty) ≡ true
        → (qty <=F nought) ≡ false
        → ((rec.requested_qty +F tolerance) <F (rec.filled_qty +F qty)) ≡ true
        → dispatch cfg a req rec d ≡ (
          err (order_raised (overfill (rec.filled_qty +F qty) rec.requested_qty)),
          overfilled_desk a.now p (first_id reply.orderid reply.broker_order_id) rec d,
        )
  unfolding dispatch log
  dispatch-overfilled cfg a req rec reply p d c h r pos q o =
      let id = first_id reply.orderid reply.broker_order_id in
      let first : OrderRecord F = record (log a.now created sent dispatched rec) { state = sent } in
      let left = acked_record a.now id rec in
      let d1 = stored first d in
      let d2 = (note (posted p) d1).1 in
      let d3 = stored left d2 in
      let rest =
        λ (rec : OrderRecord F). note (posted p) >>= λ _. by_response a req.entry a.response rec in
      let finish = λ (rec : OrderRecord F). pure (dispatched_as true (accepted_in rec.state) rec) in
      ap
        (λ x.
          continue (x, d)
            (λ p. on_record rec (mark_sent a.now) >>= λ rec.
              note (posted p) >>= λ _. by_response a req.entry a.response rec))
        h
      ∙ bind_ok (on_record rec (mark_sent a.now)) rest
          (on_record-ok rec first (mark_sent a.now) d (mark_sent-created a.now rec c))
      ∙ ap (λ x. by_response a req.entry x first d2) r
      ∙ bind_ok (on_record first (on_ack a.now id))
          (λ rec. book_reply a req.entry reply rec >>= finish)
          (on_record-ok first left (on_ack a.now id) d2 (on_ack-sent a.now id first refl))
      ∙ ap (λ x. continue x finish) (book_reply-raises a req.entry reply left d3 pos q o)

  -- When every gate clears an order and the broker accepts it at once and reports a fill above 0 and
  -- above the quantity ordered plus the tolerance, `route_order` raises after the order was sent: the
  -- order is ACKED in the state machine with the fill left out, and the post is all that the call
  -- leaves, so it has no audit row and `on_filled` is not called, whether or not they are wired.
  pub overfilled_reply_raises :
      (cfg : RouterConfig F) (a : Answers F) (req : OrderRequest F) (qty : F) (reply : Reply F)
      (p : Payload F) (r : Router F)
      → Cleared cfg a req r qty
      → IsPayload cfg a req qty p
      → a.response ≡ answered reply
      → let reported = get_or reply.filled_qty nought in
        (nought <F reported) ≡ true
        → (reported <=F nought) ≡ false
        → ((qty +F tolerance) <F (nought +F reported)) ≡ true
        → let (result, r') = route_order cfg a req r in
          let rec = new_record a.fresh_id req.symbol req.direction qty (leg_of cfg a req) in
          let left = acked_record a.now (first_id reply.orderid reply.broker_order_id) rec in
          (result ≡ err (order_raised (overfill (nought +F reported) qty)))
          × (lookup a.fresh_id r'.desk.osm.records ≡ some left)
          × (r'.desk.trace ≡ r.desk.trace ++ (posted p ∷ []))
  unfolding create log
  overfilled_reply_raises cfg a req qty reply p r c i h pos q o =
      let leg = leg_of cfg a req in
      let id = first_id reply.orderid reply.broker_order_id in
      let rec = new_record a.fresh_id req.symbol req.direction qty leg in
      let v = guarded_router cfg a req r.layers a.equity r in
      let d : Desk F = record v.desk {
        osm = (create a.fresh_id req.symbol req.direction qty leg v.desk.osm).1;
      } in
      let e =
        ap (λ x. continue x (close_route a req))
          (dispatch-overfilled cfg a req rec reply p d refl i h pos q o) in
      let sends = route_order-sends cfg a req qty r c in
      let first : OrderRecord F = record (log a.now created sent dispatched rec) { state = sent } in
      let left = acked_record a.now id rec in
      (
        ap (λ x. x.0) sends ∙ ap (λ x. x.0) e,
        ap (λ x. lookup a.fresh_id x.1.desk.osm.records) sends
            ∙ ap (λ x. lookup a.fresh_id x.1.osm.records) e
            ∙ Holds-stored left (stored left (note (posted p) (stored first d)).1),
        ap (λ x. x.1.desk.trace) sends
            ∙ ap (λ x. x.1.trace) e
            ∙ ap (λ d. d.trace ++ (posted p ∷ []))
                (guarded_router-desk cfg a req r.layers a.equity r),
      )
