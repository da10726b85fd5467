-- ===== src/Routing/Settled.antt =====
-- src/core/order_router.py: what a result says of its order.
use text.Mathlib.TextEquality.{eq_iff}
use trading_os.Common.{String, ◌≡◌, refl, sym, Bool, true, false, Option, none, some, get_or, arith}
use trading_os.Common.Dict.{lookup, lookup-insert}
use trading_os.Common.Effects.{Result, ok, err, pure, ◌>>=◌, ◌>>◌}
use trading_os.Common.Steps.{Yields, ok-Yields, err-Yields, >>=-Yields, if-Yields}
use trading_os.Float.{Float, ◌<F◌, nought}
use trading_os.Orders.Record.{OrderError, OrderRecord, RecordMethod, transition, log}
use trading_os.Orders.Machine.{create}
use trading_os.Orders.Methods.{mark_sent, on_ack, on_fill, on_reject, on_timeout, reconcile_unknown}
use trading_os.Routing.Request.{
  OrderRequest, RouteReason, RouteResult, AuditRow, posted, looked_up, Response, transport_error,
  other_error, unreadable, http_error, answered, Reply, Answers, RouteError, order_raised,
  dispatch_timeout_reconciled, broker_rejected, accepted_in,
}
use trading_os.Routing.Dispatch.{
  RouterConfig, Desk, note, on_record, stored, audit, audit_row, payload_for, after_timeout,
  book_reply, after_reply, by_response, dispatch, first_id, dispatched_as, is_live, lift,
}
use trading_os.Routing.Router.{
  Router, tell_filled, call_on_filled, close_route, was_filled, reject, send_order, route_order,
}
use trading_os.Routing.Cleared.{leg_of, Cleared, route_order-P}

module _ {F : Type 0} where
  -- The state machine has this record under its id.
  abbrev pub Holds : OrderRecord F → Desk F → Type 0
  Holds rec d = lookup rec.client_order_id d.osm.records ≡ some rec

  pub Holds-stored : (rec : OrderRecord F) (d : Desk F) → Holds rec (stored rec d)
  Holds-stored rec d = ground (
    arith,
    lookup-insert rec.client_order_id rec.client_order_id rec d.osm.records,
    eq_iff rec.client_order_id rec.client_order_id,
  )

  -- A result either has no order and is not accepted, or has the order that the state machine has, and is
  -- accepted exactly if that is alive at the broker or filled.
  pub data Settled (result : RouteResult F) (d : Desk F) : Type 0 where
    no_order : result.order ≡ none → result.accepted ≡ false → Settled result d
    with_order :
        (rec : OrderRecord F)
        → result.order ≡ some rec
        → result.accepted ≡ is_live rec.state
        → Holds rec d
        → Settled result d

  on_record-Yields :
      (rec : OrderRecord F) (m : RecordMethod F (Unit {0})) (Q : OrderRecord F → Type 0)
      (d : Desk F)
      → ((m rec).0 ≡ ok tt → Q (m rec).1)
      → Yields (λ rec' d'. Q rec' × Holds rec' d') (on_record rec m d)
  on_record-Yields rec m Q d = go (m rec)
    where
      go :
          (p : Result (OrderError F) (Unit {0}) × OrderRecord F)
          → (p.0 ≡ ok tt → Q p.1)
          → Yields {A = OrderRecord F}
              (λ rec' d'. Q rec' × Holds rec' d')
              (
                elim p.0 as (λ _. Result (RouteError F) (OrderRecord F)) [
                  | ok x ↦ ok p.1
                  | err e ↦ err (order_raised e)
                ],
                stored p.1 d,
              )
      go (ok x, rec') q = ok-Yields rec' _ (q refl, Holds-stored rec' d)
      go (err e, rec') q = err-Yields _ _

  audit-Holds :
      (a : Answers F) (row : AuditRow F) (rec : OrderRecord F) (d : Desk F)
      → Holds rec d
      → Yields (λ _ t. Holds rec t) (audit a row d)
  audit-Holds a row rec d h = if-Yields a.audit_wired (ok-Yields tt _ h) (ok-Yields tt d h)

module _ {F : Type 0} ⦃fl : Float F⦄ where
  on_reject-dead :
      (now : F) (code : String) (r : OrderRecord F)
      → (on_reject now code r).0 ≡ ok tt
      → is_live (on_reject now code r).1.state ≡ false
  unfolding on_reject transition log
  on_reject-dead now code r h = ground arith

  on_ack-live :
      (now : F) (id : String) (r : OrderRecord F)
      → (on_ack now id r).0 ≡ ok tt
      → is_live (on_ack now id r).1.state ≡ true
  unfolding on_ack transition log
  on_ack-live now id r h = ground arith

  on_fill-live :
      (now qty price : F) (r : OrderRecord F)
      → (on_fill now qty price r).0 ≡ ok tt
      → is_live (on_fill now qty price r).1.state ≡ true
  unfolding on_fill transition log
  on_fill-live now qty price r h = ground arith

  -- what a dispatch returns
  abbrev Dispatched : RouteResult F × OrderRecord F → Desk F → Type 0
  Dispatched (result, rec) d =
      (result.order ≡ some rec) × (result.accepted ≡ is_live rec.state) × Holds rec d

  after_timeout-Yields :
      (a : Answers F) (rec : OrderRecord F) (d : Desk F) → Yields Dispatched (after_timeout a rec d)
  after_timeout-Yields a rec d =
      >>=-Yields {Q = λ rec' d'. Unit × Holds rec' d'} d (on_record rec (on_timeout a.now) d)
        (λ rec'. note (looked_up rec'.client_order_id) >>= λ _.
          on_record rec' (reconcile_unknown a.now a.lookup >> pure tt) >>= λ rec''.
          pure
            (dispatched_as (is_live rec''.state) (dispatch_timeout_reconciled rec''.state) rec''))
        (on_record-Yields rec (on_timeout a.now) (λ _. Unit) d (λ _. tt))
        (λ rec' e h.
          let e' = (note (looked_up rec'.client_order_id) e).1 in
          let m = reconcile_unknown a.now a.lookup >> pure tt in
          >>=-Yields {Q = λ rec'' d'. Unit × Holds rec'' d'} e' (on_record rec' m e')
            (λ rec''.
              pure (
                dispatched_as (is_live rec''.state) (dispatch_timeout_reconciled rec''.state)
                  rec''))
            (on_record-Yields rec' m (λ _. Unit) e' (λ _. tt))
            (λ rec'' f h. ok-Yields _ f (refl, refl, h.1)))

  after_reply-Yields :
      (a : Answers F) (entry : F) (reply : Reply F) (rec : OrderRecord F) (d : Desk F)
      → Yields Dispatched (after_reply a entry reply rec d)
  after_reply-Yields a entry reply rec d =
      let id = first_id reply.orderid reply.broker_order_id in
      let qty = get_or reply.filled_qty nought in
      let price = get_or reply.avg_price entry in
      let Live = λ (rec : OrderRecord F) (d : Desk F). (is_live rec.state ≡ true) × Holds rec d in
      >>=-Yields {Q = Live} d (on_record rec (on_ack a.now id) d)
        (λ rec'. book_reply a entry reply rec' >>= λ rec''.
          pure (dispatched_as true (accepted_in rec''.state) rec''))
        (on_record-Yields rec (on_ack a.now id) (λ r. is_live r.state ≡ true) d
          (on_ack-live a.now id rec))
        (λ rec' e h.
          >>=-Yields {Q = Live} e (book_reply a entry reply rec' e)
            (λ rec''. pure (dispatched_as true (accepted_in rec''.state) rec''))
            (if-Yields (nought <F qty)
              (on_record-Yields rec' (on_fill a.now qty price) (λ r. is_live r.state ≡ true) e
                (on_fill-live a.now qty price rec'))
              (ok-Yields rec' e h))
            (λ rec'' f h. ok-Yields _ f (refl, sym h.0, h.1)))

  by_response-Yields :
      (a : Answers F) (entry : F) (response : Response F) (rec : OrderRecord F) (d : Desk F)
      → Yields Dispatched (by_response a entry response rec d)
  by_response-Yields a entry transport_error rec d = after_timeout-Yields a rec d
  by_response-Yields a entry other_error rec d = err-Yields _ d
  by_response-Yields a entry unreadable rec d = err-Yields _ d
  by_response-Yields a entry (http_error code) rec d =
      >>=-Yields {Q = λ rec d. (is_live rec.state ≡ false) × Holds rec d} d
        (on_record rec (on_reject a.now code) d)
        (λ rec'. pure (dispatched_as false (broker_rejected code) rec'))
        (on_record-Yields rec (on_reject a.now code) (λ r. is_live r.state ≡ false) d
          (on_reject-dead a.now code rec))
        (λ rec' e h. ok-Yields _ e (refl, sym h.0, h.1))
  by_response-Yields a entry (answered reply) rec d = after_reply-Yields a entry reply rec d

  dispatch-Yields :
      (cfg : RouterConfig F) (a : Answers F) (req : OrderRequest F) (rec : OrderRecord F)
      (d : Desk F)
      → Yields Dispatched (dispatch cfg a req rec d)
  unfolding dispatch
  dispatch-Yields cfg a req rec d =
      >>=-Yields {Q = λ _ _. Unit} d (lift (payload_for cfg rec req) d)
        (λ p. on_record rec (mark_sent a.now) >>= λ rec'.
          note (posted p) >>= λ _. by_response a req.entry a.response rec')
        (record { holds = λ _ _. tt })
        (λ p e u.
          >>=-Yields {Q = λ _ _. Unit} e (on_record rec (mark_sent a.now) e)
            (λ rec'. note (posted p) >>= λ _. by_response a req.entry a.response rec')
            (record { holds = λ _ _. tt })
            (λ rec' f v. by_response-Yields a req.entry a.response rec' (note (posted p) f).1))

  tell_filled-Holds :
      (o : Option Bool) (rec r : OrderRecord F) (d : Desk F)
      → Holds r d
      → Yields (λ _ t. Holds r t) (tell_filled o rec d)
  tell_filled-Holds none rec r d h = ok-Yields tt d h
  tell_filled-Holds (some returns) rec r d h = record { holds = λ x e. h }

  close_route-Yields :
      (a : Answers F) (req : OrderRequest F) (x : RouteResult F × OrderRecord F) (d : Desk F)
      → Dispatched x d
      → Yields Settled (close_route a req x d)
  close_route-Yields a req (result, rec) d (o, l, h) =
      let row = audit_row req false result.reason nought (some rec) in
      >>=-Yields {Q = λ _ t. Holds rec t} d (audit a row d)
        (λ _. call_on_filled a rec >>= λ _. pure result) (audit-Holds a row rec d h)
        (λ _ e h.
          >>=-Yields {Q = λ _ t. Holds rec t} e (call_on_filled a rec e) (λ _. pure result)
            (if-Yields (was_filled rec.state) (tell_filled-Holds a.on_filled rec rec e h)
              (ok-Yields tt e h))
            (λ _ f h. ok-Yields result f (with_order rec o l h)))

  -- A call of `route_order` that returns says the truth: the result has no order and is not accepted, or
  -- it has the order as the state machine has it, and is accepted exactly if that order is ACKED,
  -- PARTIAL or FILLED, also after a timeout and its reconciliation.
  pub result-Settled :
      (cfg : RouterConfig F) (a : Answers F) (req : OrderRequest F) (r : Router F)
      (result : RouteResult F)
      → (route_order cfg a req r).0 ≡ ok result
      → Settled result (route_order cfg a req r).1.desk
  result-Settled cfg a req r =
      (route_order-P cfg a req r (Yields (λ result v. Settled result v.desk))
        (λ v e h. err-Yields e v) rejected_yields sent_yields).holds
    where
      rejected_yields :
          (v : Router F) (reason : RouteReason F)
          → v.desk ≡ r.desk
          → Yields (λ result v. Settled result v.desk) (reject a req reason v)
      rejected_yields v reason h = record {
        holds =
            (>>=-Yields {Q = λ _ _. Unit} {P = Settled} v.desk
              (audit a (audit_row req true reason nought none) v.desk)
              (λ _. pure (record { accepted = false; reason = reason; order = none }))
              (record { holds = λ _ _. tt }) (λ _ t _. ok-Yields _ t (no_order refl refl))).holds;
      }

      sent_yields :
          (v : Router F) (qty : F)
          → v.desk ≡ r.desk
          → Cleared cfg a req r qty
          → Yields
              (λ result v. Settled result v.desk)
              (send_order cfg a req (leg_of cfg a req) qty v)
      sent_yields v qty h c =
          let made = create a.fresh_id req.symbol req.direction qty (leg_of cfg a req) v.desk.osm in
          let d : Desk F = record v.desk { osm = made.1 } in
          record {
            holds =
                (>>=-Yields {Q = Dispatched} {P = Settled} d (dispatch cfg a req made.0 d)
                  (close_route a req) (dispatch-Yields cfg a req made.0 d)
                  (λ x e h. close_route-Yields a req x e h)).holds;
          }
