-- ===== src/Routing/Dispatch.antt =====
-- src/core/order_router.py: `_dispatch` and `_audit`. The desk holds the order state machine and what
-- has left the router; a record is its copy in the state machine, which every method on it writes.
use text.Mathlib.Text.{◌==◌ as str_eq}
use trading_os.Common.{
  String, Bool, true, false, Option, none, some, List, [], ◌∷◌, ◌++◌, ℕ, get_or, if◌then◌else◌,
}
use trading_os.Common.Dict.{insert}
use trading_os.Common.Effects.{Result, ok, err, Method, pure, raise, modify, ◌>>=◌, ◌>>◌}
use trading_os.Float.{Float, ◌<F◌, nought}
use trading_os.Orders.Record.{OrderState, acked, partial, filled, india, OrderRecord, RecordMethod}
use trading_os.Orders.Methods.{mark_sent, on_ack, on_fill, on_reject, on_timeout, reconcile_unknown}
use trading_os.Orders.Machine.{OrderStateMachine}
use trading_os.Sizing.Sizer.{RiskLimits}
use trading_os.Routing.Request.{
  OrderRequest, RouteReason, dispatch_timeout_reconciled, accepted_in, broker_rejected, RouteResult,
  AuditRow, Payload, to_openalgo, to_mt5, Sent, posted, looked_up, audited, Response,
  transport_error, other_error, unreadable, http_error, answered, Reply, Answers, RouteError,
  post_raised, bad_reply, order_raised, openalgo_order_payload,
}

-- The parts of the configuration that the router reads; `int_of` is Python's int(x), which may raise.
pub record RouterConfig (F : Type 0) : Type 0 where
  pub forex : List String
  pub crypto : List String
  pub risk : RiskLimits F
  pub margin_buffer_india : F
  pub mt5_min_free_margin_pct : F
  pub api_key : String
  pub default_exchange : String
  pub int_of : F → Option ℕ

pub record Desk (F : Type 0) : Type 0 where
  pub osm : OrderStateMachine F
  pub trace : List (Sent F)

abbrev pub DeskMethod : Type 0 → Type 0 → Type 0
DeskMethod F A = Method (Desk F) (RouteError F) A

abbrev pub is_live : OrderState → Bool
is_live acked = true
is_live partial = true
is_live filled = true
is_live _ = false

-- `reply.get("orderid") or reply.get("broker_order_id", "")`
abbrev pub first_id : Option String → Option String → String
first_id none b = get_or b ""
first_id (some a) b = if str_eq a "" then get_or b "" else a

module _ {F : Type 0} where
  abbrev pub note : Sent F → DeskMethod F (Unit {0})
  note s = modify (λ d. record d { trace = d.trace ++ (s ∷ []) })

  abbrev pub lift : {A : Type 0} → Result (RouteError F) A → DeskMethod F A
  lift r d = (r, d)

  -- A method on a record, and the record after it.
  abbrev pub stored : OrderRecord F → Desk F → Desk F
  stored rec d = record d {
    osm = record { records = insert rec.client_order_id rec d.osm.records };
  }

  abbrev pub on_record : OrderRecord F → RecordMethod F (Unit {0}) → DeskMethod F (OrderRecord F)
  on_record rec m d =
      let (r, rec') = m rec in
      (elim r [ ok x ↦ ok rec' | err e ↦ err (order_raised e) ], stored rec' d)

  -- `_audit`, which returns also if `audit_fn` raises
  abbrev pub audit_row :
      OrderRequest F → Bool → RouteReason F → F → Option (OrderRecord F) → AuditRow F
  audit_row req rejected outcome zero none = record {
    symbol = req.symbol;
    direction = req.direction;
    rejected = rejected;
    outcome = outcome;
    client_order_id = none;
    state = none;
    filled_qty = zero;
  }
  audit_row req rejected outcome zero (some rec) = record {
    symbol = req.symbol;
    direction = req.direction;
    rejected = rejected;
    outcome = outcome;
    client_order_id = some rec.client_order_id;
    state = some rec.state;
    filled_qty = rec.filled_qty;
  }

  abbrev pub audit : Answers F → AuditRow F → DeskMethod F (Unit {0})
  audit a row d =
      if a.audit_wired
      then (ok tt, record d { trace = d.trace ++ (audited row ∷ []) })
      else (ok tt, d)

module _ {F : Type 0} ⦃fl : Float F⦄ where
  abbrev pub payload_for :
      RouterConfig F → OrderRecord F → OrderRequest F → Result (RouteError F) (Payload F)
  payload_for cfg rec req = elim rec.leg [
    | india ↦
        elim (openalgo_order_payload cfg.api_key (get_or req.algo_id "") cfg.default_exchange
          rec.symbol rec.direction rec.requested_qty
          (if str_eq req.product "delivery" then "CNC" else "MIS") "MARKET" nought nought) [
            | ok p ↦ ok (to_openalgo p)
            | err e ↦ err e
          ]
    | _ ↦ ok (
        to_mt5 (record {
          client_order_id = rec.client_order_id;
          symbol = rec.symbol;
          direction = rec.direction;
          qty = rec.requested_qty;
          algo_id = req.algo_id;
          product = req.product;
        }))
  ]

  -- what `_dispatch` returns, with the record
  abbrev pub dispatched_as : Bool → RouteReason F → OrderRecord F → RouteResult F × OrderRecord F
  dispatched_as accepted reason rec =
      (record { accepted = accepted; reason = reason; order = some rec }, rec)

  -- the branch of a timeout
  abbrev pub after_timeout :
      Answers F → OrderRecord F → DeskMethod F (RouteResult F × OrderRecord F)
  after_timeout a rec = do
    rec' ← on_record rec (on_timeout a.now)
    note (looked_up rec'.client_order_id)
    rec'' ← on_record rec' (reconcile_unknown a.now a.lookup >> pure tt)
    pure (dispatched_as (is_live rec''.state) (dispatch_timeout_reconciled rec''.state) rec'')

  abbrev pub book_reply : Answers F → F → Reply F → OrderRecord F → DeskMethod F (OrderRecord F)
  book_reply a entry reply rec d =
      if nought <F get_or reply.filled_qty nought
      then on_record rec
          (on_fill a.now (get_or reply.filled_qty nought) (get_or reply.avg_price entry)) d
      else (ok rec, d)

  abbrev pub after_reply :
      Answers F → F → Reply F → OrderRecord F → DeskMethod F (RouteResult F × OrderRecord F)
  after_reply a entry reply rec = do
    rec' ← on_record rec (on_ack a.now (first_id reply.orderid reply.broker_order_id))
    rec'' ← book_reply a entry reply rec'
    pure (dispatched_as true (accepted_in rec''.state) rec'')

  abbrev pub by_response :
      Answers F → F → Response F → OrderRecord F → DeskMethod F (RouteResult F × OrderRecord F)
  by_response a entry transport_error rec = after_timeout a rec
  by_response a entry other_error rec = raise post_raised
  by_response a entry unreadable rec = raise bad_reply
  by_response a entry (http_error code) rec = do
    rec' ← on_record rec (on_reject a.now code)
    pure (dispatched_as false (broker_rejected code) rec')
  by_response a entry (answered reply) rec = after_reply a entry reply rec

  unfoldable pub dispatch :
      RouterConfig F
      → Answers F
      → OrderRequest F
      → OrderRecord F
      → DeskMethod F (RouteResult F × OrderRecord F)
  unfolding openalgo_order_payload mark_sent on_timeout on_ack on_fill on_reject reconcile_unknown
  dispatch cfg a req rec = do
    payload ← lift (payload_for cfg rec req)
    rec' ← on_record rec (mark_sent a.now)
    note (posted payload)
    by_response a req.entry a.response rec'
