-- ===== src/Routing/Door.antt =====
-- src/core/order_router.py: what must hold before an order leaves.
use mathlib.Core.List.{append-nil}
use trading_os.Common.{
  ◌≡◌, refl, sym, ◌∙◌, ap, arith, ◌⊎◌, inl, inr, true, false, none, List, [], ◌∷◌, ◌++◌,
}
use trading_os.Common.Effects.{Result, Result-cases, continue, ok, err}
use trading_os.Common.Steps.{mixed-Respects}
use trading_os.Float.{Float, nought}
use trading_os.Orders.Record.{Leg, india, mt5_forex, mt5_crypto}
use trading_os.Orders.Machine.{create, new_record}
use trading_os.Routing.Request.{
  OrderRequest, RouteReason, RouteResult, Payload, to_openalgo, to_mt5, openalgo_order_payload,
  Sent, Answers, RouteError,
}
use trading_os.Routing.Dispatch.{RouterConfig, Desk, payload_for, dispatch, audit_row}
use trading_os.Routing.Router.{Router, reject, send_order, route_order, close_route}
use trading_os.Routing.Posts.{
  posts, Quiet, AtMost, AtMost-Quiet, audit-pure-Quiet, close_route-Quiet, dispatch-AtMost,
  dispatch-refused,
}
use trading_os.Routing.Cleared.{leg_of, Cleared, IsPayload, route_order-P}

module _ {F : Type 0} ⦃fl : Float F⦄ (cfg : RouterConfig F) (a : Answers F)
    (req : OrderRequest F) where
  -- The payload has the symbol and the side of the request, and this quantity.
  abbrev pub Carries : F → Payload F → Type 0
  Carries qty (to_openalgo o) =
      (o.symbol ≡ req.symbol) × (o.action ≡ req.direction) × (o.quantity ≡ qty)
  Carries qty (to_mt5 m) = (m.symbol ≡ req.symbol) × (m.direction ≡ req.direction) × (m.qty ≡ qty)

  payload_for-Carries :
      (qty : F) (leg : Leg) (p : Payload F)
      → payload_for cfg (new_record a.fresh_id req.symbol req.direction qty leg) req ≡ ok p
      → Carries qty p
  unfolding new_record openalgo_order_payload
  payload_for-Carries qty india (to_openalgo o) h = ground arith
  payload_for-Carries qty india (to_mt5 m) h = ground arith
  payload_for-Carries qty mt5_forex (to_openalgo o) h = ground arith
  payload_for-Carries qty mt5_forex (to_mt5 m) h = ground arith
  payload_for-Carries qty mt5_crypto (to_openalgo o) h = ground arith
  payload_for-Carries qty mt5_crypto (to_mt5 m) h = ground arith

  -- What one call of `route_order` sent: nothing, or one order, and then the order was cleared.
  pub record Door (r : Router F) (v : Router F) : Type 0 where
    pub sent : List (Sent F)
    pub grown : v.desk.trace ≡ r.desk.trace ++ sent
    pub cleared :
        (posts sent ≡ [])
        ⊎ ((qty : F) × (p : Payload F) × (posts sent ≡ p ∷ [])
            × Cleared cfg a req r qty
            × IsPayload cfg a req qty p
            × Carries qty p)

  -- The outcome of a call from `r`.
  record Kept (r : Router F) (x : Result (RouteError F) (RouteResult F) × Router F) : Type 0 where
    door : Door r x.1

  still-Kept :
      (r v : Router F) (x : Result (RouteError F) (RouteResult F)) → v.desk ≡ r.desk → Kept r (x, v)
  still-Kept r v x h = record {
    door = record {
      sent = [];
      grown = ap (λ d. d.trace) h ∙ sym (append-nil r.desk.trace);
      cleared = inl refl;
    };
  }

  reject-Kept :
      (r v : Router F) (reason : RouteReason F) → v.desk ≡ r.desk → Kept r (reject a req reason v)
  reject-Kept r v reason h =
      let refused : RouteResult F = record { accepted = false; reason = reason; order = none } in
      let q = (audit-pure-Quiet a (audit_row req true reason nought none) refused v.desk).related in
      record {
        door = record {
          sent = q.made;
          grown = q.grown ∙ ap (λ d. d.trace ++ q.made) h;
          cleared = inl q.orders;
        };
      }

  -- A step from a desk with the same trace, in which at most a cleared order is sent.
  sending-Door :
      (r v : Router F) (d : Desk F) (qty : F) (p : Payload F)
      → d.trace ≡ r.desk.trace
      → Cleared cfg a req r qty
      → IsPayload cfg a req qty p
      → AtMost p d v.desk
      → Door r v
  sending-Door r v d qty p h c i (inl q) = record {
    sent = q.made;
    grown = q.grown ∙ ap (λ t. t ++ q.made) h;
    cleared = inl q.orders;
  }
  sending-Door r v d qty p h c i (inr q) = record {
    sent = q.made;
    grown = q.grown ∙ ap (λ t. t ++ q.made) h;
    cleared = inr (qty, p, q.orders, c, i, payload_for-Carries qty (leg_of cfg a req) p i);
  }

  sending-Kept :
      (r v : Router F) (qty : F)
      → v.desk ≡ r.desk
      → Cleared cfg a req r qty
      → Kept r (send_order cfg a req (leg_of cfg a req) qty v)
  unfolding create
  sending-Kept r v qty h c =
      let rec = new_record a.fresh_id req.symbol req.direction qty (leg_of cfg a req) in
      let d : Desk F = record v.desk {
        osm = (create a.fresh_id req.symbol req.direction qty (leg_of cfg a req) v.desk.osm).1;
      } in
      let t : d.trace ≡ r.desk.trace = ap (λ d. d.trace) h in
      elim (Result-cases (payload_for cfg rec req)) [
        | inl (p, e) ↦ record {
          door =
              sending-Door r (send_order cfg a req (leg_of cfg a req) qty v).1 d qty p t c e
                (mixed-Respects {P = AtMost p} {Q = Quiet} {R = AtMost p} d
                  (dispatch cfg a req rec d) (close_route a req) (λ e q. q)
                  (λ e f q s. AtMost-Quiet p d e f q s) (dispatch-AtMost cfg a req rec p e d)
                  (close_route-Quiet a req)).related;
        }
        | inr (x, e) ↦
            let f =
              ap (λ p. (continue p (close_route a req)).1) (dispatch-refused cfg a req rec x d e) in
            record {
              door = record {
                sent = [];
                grown = ap (λ d. d.trace) f ∙ t ∙ sym (append-nil r.desk.trace);
                cleared = inl refl;
              };
            }
      ]

  -- Nothing leaves but through the door: one call of `route_order`, whatever its callees answer or
  -- raise, sends at most one order to a broker, also when that times out, and sends it only if the
  -- system is not halted, entries are not paused, an order for India is tagged, the VaR is cached and
  -- below its limit, no injected check failed, the portfolio guard let the entry pass, the sizer gave a
  -- quantity that is not 0 or below, and its margin is there; the order sent has that quantity, and
  -- the symbol and the side of the request.
  pub route_order-Door : (r : Router F) → Door r (route_order cfg a req r).1
  route_order-Door r =
      (route_order-P cfg a req r (Kept r) (λ v e. still-Kept r v (err e)) (reject-Kept r)
        (sending-Kept r)).door
