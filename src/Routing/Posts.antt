-- ===== src/Routing/Posts.antt =====
-- src/core/order_router.py: what `_dispatch` and the steps around it send to the broker.
use mathlib.Core.List.{append-nil, append_assoc}
use trading_os.Common.{
  ◌≡◌, refl, sym, ◌∙◌, ap, ◌⊎◌, inl, inr, Bool, true, false, Option, none, some, List, [], ◌∷◌,
  ◌++◌, get_or,
}
use trading_os.Common.Effects.{ok, err, pure, raise, ◌>>=◌, ◌>>◌}
use trading_os.Common.Steps.{
  IsPreorder, Within, stay-Respects, >>=-Within, branch-Respects, mixed-Respects,
}
use trading_os.Float.{Float, ◌<F◌, nought}
use trading_os.Orders.Record.{OrderRecord, RecordMethod}
use trading_os.Orders.Methods.{mark_sent, on_ack, on_fill, on_reject, on_timeout, reconcile_unknown}
use trading_os.Routing.Request.{
  OrderRequest, RouteResult, AuditRow, Payload, Sent, posted, looked_up, audited, told_filled,
  Response, transport_error, other_error, unreadable, http_error, answered, Reply, Answers,
  RouteError, post_raised, bad_reply, dispatch_timeout_reconciled, broker_rejected, accepted_in,
}
use trading_os.Routing.Dispatch.{
  RouterConfig, Desk, DeskMethod, note, on_record, audit, payload_for, after_timeout, book_reply,
  by_response, dispatch, first_id, dispatched_as, audit_row, is_live,
}
use trading_os.Routing.Router.{tell_filled, call_on_filled, close_route, was_filled}

module _ {F : Type 0} where
  abbrev pub posts : List (Sent F) → List (Payload F)
  posts [] = []
  posts (posted p ∷ ss) = p ∷ posts ss
  posts (looked_up id ∷ ss) = posts ss
  posts (audited row ∷ ss) = posts ss
  posts (told_filled rec ∷ ss) = posts ss

  pub posts-append : (xs ys : List (Sent F)) → posts (xs ++ ys) ≡ posts xs ++ posts ys
  posts-append [] ys = refl
  posts-append (posted p ∷ xs) ys = ap (λ l. p ∷ l) (posts-append xs ys)
  posts-append (looked_up id ∷ xs) ys = posts-append xs ys
  posts-append (audited row ∷ xs) ys = posts-append xs ys
  posts-append (told_filled rec ∷ xs) ys = posts-append xs ys

  -- A step after which the trace is longer by entries whose orders are `ps`.
  pub record Posts (ps : List (Payload F)) (d d' : Desk F) : Type 0 where
    pub made : List (Sent F)
    pub grown : d'.trace ≡ d.trace ++ made
    pub orders : posts made ≡ ps

  pub Posts-join :
      (ps qs : List (Payload F)) (d e f : Desk F)
      → Posts ps d e
      → Posts qs e f
      → Posts (ps ++ qs) d f
  Posts-join ps qs d e f p q = record {
    made = p.made ++ q.made;
    grown = q.grown ∙ ap (λ h. h ++ q.made) p.grown ∙ append_assoc d.trace p.made q.made;
    orders =
        posts-append p.made q.made
        ∙ ap (λ l. l ++ posts q.made) p.orders
        ∙ ap (λ l. ps ++ l) q.orders;
  }

  -- A step that sends no order.
  abbrev pub Quiet : Desk F → Desk F → Type 0
  Quiet = Posts []

  -- A step that sends one order at most, `p`.
  abbrev pub AtMost : Payload F → Desk F → Desk F → Type 0
  AtMost p d e = Posts [] d e ⊎ Posts (p ∷ []) d e

  pub AtMost-Quiet : (p : Payload F) (d e f : Desk F) → AtMost p d e → Quiet e f → AtMost p d f
  AtMost-Quiet p d e f (inl q) s = inl (Posts-join [] [] d e f q s)
  AtMost-Quiet p d e f (inr q) s = inr (Posts-join (p ∷ []) [] d e f q s)

  Quiet-IsPreorder : IsPreorder Quiet
  Quiet-IsPreorder = record {
    reflexive = λ d. record { made = []; grown = sym (append-nil d.trace); orders = refl };
    transitive = Posts-join [] [];
  }

  one-made :
      (s : Sent F) (d : Desk F) (osm : _)
      → Posts (posts (s ∷ [])) d (record { osm = osm; trace = d.trace ++ (s ∷ []) })
  one-made s d osm = record { made = s ∷ []; grown = refl; orders = refl }

  on_record-Quiet :
      (rec : OrderRecord F) (m : RecordMethod F (Unit {0})) → Within Quiet (on_record rec m)
  on_record-Quiet rec m d = record {
    related = record { made = []; grown = sym (append-nil d.trace); orders = refl };
  }

  pure-Quiet : {A : Type 0} (x : A) → Within Quiet (pure {S = Desk F} {E = RouteError F} x)
  pure-Quiet x d = stay-Respects Quiet-IsPreorder d _

  raise-Quiet : {A : Type 0} (x : RouteError F) → Within Quiet (raise {S = Desk F} {A = A} x)
  raise-Quiet x d = stay-Respects Quiet-IsPreorder d _

  pub audit-Quiet : (a : Answers F) (row : AuditRow F) → Within Quiet (audit a row)
  audit-Quiet a row d =
      branch-Respects d a.audit_wired (record { related = one-made (audited row) d d.osm })
        (stay-Respects Quiet-IsPreorder d _)

  tell_filled-Quiet :
      ⦃fl : Float F⦄ (o : Option Bool) (rec : OrderRecord F) → Within Quiet (tell_filled o rec)
  tell_filled-Quiet none rec d = stay-Respects Quiet-IsPreorder d _
  tell_filled-Quiet (some returns) rec d = record { related = one-made (told_filled rec) d d.osm }

  join-Quiet :
      {A B : Type 0} (m : DeskMethod F A) (f : A → DeskMethod F B)
      → Within Quiet m
      → ((a : A) → Within Quiet (f a))
      → Within Quiet (m >>= f)
  join-Quiet m f = >>=-Within Quiet-IsPreorder m f

  pub audit-pure-Quiet :
      {A : Type 0} (a : Answers F) (row : AuditRow F) (x : A)
      → Within Quiet (audit a row >>= λ _. pure x)
  audit-pure-Quiet a row x =
      join-Quiet (audit a row) (λ _. pure x) (audit-Quiet a row) (λ _. pure-Quiet x)

module _ {F : Type 0} ⦃fl : Float F⦄ where
  pub close_route-Quiet :
      (a : Answers F) (req : OrderRequest F) (x : RouteResult F × OrderRecord F)
      → Within Quiet (close_route a req x)
  close_route-Quiet a req (result, rec) =
      join-Quiet (audit a (audit_row req false result.reason nought (some rec)))
        (λ _. call_on_filled a rec >>= λ _. pure result) (audit-Quiet a _)
        (λ _.
          join-Quiet (call_on_filled a rec) (λ _. pure result)
            (λ d.
              branch-Respects d (was_filled rec.state) (tell_filled-Quiet a.on_filled rec d)
                (pure-Quiet tt d))
            (λ _. pure-Quiet result))

  after_timeout-Quiet : (a : Answers F) (rec : OrderRecord F) → Within Quiet (after_timeout a rec)
  after_timeout-Quiet a rec =
      join-Quiet (on_record rec (on_timeout a.now)) _ (on_record-Quiet rec (on_timeout a.now))
        (λ rec'.
          join-Quiet _
            (λ rec''.
              pure (
                dispatched_as (is_live rec''.state) (dispatch_timeout_reconciled rec''.state)
                  rec''))
            (join-Quiet (note (looked_up rec'.client_order_id))
              (λ _. on_record rec' (reconcile_unknown a.now a.lookup >> pure tt))
              (λ d. record { related = one-made (looked_up rec'.client_order_id) d d.osm })
              (λ _. on_record-Quiet rec' (reconcile_unknown a.now a.lookup >> pure tt)))
            (λ rec''. pure-Quiet _))

  book_reply-Quiet :
      (a : Answers F) (entry : F) (reply : Reply F) (rec : OrderRecord F)
      → Within Quiet (book_reply a entry reply rec)
  book_reply-Quiet a entry reply rec d =
      branch-Respects d (nought <F get_or reply.filled_qty nought)
        (on_record-Quiet rec
          (on_fill a.now (get_or reply.filled_qty nought) (get_or reply.avg_price entry)) d)
        (pure-Quiet rec d)

  by_response-Quiet :
      (a : Answers F) (entry : F) (response : Response F) (rec : OrderRecord F)
      → Within Quiet (by_response a entry response rec)
  by_response-Quiet a entry transport_error rec = after_timeout-Quiet a rec
  by_response-Quiet a entry other_error rec = raise-Quiet post_raised
  by_response-Quiet a entry unreadable rec = raise-Quiet bad_reply
  by_response-Quiet a entry (http_error code) rec =
      join-Quiet (on_record rec (on_reject a.now code)) _
        (on_record-Quiet rec (on_reject a.now code))
        (λ rec'. pure-Quiet (dispatched_as false (broker_rejected code) rec'))
  by_response-Quiet a entry (answered reply) rec =
      join-Quiet (on_record rec (on_ack a.now (first_id reply.orderid reply.broker_order_id))) _
        (on_record-Quiet rec (on_ack a.now (first_id reply.orderid reply.broker_order_id)))
        (λ rec'.
          join-Quiet (book_reply a entry reply rec') _ (book_reply-Quiet a entry reply rec')
            (λ rec''. pure-Quiet (dispatched_as true (accepted_in rec''.state) rec'')))

  -- `_dispatch` sends at most the order of its payload, and none if there is no payload.
  pub dispatch-AtMost :
      (cfg : RouterConfig F) (a : Answers F) (req : OrderRequest F) (rec : OrderRecord F)
      (p : Payload F)
      → payload_for cfg rec req ≡ ok p
      → Within (AtMost p) (dispatch cfg a req rec)
  unfolding dispatch
  dispatch-AtMost cfg a req rec p h d = rw h (
      mixed-Respects {P = Quiet} {Q = Posts (p ∷ [])} d (on_record rec (mark_sent a.now) d)
        (λ rec'. note (posted p) >>= λ _. by_response a req.entry a.response rec') (λ e q. inl q)
        (λ e f q s. inr (Posts-join [] (p ∷ []) d e f q s))
        (on_record-Quiet rec (mark_sent a.now) d)
        (λ rec' e.
          mixed-Respects {P = Posts (p ∷ [])} {Q = Quiet} e (note (posted p) e)
            (λ _. by_response a req.entry a.response rec') (λ f q. q)
            (λ f g q s. Posts-join (p ∷ []) [] e f g q s)
            (record { related = one-made (posted p) e e.osm })
            (λ _. by_response-Quiet a req.entry a.response rec')))

  pub dispatch-refused :
      (cfg : RouterConfig F) (a : Answers F) (req : OrderRequest F) (rec : OrderRecord F)
      (x : RouteError F) (d : Desk F)
      → payload_for cfg rec req ≡ err x
      → dispatch cfg a req rec d ≡ (err x, d)
  unfolding dispatch
  dispatch-refused cfg a req rec x d h = rw h refl
