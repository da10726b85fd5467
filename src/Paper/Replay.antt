-- ===== src/Paper/Replay.antt =====
-- src/core/paper_broker.py: what a run of the broker's calls did to its account, against what its
-- tradebook says.
use text.Mathlib.Text.{◌==◌ as str_eq}
use trading_os.Common.{
  ◌≡◌, refl, sym, ◌∙◌, ap, suc, String, Bool, true, false, not, ◌&&◌, Option, none, some, List, [],
  ◌∷◌, ◌++◌, get_or, if◌then◌else◌,
}
use trading_os.Common.Dict.{Dict, lookup, insert, remove}
use trading_os.Common.Effects.{ok, err, pure, modify, ◌>>=◌}
use trading_os.Common.Steps.{still-Within, stay-Respects, >>=-Within, branch-Respects}
use trading_os.Float.{Float, ◌+F◌, ◌*F◌, ◌<=F◌, nought}
use trading_os.Paper.Broker.{
  PaperConfig, PaperFill, PaperPosition, PaperPayload, RestingOrder, PaperBroker, no_trigger_price,
  tick_not_positive, no_last_price, invalid_quantity, no_market_data, insufficient_margin,
  unknown_orderid, rested, done, traded, known, is_market, is_stop, flat, opened, signed, moved,
  fill,
}
use trading_os.Paper.Desk.{
  concerns, hit, gap_price, trigger_fill, try_trigger, visit, visit_all, on_tick, fill_now, with_id,
  place_order, move_trigger, modify_order, drop_order, cancel_order, unaffordable,
}
use trading_os.Paper.Tradebook.{
  cash_after, costs_after, position_after, position_of, Booked, quiet, Booked-IsPreorder,
  CallsBooked, fill-Booked, still-Booked,
}

-- One call of the broker.
pub data PaperCall (F : Type 0) : Type 0 where
  tick : F → String → F → PaperCall F
  place : F → PaperPayload F → PaperCall F
  change : String → F → PaperCall F
  cancel : String → PaperCall F

module _ {F : Type 0} ⦃fl : Float F⦄ where
  -- the state after the call, whether it replied or raised
  abbrev pub perform : PaperConfig F → PaperCall F → PaperBroker F → PaperBroker F
  unfolding on_tick place_order modify_order cancel_order
  perform cfg (tick now symbol price) b = (on_tick cfg now symbol price b).1
  perform cfg (place now p) b = (place_order cfg now p b).1
  perform cfg (change oid trigger) b = (modify_order oid trigger b).1
  perform cfg (cancel oid) b = (cancel_order oid b).1

  unfoldable pub run : PaperConfig F → List (PaperCall F) → PaperBroker F → PaperBroker F
  unfolding on_tick place_order modify_order cancel_order
  run cfg [] b = b
  run cfg (c ∷ cs) b = run cfg cs (perform cfg c b)

module _ {F : Type 0} ⦃fl : Float F⦄ where
  trigger_fill-Booked :
      (cfg : PaperConfig F) (now : F) (oid : String) (o : RestingOrder F) (trigger price : F)
      → CallsBooked (trigger_fill cfg now oid o trigger price)
  trigger_fill-Booked cfg now oid o trigger price =
      >>=-Within Booked-IsPreorder
        (modify (λ b. record b { open_orders = remove oid b.open_orders }))
        (λ _.
          fill cfg now oid o.payload.symbol o.payload.action o.payload.quantity
            (gap_price o.payload.action trigger price) (get_or o.payload.product "MIS"))
        (still-Booked (λ b. record b { open_orders = remove oid b.open_orders }) (ok tt)
          (λ b. (refl, refl, refl, refl)))
        (λ _.
          fill-Booked cfg now oid o.payload.symbol o.payload.action o.payload.quantity
            (gap_price o.payload.action trigger price) (get_or o.payload.product "MIS"))

  try_trigger-Booked :
      (cfg : PaperConfig F) (now : F) (oid : String) (o : RestingOrder F) (price : F)
      (trigger : Option F)
      → CallsBooked (try_trigger cfg now oid o price trigger)
  try_trigger-Booked cfg now oid o price none b =
      stay-Respects Booked-IsPreorder b (err no_trigger_price)
  try_trigger-Booked cfg now oid o price (some trigger) b =
      branch-Respects b (hit o.payload.action trigger price)
        (>>=-Within Booked-IsPreorder (trigger_fill cfg now oid o trigger price)
          (λ f. pure (f ∷ [])) (trigger_fill-Booked cfg now oid o trigger price)
          (λ f. still-Within Booked-IsPreorder (λ _. ok (f ∷ []))) b)
        (stay-Respects Booked-IsPreorder b (ok []))

  visit-Booked :
      (cfg : PaperConfig F) (now : F) (symbol : String) (price : F) (oid : String)
      (o : RestingOrder F)
      → CallsBooked (visit cfg now symbol price oid o)
  visit-Booked cfg now symbol price oid o b =
      branch-Respects b (concerns symbol o)
        (try_trigger-Booked cfg now oid o price o.payload.trigger_price b)
        (stay-Respects Booked-IsPreorder b (ok []))

  visit_all-Booked :
      (cfg : PaperConfig F) (now : F) (symbol : String) (price : F) (d : Dict (RestingOrder F))
      → CallsBooked (visit_all cfg now symbol price d)
  visit_all-Booked cfg now symbol price [] = still-Within Booked-IsPreorder (λ _. ok [])
  visit_all-Booked cfg now symbol price ((oid, o) ∷ rest) =
      >>=-Within Booked-IsPreorder (visit cfg now symbol price oid o)
        (λ first. visit_all cfg now symbol price rest >>= λ others. pure (first ++ others))
        (visit-Booked cfg now symbol price oid o)
        (λ first.
          >>=-Within Booked-IsPreorder (visit_all cfg now symbol price rest)
            (λ others. pure (first ++ others)) (visit_all-Booked cfg now symbol price rest)
            (λ others. still-Within Booked-IsPreorder (λ _. ok (first ++ others))))

  on_tick-Booked :
      (cfg : PaperConfig F) (now : F) (symbol : String) (price : F)
      → CallsBooked (on_tick cfg now symbol price)
  unfolding on_tick
  on_tick-Booked cfg now symbol price b =
      branch-Respects b (price <=F nought)
        (stay-Respects Booked-IsPreorder b (err tick_not_positive))
        (>>=-Within Booked-IsPreorder
          (modify (λ c. record c { last_price = insert symbol price c.last_price }))
          (λ _. visit_all cfg now symbol price b.open_orders)
          (still-Booked (λ c. record c { last_price = insert symbol price c.last_price }) (ok tt)
            (λ c. (refl, refl, refl, refl)))
          (λ _. visit_all-Booked cfg now symbol price b.open_orders) b)

  fill_now-Booked :
      (cfg : PaperConfig F) (now : F) (oid : String) (p : PaperPayload F) (ref : Option F)
      → CallsBooked (fill_now cfg now oid p ref)
  fill_now-Booked cfg now oid p none b = stay-Respects Booked-IsPreorder b (err no_last_price)
  fill_now-Booked cfg now oid p (some ref) b =
      branch-Respects b (unaffordable p.action (p.quantity *F ref) b.cash)
        (stay-Respects Booked-IsPreorder b (ok insufficient_margin))
        (>>=-Within Booked-IsPreorder
          (fill cfg now oid p.symbol p.action p.quantity ref (get_or p.product "MIS"))
          (λ f. pure (traded oid p.quantity f.price))
          (fill-Booked cfg now oid p.symbol p.action p.quantity ref (get_or p.product "MIS"))
          (λ f. still-Within Booked-IsPreorder (λ _. ok (traded oid p.quantity f.price))) b)

  with_id-Booked :
      (cfg : PaperConfig F) (now : F) (oid : String) (p : PaperPayload F)
      → CallsBooked (with_id cfg now oid p)
  with_id-Booked cfg now oid p b =
      branch-Respects b (is_stop p.pricetype)
        (still-Booked
          (λ c. record c {
            open_orders = insert oid (record { payload = p; rested_at = now }) c.open_orders;
          })
          (ok (rested oid)) (λ c. (refl, refl, refl, refl)) b)
        (fill_now-Booked cfg now oid p (lookup p.symbol b.last_price) b)

  place_order-Booked :
      (cfg : PaperConfig F) (now : F) (p : PaperPayload F) → CallsBooked (place_order cfg now p)
  unfolding place_order
  place_order-Booked cfg now p b =
      branch-Respects b (p.quantity <=F nought)
        (stay-Respects Booked-IsPreorder b (ok invalid_quantity))
        (branch-Respects b (not (known (lookup p.symbol b.last_price)) && is_market p.pricetype)
          (stay-Respects Booked-IsPreorder b (ok no_market_data))
          (>>=-Within Booked-IsPreorder (modify (λ c. record c { next_id = suc c.next_id }))
            (λ _. with_id cfg now (cfg.order_id b.next_id) p)
            (still-Booked (λ c. record c { next_id = suc c.next_id }) (ok tt)
              (λ c. (refl, refl, refl, refl)))
            (λ _. with_id-Booked cfg now (cfg.order_id b.next_id) p) b))

  move_trigger-Booked :
      (oid : String) (trigger : F) (o : Option (RestingOrder F))
      → CallsBooked (move_trigger oid trigger o)
  move_trigger-Booked oid trigger none = still-Within Booked-IsPreorder (λ _. ok unknown_orderid)
  move_trigger-Booked oid trigger (some o) =
      still-Booked
        (λ b. record b {
          open_orders =
              insert oid (record o { payload = record o.payload { trigger_price = some trigger } })
                b.open_orders;
        })
        (ok (done oid)) (λ b. (refl, refl, refl, refl))

  drop_order-Booked : (oid : String) (o : Option (RestingOrder F)) → CallsBooked (drop_order oid o)
  drop_order-Booked oid none = still-Within Booked-IsPreorder (λ _. ok unknown_orderid)
  drop_order-Booked oid (some o) =
      still-Booked (λ b. record b { open_orders = remove oid b.open_orders }) (ok (done oid))
        (λ b. (refl, refl, refl, refl))

  perform-Booked :
      (cfg : PaperConfig F) (c : PaperCall F) (b : PaperBroker F) → Booked b (perform cfg c b)
  unfolding on_tick place_order modify_order cancel_order
  perform-Booked cfg (tick now symbol price) b = (on_tick-Booked cfg now symbol price b).related
  perform-Booked cfg (place now p) b = (place_order-Booked cfg now p b).related
  perform-Booked cfg (change oid trigger) b =
      (move_trigger-Booked oid trigger (lookup oid b.open_orders) b).related
  perform-Booked cfg (cancel oid) b = (drop_order-Booked oid (lookup oid b.open_orders) b).related

  run-Booked :
      (cfg : PaperConfig F) (cs : List (PaperCall F)) (b : PaperBroker F) → Booked b (run cfg cs b)
  unfolding run
  run-Booked cfg [] b = quiet b b (refl, refl, refl, refl)
  run-Booked cfg (c ∷ cs) b =
      Booked-IsPreorder.transitive b (perform cfg c b) (run cfg cs (perform cfg c b))
        (perform-Booked cfg c b) (run-Booked cfg cs (perform cfg c b))

  -- the sum of the signed quantities of a symbol's fills
  abbrev pub qty_after : String → F → List (PaperFill F) → F
  qty_after symbol q [] = q
  qty_after symbol q (f ∷ fs) =
      qty_after symbol (if str_eq f.symbol symbol then q +F signed f.action f.qty else q) fs

  moved_qty :
      (c : Bool) (p : PaperPosition F) (f : PaperFill F)
      → (if c then moved p f.action f.qty f.price else p).qty
        ≡ (if c then p.qty +F signed f.action f.qty else p.qty)
  moved_qty true p f = refl
  moved_qty false p f = refl

  position_qty :
      (s : String) (p : PaperPosition F) (fs : List (PaperFill F))
      → (position_after s p fs).qty ≡ qty_after s p.qty fs
  position_qty s p [] = refl
  position_qty s p (f ∷ fs) =
      position_qty s (if str_eq f.symbol s then moved p f.action f.qty f.price else p) fs
      ∙ ap (λ q. qty_after s q fs) (moved_qty (str_eq f.symbol s) p f)

-- The account is the one that the list of fills describes.
pub record IsLedger {F : Type 0} ⦃fl : Float F⦄ (starting_cash : F) (b : PaperBroker F)
    : Type 0 where
  pub cash : b.cash ≡ cash_after starting_cash b.fills
  pub costs : b.total_costs ≡ costs_after nought b.fills
  pub position : (s : String) → position_of s b ≡ position_after s flat b.fills
  pub quantity : (s : String) → (position_of s b).qty ≡ qty_after s nought b.fills

module _ {F : Type 0} ⦃fl : Float F⦄ where
  ledger :
      (starting_cash : F) (b : PaperBroker F)
      → Booked (opened starting_cash) b
      → IsLedger starting_cash b
  ledger starting_cash b h =
      let m = h.moves in
      record {
        cash = m.cash ∙ ap (cash_after starting_cash) (sym m.fills);
        costs = m.costs ∙ ap (costs_after nought) (sym m.fills);
        position = λ s. m.position s ∙ ap (position_after s flat) (sym m.fills);
        quantity = λ s.
            ap (λ p. p.qty) (m.position s)
            ∙ position_qty s flat h.new
            ∙ ap (qty_after s nought) (sym m.fills);
      }

-- Whatever ticks, orders, changes and cancellations a paper account that was opened with some cash
-- has seen, those that raised an error included: its cash, its total costs and the position in
-- every symbol are those that the list of fills gives when its fills are applied to the opening
-- state one by one, and every position's quantity is the sum of the symbol's signed fills. No call
-- moves money or quantity without a fill in the tradebook, and no fill is left out.
pub run-IsLedger :
    {F : Type 0} ⦃fl : Float F⦄ (cfg : PaperConfig F) (cs : List (PaperCall F)) (starting_cash : F)
    → IsLedger starting_cash (run cfg cs (opened starting_cash))
run-IsLedger cfg cs starting_cash =
    ledger starting_cash (run cfg cs (opened starting_cash))
      (run-Booked cfg cs (opened starting_cash))
