-- ===== src/Paper/Desk.antt =====
-- src/core/paper_broker.py: the operations of `PaperBroker`, over `_fill`.
use text.Mathlib.Text.{◌==◌ as str_eq}
use trading_os.Common.{
  suc, String, Bool, false, not, ◌&&◌, Option, none, some, List, [], ◌∷◌, ◌++◌, get_or,
  if◌then◌else◌,
}
use trading_os.Common.Dict.{Dict, lookup, insert, remove, values}
use trading_os.Common.Effects.{ok, err, pure, modify, ◌>>=◌, ◌>>◌}
use trading_os.Float.{Float, ◌+F◌, ◌-F◌, ◌*F◌, ◌<F◌, ◌<=F◌, ◌==F◌, fmax, fmin, nought}
use trading_os.Orders.Record.{Direction, buy, sell}
use trading_os.Paper.Costs.{sum_from}
use trading_os.Paper.Broker.{
  PaperConfig, PaperFill, PaperPosition, PaperPayload, RestingOrder, PaperBroker, tick_not_positive,
  no_trigger_price, no_last_price, PaperReply, invalid_quantity, no_market_data,
  insufficient_margin, unknown_orderid, rested, done, traded, PaperMethod, is_stop, is_market,
  known, fill,
}

module _ {F : Type 0} ⦃fl : Float F⦄ where
  open fl use {abs}

  -- the stop order is one of this symbol
  abbrev pub concerns : String → RestingOrder F → Bool
  concerns symbol o = str_eq o.payload.symbol symbol && is_stop o.payload.pricetype

  abbrev pub hit : Direction → F → F → Bool
  hit sell trigger price = price <=F trigger
  hit buy trigger price = trigger <=F price

  abbrev pub gap_price : Direction → F → F → F
  gap_price sell trigger price = fmin trigger price
  gap_price buy trigger price = fmax trigger price

  -- a resting stop that the price has reached
  abbrev pub trigger_fill :
      PaperConfig F → F → String → RestingOrder F → F → F → PaperMethod F (PaperFill F)
  trigger_fill cfg now oid o trigger price = do
    modify (λ b. record b { open_orders = remove oid b.open_orders })
    fill cfg now oid o.payload.symbol o.payload.action o.payload.quantity
        (gap_price o.payload.action trigger price) (get_or o.payload.product "MIS")

  abbrev pub try_trigger :
      PaperConfig F
      → F
      → String
      → RestingOrder F
      → F
      → Option F
      → PaperMethod F (List (PaperFill F))
  try_trigger cfg now oid o price none b = (err no_trigger_price, b)
  try_trigger cfg now oid o price (some trigger) b =
      if hit o.payload.action trigger price
      then (trigger_fill cfg now oid o trigger price >>= λ f. pure (f ∷ [])) b
      else (ok [], b)

  abbrev pub visit :
      PaperConfig F → F → String → F → String → RestingOrder F → PaperMethod F (List (PaperFill F))
  visit cfg now symbol price oid o b =
      if concerns symbol o
      then try_trigger cfg now oid o price o.payload.trigger_price b
      else (ok [], b)

  -- the loop of `on_tick`, over a copy of the orders
  abbrev pub visit_all :
      PaperConfig F → F → String → F → Dict (RestingOrder F) → PaperMethod F (List (PaperFill F))
  visit_all cfg now symbol price [] = pure []
  visit_all cfg now symbol price ((oid, o) ∷ rest) = do
    first ← visit cfg now symbol price oid o
    others ← visit_all cfg now symbol price rest
    pure (first ++ others)

  unfoldable pub on_tick : PaperConfig F → F → String → F → PaperMethod F (List (PaperFill F))
  unfolding fill
  on_tick cfg now symbol price b =
      if price <=F nought
      then (err tick_not_positive, b)
      else visit_all cfg now symbol price b.open_orders
          (record b { last_price = insert symbol price b.last_price })

  abbrev pub unaffordable : Direction → F → F → Bool
  unaffordable buy notional cash = cash <F notional
  unaffordable sell notional cash = false

  -- `place_order`, for a stop, which rests
  abbrev pub rest_order : F → String → PaperPayload F → PaperMethod F (PaperReply F)
  rest_order now oid p = do
    modify (λ b. record b {
      open_orders = insert oid (record { payload = p; rested_at = now }) b.open_orders;
    })
    pure (rested oid)

  -- `place_order`, for any other order, which fills at once
  abbrev pub fill_now :
      PaperConfig F → F → String → PaperPayload F → Option F → PaperMethod F (PaperReply F)
  fill_now cfg now oid p none b = (err no_last_price, b)
  fill_now cfg now oid p (some ref) b =
      if unaffordable p.action (p.quantity *F ref) b.cash
      then (ok insufficient_margin, b)
      else (fill cfg now oid p.symbol p.action p.quantity ref (get_or p.product "MIS") >>= λ f.
            pure (traded oid p.quantity f.price))
          b

  abbrev pub with_id : PaperConfig F → F → String → PaperPayload F → PaperMethod F (PaperReply F)
  with_id cfg now oid p b =
      if is_stop p.pricetype
      then rest_order now oid p b
      else fill_now cfg now oid p (lookup p.symbol b.last_price) b

  unfoldable pub place_order : PaperConfig F → F → PaperPayload F → PaperMethod F (PaperReply F)
  unfolding fill
  place_order cfg now p b =
      if p.quantity <=F nought
      then (ok invalid_quantity, b)
      else if not (known (lookup p.symbol b.last_price)) && is_market p.pricetype
      then (ok no_market_data, b)
      else with_id cfg now (cfg.order_id b.next_id) p (record b { next_id = suc b.next_id })

  abbrev pub move_trigger : String → F → Option (RestingOrder F) → PaperMethod F (PaperReply F)
  move_trigger oid trigger none = pure unknown_orderid
  move_trigger oid trigger (some o) = do
    modify (λ b. record b {
      open_orders =
          insert oid (record o { payload = record o.payload { trigger_price = some trigger } })
            b.open_orders;
    })
    pure (done oid)

  unfoldable pub modify_order : String → F → PaperMethod F (PaperReply F)
  modify_order oid trigger b = move_trigger oid trigger (lookup oid b.open_orders) b

  abbrev pub drop_order : String → Option (RestingOrder F) → PaperMethod F (PaperReply F)
  drop_order oid none = pure unknown_orderid
  drop_order oid (some o) = do
    modify (λ b. record b { open_orders = remove oid b.open_orders })
    pure (done oid)

  unfoldable pub cancel_order : String → PaperMethod F (PaperReply F)
  cancel_order oid b = drop_order oid (lookup oid b.open_orders) b

  abbrev pub held : Dict (PaperPosition F) → Dict (PaperPosition F)
  held [] = []
  held ((s, p) ∷ ps) = if p.qty ==F nought then held ps else (s, p) ∷ held ps

  unfoldable pub positionbook : PaperBroker F → Dict (PaperPosition F)
  positionbook b = held b.positions

  abbrev pub unrealized : Dict F → Dict (PaperPosition F) → List F
  unrealized last_price [] = []
  unrealized last_price ((s, p) ∷ ps) =
      p.qty *F (get_or (lookup s last_price) p.avg_price -F p.avg_price) ∷ unrealized last_price ps

  -- the cost of the long positions
  abbrev pub at_cost : List (PaperPosition F) → List F
  at_cost [] = []
  at_cost (p ∷ ps) = if nought <F p.qty then abs p.qty *F p.avg_price ∷ at_cost ps else at_cost ps

  unfoldable pub equity : PaperBroker F → F
  unfolding positionbook
  equity b =
      (b.cash +F sum_from nought (unrealized b.last_price (positionbook b)))
      +F sum_from nought (at_cost (values b.positions))

  unfoldable pub available_margin : PaperBroker F → F
  available_margin b = fmax nought b.cash
