-- ===== src/Paper/Ticks.antt =====
-- src/core/paper_broker.py: which resting stops a tick fills.
use text.Mathlib.Text.{◌==◌ as str_eq}
use text.Mathlib.TextEquality.{eq_iff}
use trading_os.Common.{
  ◌≡◌, refl, ◌∙◌, ap, arith, String, Bool, true, false, ◌&&◌, Option, none, some, List, [], ◌∷◌,
  ◌++◌, map, get_or, if◌then◌else◌,
}
use trading_os.Common.Dict.{Dict, lookup, insert, remove, lookup-remove}
use trading_os.Common.Effects.{Result, ok, err, pure, ◌>>=◌}
use trading_os.Common.Steps.{Yields, ok-Yields, err-Yields, >>=-Yields}
use trading_os.Float.{Float, ◌<=F◌, nought}
use trading_os.Orders.Record.{Direction}
use trading_os.Paper.Broker.{
  PaperConfig, PaperFill, RestingOrder, PaperBroker, PaperError, no_trigger_price,
  tick_not_positive, settle, fill, fill_price, fill_cost,
}
use trading_os.Paper.Desk.{
  concerns, hit, gap_price, trigger_fill, try_trigger, visit, visit_all, on_tick,
}

-- No key occurs twice, as in every dict.
abbrev pub IsDict : {V : Type 0} → Dict V → Type 0
IsDict [] = Unit
IsDict ((k, v) ∷ d) = (lookup k d ≡ none) × IsDict d

module _ {F : Type 0} ⦃fl : Float F⦄ where
  abbrev pub at_trigger : Direction → Option F → F → Bool
  at_trigger action none price = false
  at_trigger action (some trigger) price = hit action trigger price

  -- A stop order of the symbol, whose trigger the price has reached or gapped through.
  abbrev pub is_due : String → F → RestingOrder F → Bool
  is_due symbol price o =
      concerns symbol o && at_trigger o.payload.action o.payload.trigger_price price

  abbrev pub still_resting : String → F → Option (RestingOrder F) → Option (RestingOrder F)
  still_resting symbol price none = none
  still_resting symbol price (some o) = if is_due symbol price o then none else some o

  -- the fills of the stops that are due, in the order of the dict
  abbrev pub due_fills : String → F → Dict (RestingOrder F) → List (String × Direction × F)
  due_fills symbol price [] = []
  due_fills symbol price ((oid, o) ∷ d) =
      (if is_due symbol price o then (oid, o.payload.action, o.payload.quantity) ∷ [] else [])
      ++ due_fills symbol price d

  abbrev pub summary : PaperFill F → String × Direction × F
  summary f = (f.orderid, f.action, f.qty)

  -- what is found under a key when the stops of a list have been visited
  abbrev left_of :
      String
      → F
      → String
      → Dict (RestingOrder F)
      → Option (RestingOrder F)
      → Option (RestingOrder F)
  left_of symbol price k [] x = x
  left_of symbol price k ((oid, o) ∷ d) x =
      left_of symbol price k d
        (if is_due symbol price o then (if str_eq oid k then none else x) else x)

  absent :
      (symbol : String) (price : F) (k : String) (d : Dict (RestingOrder F))
      (x : Option (RestingOrder F))
      → lookup k d ≡ none
      → left_of symbol price k d x ≡ x
  absent symbol price k [] x h = refl
  absent symbol price k ((oid, o) ∷ d) x h = ground (arith, absent symbol price k d x)

  left_of-dict :
      (symbol : String) (price : F) (k : String) (d : Dict (RestingOrder F))
      → IsDict d
      → left_of symbol price k d (lookup k d) ≡ still_resting symbol price (lookup k d)
  left_of-dict symbol price k [] h = refl
  left_of-dict symbol price k ((oid, o) ∷ d) h = ground (
    arith,
    eq_iff oid k,
    left_of-dict symbol price k d h.1,
    absent symbol price k d (some o),
    absent symbol price k d none,
  )

-- One visit took the order out exactly if it was due, and then it filled it.
record Visited {F : Type 0} ⦃fl : Float F⦄ (due : Bool) (oid : String) (o : RestingOrder F)
    (b : PaperBroker F) (fs : List (PaperFill F)) (c : PaperBroker F) : Type 0 where
  orders : c.open_orders ≡ (if due then remove oid b.open_orders else b.open_orders)
  filled : map summary fs ≡ (if due then (oid, o.payload.action, o.payload.quantity) ∷ [] else [])

record VisitedAll {F : Type 0} ⦃fl : Float F⦄ (symbol : String) (price : F)
    (d : Dict (RestingOrder F)) (b : PaperBroker F) (fs : List (PaperFill F)) (c : PaperBroker F)
    : Type 0 where
  orders : (k : String) → lookup k c.open_orders ≡ left_of symbol price k d (lookup k b.open_orders)
  filled : map summary fs ≡ due_fills symbol price d

module _ {F : Type 0} ⦃fl : Float F⦄ where
  abbrev FilledAs : String → Direction → F → PaperBroker F → PaperFill F → PaperBroker F → Type 0
  FilledAs oid action qty b f c = (c.open_orders ≡ b.open_orders) × (summary f ≡ (oid, action, qty))

  settle-Yields :
      (oid symbol : String) (action : Direction) (qty price now : F) (cost : Result PaperError F)
      (b : PaperBroker F)
      → Yields (FilledAs oid action qty b) (settle oid symbol action qty price now cost b)
  settle-Yields oid symbol action qty price now (ok cost) b = ok-Yields _ _ (refl, refl)
  settle-Yields oid symbol action qty price now (err e) b = err-Yields e b

  fill-Yields :
      (cfg : PaperConfig F) (now : F) (oid symbol : String) (action : Direction) (qty ref : F)
      (product : String) (b : PaperBroker F)
      → Yields (FilledAs oid action qty b) (fill cfg now oid symbol action qty ref product b)
  unfolding fill
  fill-Yields cfg now oid symbol action qty ref product b =
      settle-Yields oid symbol action qty (fill_price cfg symbol action qty ref) now
        (fill_cost cfg symbol action qty (fill_price cfg symbol action qty ref) product) b

  -- a stop that is due is taken out, then filled
  hit-Yields :
      (cfg : PaperConfig F) (now : F) (oid : String) (o : RestingOrder F) (trigger price : F)
      (b : PaperBroker F)
      → Yields
          (Visited true oid o b)
          ((trigger_fill cfg now oid o trigger price >>= λ f. pure (f ∷ [])) b)
  hit-Yields cfg now oid o trigger price b =
      >>=-Yields b (trigger_fill cfg now oid o trigger price b) (λ f. pure (f ∷ []))
        (fill-Yields cfg now oid o.payload.symbol o.payload.action o.payload.quantity
          (gap_price o.payload.action trigger price) (get_or o.payload.product "MIS")
          (record b { open_orders = remove oid b.open_orders }))
        (λ f c h. ok-Yields (f ∷ []) c (record { orders = h.0; filled = ap (λ t. t ∷ []) h.1 }))

  skip-Yields :
      (oid : String) (o : RestingOrder F) (b : PaperBroker F)
      → Yields {E = PaperError} (Visited false oid o b) (ok [], b)
  skip-Yields oid o b = ok-Yields [] b (record { orders = refl; filled = refl })

  tested-Yields :
      (due : Bool) (oid : String) (o : RestingOrder F) (b : PaperBroker F)
      {p : Result PaperError (List (PaperFill F)) × PaperBroker F}
      → Yields (Visited true oid o b) p
      → Yields (Visited due oid o b) (if due then p else (ok [], b))
  tested-Yields true oid o b h = h
  tested-Yields false oid o b h = skip-Yields oid o b

  try_trigger-Yields :
      (cfg : PaperConfig F) (now : F) (oid : String) (o : RestingOrder F) (price : F)
      (trigger : Option F) (b : PaperBroker F)
      → Yields
          (Visited (at_trigger o.payload.action trigger price) oid o b)
          (try_trigger cfg now oid o price trigger b)
  try_trigger-Yields cfg now oid o price none b = err-Yields no_trigger_price b
  try_trigger-Yields cfg now oid o price (some trigger) b =
      tested-Yields (hit o.payload.action trigger price) oid o b
        (hit-Yields cfg now oid o trigger price b)

  concerned-Yields :
      (c due : Bool) (oid : String) (o : RestingOrder F) (b : PaperBroker F)
      {p : Result PaperError (List (PaperFill F)) × PaperBroker F}
      → Yields (Visited due oid o b) p
      → Yields (Visited (c && due) oid o b) (if c then p else (ok [], b))
  concerned-Yields true due oid o b h = h
  concerned-Yields false due oid o b h = skip-Yields oid o b

  visit-Yields :
      (cfg : PaperConfig F) (now : F) (symbol : String) (price : F) (oid : String)
      (o : RestingOrder F) (b : PaperBroker F)
      → Yields (Visited (is_due symbol price o) oid o b) (visit cfg now symbol price oid o b)
  visit-Yields cfg now symbol price oid o b =
      concerned-Yields (concerns symbol o)
        (at_trigger o.payload.action o.payload.trigger_price price) oid o b
        (try_trigger-Yields cfg now oid o price o.payload.trigger_price b)

  map-++ : (xs ys : List (PaperFill F)) → map summary (xs ++ ys) ≡ map summary xs ++ map summary ys
  map-++ [] ys = refl
  map-++ (x ∷ xs) ys = ap (λ t. summary x ∷ t) (map-++ xs ys)

  removed :
      (due : Bool) (k oid : String) (d : Dict (RestingOrder F))
      → lookup k (if due then remove oid d else d)
        ≡ (if due then (if str_eq oid k then none else lookup k d) else lookup k d)
  removed true k oid d = lookup-remove oid k d
  removed false k oid d = refl

  both :
      (symbol : String) (price : F) (oid : String) (o : RestingOrder F) (d : Dict (RestingOrder F))
      (b c e : PaperBroker F) (fs gs : List (PaperFill F))
      → Visited (is_due symbol price o) oid o b fs c
      → VisitedAll symbol price d c gs e
      → VisitedAll symbol price ((oid, o) ∷ d) b (fs ++ gs) e
  both symbol price oid o d b c e fs gs h k = record {
    orders = λ j.
        k.orders j
        ∙ ap (left_of symbol price j d)
            (ap (lookup j) h.orders ∙ removed (is_due symbol price o) j oid b.open_orders);
    filled = cc (map-++ fs gs, h.filled, k.filled);
  }

  visit_all-Yields :
      (cfg : PaperConfig F) (now : F) (symbol : String) (price : F) (d : Dict (RestingOrder F))
      (b : PaperBroker F)
      → Yields (VisitedAll symbol price d b) (visit_all cfg now symbol price d b)
  visit_all-Yields cfg now symbol price [] b =
      ok-Yields [] b (record { orders = λ k. refl; filled = refl })
  visit_all-Yields cfg now symbol price ((oid, o) ∷ d) b =
      >>=-Yields b (visit cfg now symbol price oid o b)
        (λ fs. visit_all cfg now symbol price d >>= λ gs. pure (fs ++ gs))
        (visit-Yields cfg now symbol price oid o b)
        (λ fs c h.
          >>=-Yields c (visit_all cfg now symbol price d c) (λ gs. pure (fs ++ gs))
            (visit_all-Yields cfg now symbol price d c)
            (λ gs e k. ok-Yields (fs ++ gs) e (both symbol price oid o d b c e fs gs h k)))

  tick-Yields :
      (cfg : PaperConfig F) (now : F) (symbol : String) (price : F) (b : PaperBroker F)
      → Yields (VisitedAll symbol price b.open_orders b) (on_tick cfg now symbol price b)
  unfolding on_tick
  tick-Yields cfg now symbol price b = below (price <=F nought)
    where
      below :
          (c : Bool)
          → Yields (VisitedAll symbol price b.open_orders b) (
              if c
              then (err tick_not_positive, b)
              else visit_all cfg now symbol price b.open_orders
                  (record b { last_price = insert symbol price b.last_price }))
      below true = err-Yields tick_not_positive b
      below false = record {
        holds = λ fs e.
            let k =
              (visit_all-Yields cfg now symbol price b.open_orders
                  (record b { last_price = insert symbol price b.last_price })).holds
                fs e in
            record { orders = k.orders; filled = k.filled };
      }

-- After a tick that returned: an order is still resting exactly if it was resting before and is not
-- a stop of this symbol whose trigger the price has reached or gapped through, it is unchanged, and
-- the fills that came back are those of the stops that were due, each once, in the order in which
-- they rested, for the side and the quantity of their order. The dict of orders has no key twice.
pub on_tick-fills_due :
    {F : Type 0} ⦃fl : Float F⦄ (cfg : PaperConfig F) (now : F) (symbol : String) (price : F)
    (b : PaperBroker F) (fs : List (PaperFill F))
    → IsDict b.open_orders
    → (on_tick cfg now symbol price b).0 ≡ ok fs
    → ((k : String)
        → lookup k (on_tick cfg now symbol price b).1.open_orders
          ≡ still_resting symbol price (lookup k b.open_orders))
      × (map summary fs ≡ due_fills symbol price b.open_orders)
on_tick-fills_due cfg now symbol price b fs distinct e =
    let h = (tick-Yields cfg now symbol price b).holds fs e in
    (λ k. h.orders k ∙ left_of-dict symbol price k b.open_orders distinct, h.filled)
