-- ===== src/KillSwitch/Sweep.antt =====
-- src/core/kill_switch.py: `kill_all` reaches every order and position of every leg, past all failures.
use mathlib.Core.List.{Memᴰ}
use trading_os.Common.{
  ◌≡◌, refl, true, false, Option, none, some, List, [], ◌∷◌, String, arith, Bool-cases, ◌⊎◌, inl,
  inr, ap,
}
use trading_os.KillSwitch.Switch.{
  audit_failed, alert_failed, fetch_orders_failed, fetch_positions_failed, cancel_failed,
  close_failed, Broker, KillReport, Config, failure, cancel_all, close_all, sweep_orders,
  sweep_positions, sweep, notify, finish, World, Reason, opened, kill_all,
}
use trading_os.Common.Effects.{ok}
use trading_os.KillSwitch.Keeps.{
  mem_last, Keeps, Keeps-trans, cancel_one, close_one, cancel_all-Keeps, close_all-Keeps,
  sweep_positions-Keeps, sweep-Keeps, notify-Keeps,
}

module _ {F : Type 0} where
  -- The order was cancelled, or its failure is on record.
  abbrev pub OrderHandled : String → Broker → String → KillReport F → Type 0
  OrderHandled leg broker oid a =
      ((broker.cancel_order oid ≡ true) × Memᴰ (leg, oid) a.orders_cancelled)
      ⊎ ((broker.cancel_order oid ≡ false) × Memᴰ (cancel_failed leg oid) a.failures)

  -- The position was closed, or its failure is on record.
  abbrev pub PositionHandled : String → Broker → String → KillReport F → Type 0
  PositionHandled leg broker pid a =
      ((broker.close_position pid ≡ true) × Memᴰ (leg, pid) a.positions_closed)
      ⊎ ((broker.close_position pid ≡ false) × Memᴰ (close_failed leg pid) a.failures)

  order_kept :
      (leg : String) (broker : Broker) (oid : String) (a b : KillReport F)
      → Keeps F a b
      → OrderHandled leg broker oid a
      → OrderHandled leg broker oid b
  order_kept leg broker oid a b k (inl (c, m)) = inl (c, k.orders _ m)
  order_kept leg broker oid a b k (inr (c, m)) = inr (c, k.failed _ m)

  position_kept :
      (leg : String) (broker : Broker) (pid : String) (a b : KillReport F)
      → Keeps F a b
      → PositionHandled leg broker pid a
      → PositionHandled leg broker pid b
  position_kept leg broker pid a b k (inl (c, m)) = inl (c, k.positions _ m)
  position_kept leg broker pid a b k (inr (c, m)) = inr (c, k.failed _ m)

  cancel_one-handles :
      (leg : String) (broker : Broker) (oid : String) (a : KillReport F)
      → OrderHandled leg broker oid (cancel_one leg broker oid a)
  cancel_one-handles leg broker oid a = elim (Bool-cases (broker.cancel_order oid)) [
    | inl e ↦ inl (e, rw e (mem_last a.orders_cancelled (leg, oid)))
    | inr e ↦ inr (e, rw e (mem_last a.failures (cancel_failed leg oid)))
  ]

  close_one-handles :
      (leg : String) (broker : Broker) (pid : String) (a : KillReport F)
      → PositionHandled leg broker pid (close_one leg broker pid a)
  close_one-handles leg broker pid a = elim (Bool-cases (broker.close_position pid)) [
    | inl e ↦ inl (e, rw e (mem_last a.positions_closed (leg, pid)))
    | inr e ↦ inr (e, rw e (mem_last a.failures (close_failed leg pid)))
  ]

  cancel_all-handles :
      (leg : String) (broker : Broker) (oid : String) (orders : List String) (a : KillReport F)
      → Memᴰ oid orders
      → OrderHandled leg broker oid (cancel_all leg broker orders a)
  unfolding cancel_all
  cancel_all-handles leg broker oid [] a m = elim m [ ]
  cancel_all-handles leg broker oid (x ∷ rest) a (Memᴰ.head p) =
      let b = cancel_one leg broker x a in
      order_kept leg broker oid b _ (cancel_all-Keeps leg broker rest b)
        (rw p (cancel_one-handles leg broker x a))
  cancel_all-handles leg broker oid (x ∷ rest) a (Memᴰ.tail m) =
      cancel_all-handles leg broker oid rest (cancel_one leg broker x a) m

  close_all-handles :
      (leg : String) (broker : Broker) (pid : String) (positions : List String) (a : KillReport F)
      → Memᴰ pid positions
      → PositionHandled leg broker pid (close_all leg broker positions a)
  unfolding close_all
  close_all-handles leg broker pid [] a m = elim m [ ]
  close_all-handles leg broker pid (x ∷ rest) a (Memᴰ.head p) =
      let b = close_one leg broker x a in
      position_kept leg broker pid b _ (close_all-Keeps leg broker rest b)
        (rw p (close_one-handles leg broker x a))
  close_all-handles leg broker pid (x ∷ rest) a (Memᴰ.tail m) =
      close_all-handles leg broker pid rest (close_one leg broker x a) m

-- Everything that a broker reports as open is handled, and a broker that does not report is on
-- record.
pub record Swept (F : Type 0) (leg : String) (broker : Broker) (a : KillReport F) : Type 0 where
  pub orders :
      (open_orders : List String)
      → broker.open_orders ≡ some open_orders
      → (oid : String) → Memᴰ oid open_orders
      → OrderHandled leg broker oid a
  pub no_orders : broker.open_orders ≡ none → Memᴰ (fetch_orders_failed leg) a.failures
  pub positions :
      (open_positions : List String)
      → broker.open_positions ≡ some open_positions
      → (pid : String) → Memᴰ pid open_positions
      → PositionHandled leg broker pid a
  pub no_positions : broker.open_positions ≡ none → Memᴰ (fetch_positions_failed leg) a.failures

some_eq : {A : Type 0} (a b : A) → some a ≡ some b → a ≡ b
some_eq a b p = cc

none_here : {A : Type 0} {a : A} → some a ≡ none → ⊥
none_here p = cc p

module _ {F : Type 0} where
  Swept-kept :
      (leg : String) (broker : Broker) (a b : KillReport F)
      → Keeps F a b
      → Swept F leg broker a
      → Swept F leg broker b
  Swept-kept leg broker a b k s = record {
    orders = λ os e oid m. order_kept leg broker oid a b k (s.orders os e oid m);
    no_orders = λ e. k.failed _ (s.no_orders e);
    positions = λ ps e pid m. position_kept leg broker pid a b k (s.positions ps e pid m);
    no_positions = λ e. k.failed _ (s.no_positions e);
  }

  orders_fetched :
      (leg : String) (broker : Broker) (a : KillReport F) (os : List String)
      → broker.open_orders ≡ some os
      → sweep_orders leg broker a ≡ cancel_all leg broker os a
  unfolding sweep_orders
  orders_fetched leg broker a os e = ground arith

  orders_lost :
      (leg : String) (broker : Broker) (a : KillReport F)
      → broker.open_orders ≡ none
      → sweep_orders leg broker a ≡ failure (fetch_orders_failed leg) a
  unfolding sweep_orders
  orders_lost leg broker a e = ground arith

  positions_fetched :
      (leg : String) (broker : Broker) (a : KillReport F) (ps : List String)
      → broker.open_positions ≡ some ps
      → sweep_positions leg broker a ≡ close_all leg broker ps a
  unfolding sweep_positions
  positions_fetched leg broker a ps e = ground arith

  positions_lost :
      (leg : String) (broker : Broker) (a : KillReport F)
      → broker.open_positions ≡ none
      → sweep_positions leg broker a ≡ failure (fetch_positions_failed leg) a
  unfolding sweep_positions
  positions_lost leg broker a e = ground arith

  sweep_one-Swept :
      (leg : String) (broker : Broker) (a : KillReport F)
      → Swept F leg broker (sweep_positions leg broker (sweep_orders leg broker a))
  sweep_one-Swept leg broker a =
      let b = sweep_orders leg broker a in
      let k = sweep_positions-Keeps leg broker b in
      record {
        orders = λ os e oid m.
            order_kept leg broker oid b _ k
              (rw (orders_fetched leg broker a os e) (cancel_all-handles leg broker oid os a m));
        no_orders = λ e. k.failed _ (rw (orders_lost leg broker a e) (mem_last a.failures _));
        positions = λ ps e pid m.
            rw (positions_fetched leg broker b ps e) (close_all-handles leg broker pid ps b m);
        no_positions = λ e. rw (positions_lost leg broker b e) (mem_last b.failures _);
      }

  sweep-Swept :
      (legs : List (String × Option Broker)) (leg : String) (broker : Broker) (a : KillReport F)
      → Memᴰ (leg, some broker) legs
      → Swept F leg broker (sweep legs a)
  unfolding sweep
  sweep-Swept [] leg broker a m = elim m [ ]
  sweep-Swept ((l, none) ∷ rest) leg broker a (Memᴰ.head p) = absurd (none_here (ap (λ e. e.1) p))
  sweep-Swept ((l, none) ∷ rest) leg broker a (Memᴰ.tail m) = sweep-Swept rest leg broker a m
  sweep-Swept ((l, some b) ∷ rest) leg broker a (Memᴰ.head p) =
      let c = sweep_positions l b (sweep_orders l b a) in
      let name : leg ≡ l = ap (λ e. e.0) p in
      let same : broker ≡ b = some_eq broker b (ap (λ e. e.1) p) in
      rw (name, same) (Swept-kept l b c _ (sweep-Keeps rest c) (sweep_one-Swept l b a))
  sweep-Swept ((l, some b) ∷ rest) leg broker a (Memᴰ.tail m) =
      sweep-Swept rest leg broker (sweep_positions l b (sweep_orders l b a)) m

  finish-Swept :
      (config : Config F) (report : KillReport F) (leg : String) (broker : Broker)
      → Memᴰ (leg, some broker) config.brokers
      → Swept F leg broker (finish config report)
  unfolding finish
  finish-Swept config report leg broker m =
      let a = sweep config.brokers report in
      let b = notify config.audit_fn audit_failed a in
      Swept-kept leg broker a _
        (Keeps-trans a b _ (notify-Keeps config.audit_fn audit_failed a)
          (notify-Keeps config.alert_fn alert_failed b))
        (sweep-Swept config.brokers leg broker report m)

  -- If the sentinel file can be written and each order and position that a broker lists carries its
  -- id, `kill_all` returns a report, whatever else fails: at every leg that has a broker, each order
  -- that the broker lists is cancelled or its failed cancellation is in the report, each position is
  -- closed or its failed close is in the report, and a fetch that failed is in the report.
  pub kill_all-Swept :
      (config : Config F) (reason : Reason F) (now : F) (w : World) (leg : String) (broker : Broker)
      → w.disk_ok ≡ true
      → Memᴰ (leg, some broker) config.brokers
      → (report : KillReport F) × (((kill_all config reason now w).0 ≡ ok report)
          × Swept F leg broker report)
  unfolding kill_all
  kill_all-Swept config reason now w leg broker good m =
      let start = opened w.redis_up reason now in
      (finish config start, (rw good refl, finish-Swept config start leg broker m))
