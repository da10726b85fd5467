-- ===== src/KillSwitch/Keeps.antt =====
-- src/core/kill_switch.py: the lists of a `KillReport` only grow while `kill_all` works.
use mathlib.Core.List.{Memᴰ}
use trading_os.Common.{
  refl, Bool, true, false, Option, none, some, List, [], ◌∷◌, ◌++◌, String, if◌then◌else◌,
  Option-cases, inl, inr,
}
use trading_os.KillSwitch.Switch.{
  Failure, cancel_failed, close_failed, Broker, KillReport, failure, cancelled, closed, cancel_all,
  close_all, sweep_orders, sweep_positions, sweep, notify,
}

module _ {A : Type 0} where
  pub mem_left : (x : A) (xs ys : List A) → Memᴰ x xs → Memᴰ x (xs ++ ys)
  mem_left x [] ys m = elim m [ ]
  mem_left x (y ∷ xs) ys (Memᴰ.head p) = Memᴰ.head p
  mem_left x (y ∷ xs) ys (Memᴰ.tail m) = Memᴰ.tail (mem_left x xs ys m)

  pub mem_last : (xs : List A) (x : A) → Memᴰ x (xs ++ (x ∷ []))
  mem_last [] x = Memᴰ.head refl
  mem_last (y ∷ xs) x = Memᴰ.tail (mem_last xs x)

-- What a report lists, a later report lists too.
pub record Keeps (F : Type 0) (a b : KillReport F) : Type 0 where
  pub orders : (x : String × String) → Memᴰ x a.orders_cancelled → Memᴰ x b.orders_cancelled
  pub positions : (x : String × String) → Memᴰ x a.positions_closed → Memᴰ x b.positions_closed
  pub failed : (x : Failure) → Memᴰ x a.failures → Memᴰ x b.failures

module _ {F : Type 0} where
  pub Keeps-refl : (a : KillReport F) → Keeps F a a
  Keeps-refl a = record { orders = λ x m. m; positions = λ x m. m; failed = λ x m. m }

  pub Keeps-trans : (a b c : KillReport F) → Keeps F a b → Keeps F b c → Keeps F a c
  Keeps-trans a b c p q = record {
    orders = λ x m. q.orders x (p.orders x m);
    positions = λ x m. q.positions x (p.positions x m);
    failed = λ x m. q.failed x (p.failed x m);
  }

  pub failure-Keeps : (f : Failure) (a : KillReport F) → Keeps F a (failure f a)
  failure-Keeps f a = record {
    orders = λ x m. m;
    positions = λ x m. m;
    failed = λ x m. mem_left x _ _ m;
  }

  cancelled-Keeps : (leg oid : String) (a : KillReport F) → Keeps F a (cancelled leg oid a)
  cancelled-Keeps leg oid a = record {
    orders = λ x m. mem_left x _ _ m;
    positions = λ x m. m;
    failed = λ x m. m;
  }

  closed-Keeps : (leg pid : String) (a : KillReport F) → Keeps F a (closed leg pid a)
  closed-Keeps leg pid a = record {
    orders = λ x m. m;
    positions = λ x m. mem_left x _ _ m;
    failed = λ x m. m;
  }

  either-Keeps :
      (c : Bool) (a x y : KillReport F) → Keeps F a x → Keeps F a y → Keeps F a (if c then x else y)
  either-Keeps true a x y p q = p
  either-Keeps false a x y p q = q

  -- one turn of each loop
  abbrev pub cancel_one : String → Broker → String → KillReport F → KillReport F
  cancel_one leg broker oid a =
      if broker.cancel_order oid then cancelled leg oid a else failure (cancel_failed leg oid) a

  abbrev pub close_one : String → Broker → String → KillReport F → KillReport F
  close_one leg broker pid a =
      if broker.close_position pid then closed leg pid a else failure (close_failed leg pid) a

  pub cancel_one-Keeps :
      (leg : String) (broker : Broker) (oid : String) (a : KillReport F)
      → Keeps F a (cancel_one leg broker oid a)
  cancel_one-Keeps leg broker oid a =
      either-Keeps (broker.cancel_order oid) a _ _ (cancelled-Keeps leg oid a) (failure-Keeps _ a)

  pub close_one-Keeps :
      (leg : String) (broker : Broker) (pid : String) (a : KillReport F)
      → Keeps F a (close_one leg broker pid a)
  close_one-Keeps leg broker pid a =
      either-Keeps (broker.close_position pid) a _ _ (closed-Keeps leg pid a) (failure-Keeps _ a)

  pub cancel_all-Keeps :
      (leg : String) (broker : Broker) (orders : List String) (a : KillReport F)
      → Keeps F a (cancel_all leg broker orders a)
  unfolding cancel_all
  cancel_all-Keeps leg broker [] a = Keeps-refl a
  cancel_all-Keeps leg broker (oid ∷ rest) a =
      Keeps-trans a (cancel_one leg broker oid a) _ (cancel_one-Keeps leg broker oid a)
        (cancel_all-Keeps leg broker rest (cancel_one leg broker oid a))

  pub close_all-Keeps :
      (leg : String) (broker : Broker) (positions : List String) (a : KillReport F)
      → Keeps F a (close_all leg broker positions a)
  unfolding close_all
  close_all-Keeps leg broker [] a = Keeps-refl a
  close_all-Keeps leg broker (pid ∷ rest) a =
      Keeps-trans a (close_one leg broker pid a) _ (close_one-Keeps leg broker pid a)
        (close_all-Keeps leg broker rest (close_one leg broker pid a))

  pub sweep_orders-Keeps :
      (leg : String) (broker : Broker) (a : KillReport F) → Keeps F a (sweep_orders leg broker a)
  unfolding sweep_orders cancel_all
  sweep_orders-Keeps leg broker a = elim (Option-cases broker.open_orders) [
    | inl e ↦ rw e (failure-Keeps _ a)
    | inr (orders, e) ↦ rw e (cancel_all-Keeps leg broker orders a)
  ]

  pub sweep_positions-Keeps :
      (leg : String) (broker : Broker) (a : KillReport F) → Keeps F a (sweep_positions leg broker a)
  unfolding sweep_positions close_all
  sweep_positions-Keeps leg broker a = elim (Option-cases broker.open_positions) [
    | inl e ↦ rw e (failure-Keeps _ a)
    | inr (positions, e) ↦ rw e (close_all-Keeps leg broker positions a)
  ]

  pub sweep-Keeps :
      (legs : List (String × Option Broker)) (a : KillReport F) → Keeps F a (sweep legs a)
  unfolding sweep
  sweep-Keeps [] a = Keeps-refl a
  sweep-Keeps ((leg, none) ∷ rest) a = sweep-Keeps rest a
  sweep-Keeps ((leg, some broker) ∷ rest) a =
      let b = sweep_orders leg broker a in
      let c = sweep_positions leg broker b in
      Keeps-trans a b _ (sweep_orders-Keeps leg broker a)
        (Keeps-trans b c _ (sweep_positions-Keeps leg broker b) (sweep-Keeps rest c))

  pub notify-Keeps :
      (fn : Option (KillReport F → Bool)) (f : Failure) (a : KillReport F)
      → Keeps F a (notify fn f a)
  unfolding notify
  notify-Keeps none f a = Keeps-refl a
  notify-Keeps (some fn) f a = either-Keeps (fn a) a _ _ (Keeps-refl a) (failure-Keeps f a)
