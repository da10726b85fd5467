-- ===== src/Routing/Cleared.antt =====
-- src/core/order_router.py: what clears an order, and where `route_order` can end.
use trading_os.Common.{
  ◌≡◌, refl, sym, Bool, true, false, ◌&&◌, Option, none, some, arith, if◌then◌else◌,
}
use trading_os.Common.Effects.{Result, ok, err}
use trading_os.Float.{Float, ◌<=F◌, nought}
use trading_os.KillSwitch.Switch.{World, is_halted, require_trading_allowed, SwitchError}
use trading_os.Orders.Record.{Leg}
use trading_os.Orders.Machine.{new_record}
use trading_os.Guards.Stack.{
  Layers, Refusal, raised, by_budget, by_session, by_prop, by_heat, guard,
}
use trading_os.Sizing.Sizer.{SizeResult, SizeError, calculate_position_size}
use trading_os.Sizing.Margin.{MarginDecision}
use trading_os.Routing.Request.{
  OrderRequest, Precheck, RouteReason, RouteResult, Payload, Answers, RouteError,
}
use trading_os.Routing.Dispatch.{RouterConfig, payload_for}
use trading_os.Routing.Router.{
  Router, classify_market, is_india, untagged, check_var, other_checks, reject, size_request,
  margin_for, send_order, after_margin, after_size, size_step, after_guard, guard_step,
  after_others, after_checks, after_switch, route_order,
}

allowed-not_halted : (w : World) → (require_trading_allowed w).0 ≡ ok tt → is_halted w ≡ false
unfolding require_trading_allowed is_halted
allowed-not_halted w h = ground arith

module _ {F : Type 0} ⦃fl : Float F⦄ (cfg : RouterConfig F) (a : Answers F)
    (req : OrderRequest F) where
  abbrev pub leg_of : Leg
  leg_of = classify_market cfg req.symbol

  -- The portfolio guard, if there is one, lets the entry pass.
  abbrev pub GuardPasses : Option (Layers F) → Type 0
  GuardPasses none = Unit
  GuardPasses (some ls) =
      (equity : F) × (a.equity ≡ some equity) × ((guard equity a.clock ls).0 ≡ ok tt)

  -- A quantity that is sized above 0 for the balance and the VaR, and whose margin is there.
  pub record Sized (var_95 : F) (qty : F) : Type 0 where
    pub balance : F
    pub known : a.balance ≡ some balance
    pub size : SizeResult F
    pub sized : calculate_position_size cfg.risk (size_request a req balance var_95) ≡ ok size
    pub same : size.qty ≡ qty
    pub positive : (size.qty <=F nought) ≡ false
    pub decision : MarginDecision F
    pub asked : margin_for cfg a req leg_of qty ≡ ok decision
    pub enough : decision.passed ≡ true

  -- Everything that clears an order of this quantity, in the order in which it is asked.
  pub record Cleared (r : Router F) (qty : F) : Type 0 where
    pub allowed : is_halted r.world ≡ false
    pub calm : a.entries_paused ≡ false
    pub tagged : (is_india leg_of && untagged req.algo_id) ≡ false
    pub var_95 : F
    pub headroom : check_var cfg a.var_cache ≡ ok (none, var_95)
    pub checked : other_checks a ≡ none
    pub guarded : GuardPasses r.layers
    pub enough : Sized var_95 qty

  -- The payload is the one of a new record for this quantity.
  abbrev pub IsPayload : F → Payload F → Type 0
  IsPayload qty p =
      payload_for cfg (new_record a.fresh_id req.symbol req.direction qty leg_of) req ≡ ok p

-- Where a call from `r` ends: at an exception or a rejection, with the desk as it was, or at an order that
-- is cleared. What holds of each of these holds of `route_order`.
module _ {F : Type 0} ⦃fl : Float F⦄ (cfg : RouterConfig F) (a : Answers F) (req : OrderRequest F)
    (r : Router F) (P : Result (RouteError F) (RouteResult F) × Router F → Type 0)
    (on_error : (v : Router F) (e : RouteError F) → v.desk ≡ r.desk → P (err e, v))
    (on_reject : (v : Router F) (reason : RouteReason F)
      → v.desk ≡ r.desk
      → P (reject a req reason v))
    (on_send : (v : Router F) (qty : F)
      → v.desk ≡ r.desk
      → Cleared cfg a req r qty
      → P (send_order cfg a req (leg_of cfg a req) qty v)) where
  -- Both branches of a test.
  by_test :
      (c : Bool) {x y : Result (RouteError F) (RouteResult F) × Router F}
      → (c ≡ true → P x)
      → (c ≡ false → P y)
      → P (if c then x else y)
  by_test true h k = h refl
  by_test false h k = k refl

  after_margin-P :
      (v : Router F) (qty : F) (m : Result (RouteError F) (MarginDecision F))
      → v.desk ≡ r.desk
      → ((d : MarginDecision F) → m ≡ ok d → d.passed ≡ true → Cleared cfg a req r qty)
      → P (after_margin cfg a req (leg_of cfg a req) qty m v)
  after_margin-P v qty (err e) h c = on_error v _ h
  after_margin-P v qty (ok m) h c =
      by_test m.passed (λ p. on_send v qty h (c m refl p)) (λ p. on_reject v _ h)

  after_size-P :
      (v : Router F) (s : Result SizeError (SizeResult F))
      → v.desk ≡ r.desk
      → ((z : SizeResult F) (d : MarginDecision F)
          → s ≡ ok z
          → (z.qty <=F nought) ≡ false
          → margin_for cfg a req (leg_of cfg a req) z.qty ≡ ok d
          → d.passed ≡ true
          → Cleared cfg a req r z.qty)
      → P (after_size cfg a req (leg_of cfg a req) s v)
  after_size-P v (err e) h c = on_error v _ h
  after_size-P v (ok z) h c =
      by_test (z.qty <=F nought) (λ p. on_reject v _ h)
        (λ p.
          after_margin-P v z.qty (margin_for cfg a req (leg_of cfg a req) z.qty) h
            (λ d e f. c z d refl p e f))

  size_step-P :
      (v : Router F) (var_95 : F) (balance : Option F)
      → v.desk ≡ r.desk
      → balance ≡ a.balance
      → ((qty : F) → Sized cfg a req var_95 qty → Cleared cfg a req r qty)
      → P (size_step cfg a req (leg_of cfg a req) var_95 balance v)
  size_step-P v var_95 none h b c = on_error v _ h
  size_step-P v var_95 (some balance) h b c =
      after_size-P v (calculate_position_size cfg.risk (size_request a req balance var_95)) h
        (λ z d s p m q. c z.qty (record {
          balance = balance;
          known = sym b;
          size = z;
          sized = s;
          same = refl;
          positive = p;
          decision = d;
          asked = m;
          enough = q;
        }))

  after_guard-P :
      (v : Router F) (var_95 : F) (g : Result (Refusal F) (Unit {0}))
      → v.desk ≡ r.desk
      → (g ≡ ok tt → (qty : F) → Sized cfg a req var_95 qty → Cleared cfg a req r qty)
      → P (after_guard cfg a req (leg_of cfg a req) var_95 g v)
  after_guard-P v var_95 (ok x) h c = size_step-P v var_95 a.balance h refl (c refl)
  after_guard-P v var_95 (err (raised e)) h c = on_error v _ h
  after_guard-P v var_95 (err (by_budget why)) h c = on_reject v _ h
  after_guard-P v var_95 (err by_session) h c = on_reject v _ h
  after_guard-P v var_95 (err (by_prop why)) h c = on_reject v _ h
  after_guard-P v var_95 (err (by_heat why)) h c = on_reject v _ h

  guard_step-P :
      (var_95 : F) (layers : Option (Layers F)) (equity : Option F)
      → equity ≡ a.equity
      → (GuardPasses cfg a req layers
          → (qty : F) → Sized cfg a req var_95 qty
          → Cleared cfg a req r qty)
      → P (guard_step cfg a req (leg_of cfg a req) var_95 layers equity r)
  guard_step-P var_95 none equity e c = size_step-P r var_95 a.balance refl refl (c tt)
  guard_step-P var_95 (some ls) none e c = on_error r _ refl
  guard_step-P var_95 (some ls) (some equity) e c =
      after_guard-P (record r { layers = some (guard equity a.clock ls).1 }) var_95
        (guard equity a.clock ls).0 refl (λ g. c (equity, sym e, g))

  after_checks-P :
      (x : Result (RouteError F) (Option Precheck × F))
      → ((var_95 : F)
          → x ≡ ok (none, var_95)
          → other_checks a ≡ none
          → GuardPasses cfg a req r.layers
          → (qty : F) → Sized cfg a req var_95 qty
          → Cleared cfg a req r qty)
      → P (after_checks cfg a req (leg_of cfg a req) x r)
  after_checks-P (err e) c = on_error r _ refl
  after_checks-P (ok (some f, var_95)) c = on_reject r _ refl
  after_checks-P (ok (none, var_95)) c = others (other_checks a) refl
    where
      others :
          (o : Option Precheck)
          → o ≡ other_checks a
          → P (after_others cfg a req (leg_of cfg a req) var_95 o r)
      others none h = guard_step-P var_95 r.layers a.equity refl (c var_95 refl (sym h))
      others (some f) h = on_reject r _ refl

  after_switch-P :
      (s : Result SwitchError (Unit {0}))
      → (s ≡ ok tt → is_halted r.world ≡ false)
      → P (after_switch cfg a req s r)
  after_switch-P (err e) c = on_reject r _ refl
  after_switch-P (ok x) c =
      by_test a.entries_paused (λ p. on_reject r _ refl)
        (λ calm.
          by_test (is_india (leg_of cfg a req) && untagged req.algo_id) (λ p. on_reject r _ refl)
            (λ tagged. after_checks-P (check_var cfg a.var_cache) (λ var_95 v o g qty s. record {
              allowed = c refl;
              calm = calm;
              tagged = tagged;
              var_95 = var_95;
              headroom = v;
              checked = o;
              guarded = g;
              enough = s;
            })))

  pub route_order-P : P (route_order cfg a req r)
  unfolding route_order
  route_order-P = after_switch-P (require_trading_allowed r.world).0 (allowed-not_halted r.world)
