-- ===== src/Routing/Sends.antt =====
-- src/core/order_router.py: an order that is cleared is sent.
use trading_os.Common.{◌≡◌, sym, ◌∙◌, ap, refl, false, Option, none, some, arith, if◌then◌else◌}
use trading_os.Common.Effects.{ok}
use trading_os.Float.{Float}
use trading_os.KillSwitch.Switch.{World, is_halted, require_trading_allowed}
use trading_os.Guards.Stack.{Layers, guard}
use trading_os.Routing.Request.{OrderRequest, Answers, sizing, margin}
use trading_os.Routing.Dispatch.{RouterConfig}
use trading_os.Routing.Router.{
  Router, reject, margin_for, send_order, after_margin, after_size, size_step, after_guard,
  guard_step, after_others, after_checks, after_switch, route_order,
}
use trading_os.Routing.Cleared.{leg_of, GuardPasses, Sized, Cleared}

not_halted-allowed : (w : World) → is_halted w ≡ false → (require_trading_allowed w).0 ≡ ok tt
unfolding require_trading_allowed is_halted
not_halted-allowed w h = ground arith

module _ {F : Type 0} ⦃fl : Float F⦄ (cfg : RouterConfig F) (a : Answers F)
    (req : OrderRequest F) where
  -- The router after the guard was asked: only its layers have moved.
  abbrev pub guarded_router : Option (Layers F) → Option F → Router F → Router F
  guarded_router none equity r = r
  guarded_router (some ls) none r = r
  guarded_router (some ls) (some equity) r = record r { layers = some (guard equity a.clock ls).1 }

  size_step-sends :
      (var_95 qty : F) (v : Router F)
      → Sized cfg a req var_95 qty
      → size_step cfg a req (leg_of cfg a req) var_95 a.balance v
        ≡ send_order cfg a req (leg_of cfg a req) qty v
  size_step-sends var_95 qty v s =
      let leg = leg_of cfg a req in
      ap (λ b. size_step cfg a req leg var_95 b v) s.known
      ∙ ap (λ z. after_size cfg a req leg z v) s.sized
      ∙ ap
          (λ c.
            if c
            then reject a req (sizing s.size.reason) v
            else after_margin cfg a req leg s.size.qty (margin_for cfg a req leg s.size.qty) v)
          s.positive
      ∙ ap (λ q. after_margin cfg a req leg q (margin_for cfg a req leg q) v) s.same
      ∙ ap (λ m. after_margin cfg a req leg qty m v) s.asked
      ∙ ap
          (λ c.
            if c then send_order cfg a req leg qty v else reject a req (margin s.decision.reason) v)
          s.enough

  guard_step-sends :
      (var_95 qty : F) (layers : Option (Layers F)) (r : Router F)
      → GuardPasses cfg a req layers
      → Sized cfg a req var_95 qty
      → guard_step cfg a req (leg_of cfg a req) var_95 layers a.equity r
        ≡ send_order cfg a req (leg_of cfg a req) qty (guarded_router layers a.equity r)
  guard_step-sends var_95 qty none r g s = size_step-sends var_95 qty r s
  guard_step-sends var_95 qty (some ls) r (equity, known, passes) s =
      let leg = leg_of cfg a req in
      let v = record r { layers = some (guard equity a.clock ls).1 } in
      ap (λ e. guard_step cfg a req leg var_95 (some ls) e r) known
      ∙ ap (λ x. after_guard cfg a req leg var_95 x v) passes
      ∙ size_step-sends var_95 qty v s
      ∙ ap (λ e. send_order cfg a req leg qty (guarded_router (some ls) e r)) (sym known)

  -- An order of a quantity that every gate clears is sent with this quantity.
  pub route_order-sends :
      (qty : F) (r : Router F)
      → Cleared cfg a req r qty
      → route_order cfg a req r
        ≡ send_order cfg a req (leg_of cfg a req) qty (guarded_router r.layers a.equity r)
  unfolding route_order
  route_order-sends qty r c =
      let leg = leg_of cfg a req in
      ap (λ s. after_switch cfg a req s r) (not_halted-allowed r.world c.allowed)
      ∙ rw (c.calm, c.tagged) refl
      ∙ ap (λ x. after_checks cfg a req leg x r) c.headroom
      ∙ ap (λ o. after_others cfg a req leg c.var_95 o r) c.checked
      ∙ guard_step-sends c.var_95 qty r.layers r c.guarded c.enough

  pub guarded_router-desk :
      (layers : Option (Layers F)) (equity : Option F) (r : Router F)
      → (guarded_router layers equity r).desk ≡ r.desk
  guarded_router-desk none equity r = refl
  guarded_router-desk (some ls) none r = refl
  guarded_router-desk (some ls) (some equity) r = refl
