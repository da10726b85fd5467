-- ===== src/Stops/Legs.antt =====
-- src/exits/adapters: which requests the calls for a position send.
use mathlib.Core.Path.{subst}
use trading_os.Common.{
  ◌≡◌, refl, sym, String, Bool, true, false, ◌&&◌, List, [], ◌∷◌, ◌++◌, ++-assoc, ++-nil, All,
  if◌then◌else◌,
}
use trading_os.Common.Effects.{ok, err, pure, ◌>>=◌}
use trading_os.Common.Steps.{IsPreorder, Within, still-Within, stay-Respects, >>=-Within}
use trading_os.Float.{Float, nought}
use trading_os.Orders.Record.{Direction, Leg}
use trading_os.Routing.Router.{is_india}
use trading_os.Routing.Request.{
  fractional_quantity, among, non_crypto_exchanges, fractional, openalgo_order_payload,
}
use trading_os.Stops.Adapters.{
  StopRequest, order_request, modify_request, cancel_request, position_stop, position_modify,
  position_close, StopReply, no_answer, error_status, replied, StopConfig, StopMethod,
  closing_action, text_of, answered, post, send_payload, closing_order, india_place_stop,
  india_modify_stop, india_cancel_stop, india_replace_stop, india_exit_market, mt5_place_stop,
  mt5_modify_stop, mt5_cancel_stop, mt5_replace_stop, mt5_exit_market, place_stop, modify_stop,
  cancel_stop, replace_stop, exit_market,
}

-- A call of the exit engine.
pub data StopCall (F : Type 0) : Type 0 where
  placing : String → F → F → Direction → StopCall F
  modifying : String → F → StopCall F
  cancelling : String → StopCall F
  replacing : String → String → F → F → Direction → StopCall F
  exiting : String → F → Direction → StopCall F

module _ {F : Type 0} ⦃fl : Float F⦄ where
  -- the requests that a call has sent, for a position of this leg
  unfoldable pub sent_by :
      StopConfig F → Leg → StopCall F → List (StopRequest F) → List (StopRequest F)
  sent_by cfg leg (placing symbol qty price direction) s =
      (place_stop cfg symbol qty price leg direction s).1
  sent_by cfg leg (modifying oid price) s = (modify_stop cfg oid price leg s).1
  sent_by cfg leg (cancelling oid) s = (cancel_stop cfg oid leg s).1
  sent_by cfg leg (replacing oid symbol qty trigger direction) s =
      (replace_stop cfg oid symbol qty trigger leg direction s).1
  sent_by cfg leg (exiting symbol qty direction) s = (exit_market cfg symbol qty leg direction s).1

  -- A request that the broker of India, or of MT5, takes.
  abbrev pub Fits : Bool → StopRequest F → Type 0
  Fits true (order_request p) =
      (among p.exchange non_crypto_exchanges && fractional p.quantity) ≡ false
  Fits true (modify_request key oid price) = Unit
  Fits true (cancel_request key oid) = Unit
  Fits true (position_stop symbol lots sl) = true ≡ false
  Fits true (position_modify oid sl) = true ≡ false
  Fits true (position_close symbol lots) = true ≡ false
  Fits false (order_request p) = true ≡ false
  Fits false (modify_request key oid price) = true ≡ false
  Fits false (cancel_request key oid) = true ≡ false
  Fits false (position_stop symbol lots sl) = Unit
  Fits false (position_modify oid sl) = Unit
  Fits false (position_close symbol lots) = Unit

  -- The second list adds only requests that fit.
  abbrev pub AddsFitting : Bool → List (StopRequest F) → List (StopRequest F) → Type 0
  AddsFitting b s t = (new : List (StopRequest F)) × ((t ≡ s ++ new) × All (Fits b) new)

  All-++ :
      (b : Bool) (xs ys : List (StopRequest F))
      → All (Fits b) xs
      → All (Fits b) ys
      → All (Fits b) (xs ++ ys)
  All-++ b [] ys h k = k
  All-++ b (x ∷ xs) ys h k = (h.0, All-++ b xs ys h.1 k)

  adds-IsPreorder : (b : Bool) → IsPreorder {S = List (StopRequest F)} (AddsFitting b)
  adds-IsPreorder b = record {
    reflexive = λ s. ([], (sym (++-nil s), tt));
    transitive = λ s t u h k.
        (h.0 ++ k.0, (cc (h.1.0, k.1.0, ++-assoc s h.0 k.0), All-++ b h.0 k.0 h.1.1 k.1.1));
  }

  abbrev Fitting : {A : Type 0} → Bool → StopMethod F A → Type 0
  Fitting b m = Within (AddsFitting b) m

  answered-Fitting : (b : Bool) (r : StopReply) → Fitting b (answered r)
  answered-Fitting b no_answer s = stay-Respects (adds-IsPreorder b) s _
  answered-Fitting b error_status s = stay-Respects (adds-IsPreorder b) s _
  answered-Fitting b (replied o) s = stay-Respects (adds-IsPreorder b) s _

  post-Fitting :
      (b : Bool) (cfg : StopConfig F) (r : StopRequest F) → Fits b r → Fitting b (post cfg r)
  post-Fitting b cfg r h s = record {
    related =
        (adds-IsPreorder b).transitive s (s ++ (r ∷ [])) _ (r ∷ [], (refl, (h, tt)))
          (answered-Fitting b (cfg.answers (s ++ (r ∷ []))) (s ++ (r ∷ []))).related;
  }

  closing_order-Fitting :
      (cfg : StopConfig F) (symbol : String) (qty : F) (direction : Direction) (pricetype : String)
      (trigger : F)
      → Fitting true (closing_order cfg symbol qty direction pricetype trigger)
  unfolding openalgo_order_payload
  closing_order-Fitting cfg symbol qty direction pricetype trigger =
      checked (among cfg.exchange non_crypto_exchanges && fractional qty) refl
    where
      checked :
          (c : Bool)
          → (among cfg.exchange non_crypto_exchanges && fractional qty) ≡ c
          → Fitting true (
              send_payload cfg (
                if c
                then err fractional_quantity
                else ok (record {
                  apikey = cfg.apikey;
                  strategy = cfg.algo_id;
                  exchange = cfg.exchange;
                  symbol = symbol;
                  action = closing_action direction;
                  quantity = qty;
                  product = "MIS";
                  pricetype = pricetype;
                  price = nought;
                  trigger_price = trigger;
                })))
      checked true e s = stay-Respects (adds-IsPreorder true) s _
      checked false e s = post-Fitting true cfg _ e s

  then_pure :
      {A B : Type 0} (b : Bool) (m : StopMethod F A) (f : A → B)
      → Fitting b m
      → Fitting b (m >>= λ a. pure (f a))
  then_pure b m f h =
      >>=-Within (adds-IsPreorder b) m (λ a. pure (f a)) h
        (λ a. still-Within (adds-IsPreorder b) (λ _. ok (f a)))

  place-Fitting :
      (b : Bool) (cfg : StopConfig F) (symbol : String) (qty price : F) (direction : Direction)
      → Fitting b (
          if b
          then india_place_stop cfg symbol qty price direction
          else mt5_place_stop cfg symbol qty price)
  unfolding india_place_stop mt5_place_stop
  place-Fitting true cfg symbol qty price direction =
      then_pure true (closing_order cfg symbol qty direction "SL-M" price) text_of
        (closing_order-Fitting cfg symbol qty direction "SL-M" price)
  place-Fitting false cfg symbol qty price direction =
      then_pure false (post cfg (position_stop symbol qty price)) text_of
        (post-Fitting false cfg (position_stop symbol qty price) tt)

  replace-Fitting :
      (b : Bool) (cfg : StopConfig F) (oid symbol : String) (qty trigger : F)
      (direction : Direction)
      → Fitting b (
          if b
          then india_replace_stop cfg oid symbol qty trigger direction
          else mt5_replace_stop cfg oid trigger)
  unfolding india_replace_stop india_cancel_stop mt5_replace_stop
  replace-Fitting true cfg oid symbol qty trigger direction =
      >>=-Within (adds-IsPreorder true) (post cfg (cancel_request cfg.apikey oid))
        (λ _. india_place_stop cfg symbol qty trigger direction)
        (post-Fitting true cfg (cancel_request cfg.apikey oid) tt)
        (λ _. place-Fitting true cfg symbol qty trigger direction)
  replace-Fitting false cfg oid symbol qty trigger direction =
      then_pure false (post cfg (position_modify oid trigger)) (λ _. oid)
        (post-Fitting false cfg (position_modify oid trigger) tt)

  sent-Fitting :
      (b : Bool) (cfg : StopConfig F) (leg : Leg) (c : StopCall F) (s : List (StopRequest F))
      → is_india leg ≡ b
      → AddsFitting b s (sent_by cfg leg c s)
  unfolding sent_by place_stop modify_stop cancel_stop replace_stop exit_market india_modify_stop
      mt5_modify_stop india_cancel_stop mt5_cancel_stop india_exit_market mt5_exit_market
  sent-Fitting b cfg leg (placing symbol qty price direction) s e =
      subst
        (λ x.
          AddsFitting b s
            ((if x
                then india_place_stop cfg symbol qty price direction
                else mt5_place_stop cfg symbol qty price)
              s).1)
        (sym e) (place-Fitting b cfg symbol qty price direction s).related
  sent-Fitting true cfg leg (modifying oid price) s e =
      subst
        (λ x.
          AddsFitting true s
            ((if x
                then post cfg (modify_request cfg.apikey oid price)
                else post cfg (position_modify oid price))
              s).1)
        (sym e) (post-Fitting true cfg (modify_request cfg.apikey oid price) tt s).related
  sent-Fitting false cfg leg (modifying oid price) s e =
      subst
        (λ x.
          AddsFitting false s
            ((if x
                then post cfg (modify_request cfg.apikey oid price)
                else post cfg (position_modify oid price))
              s).1)
        (sym e) (post-Fitting false cfg (position_modify oid price) tt s).related
  sent-Fitting true cfg leg (cancelling oid) s e =
      subst
        (λ x.
          AddsFitting true s
            ((if x
                then post cfg (cancel_request cfg.apikey oid)
                else post cfg (position_modify oid nought))
              s).1)
        (sym e) (post-Fitting true cfg (cancel_request cfg.apikey oid) tt s).related
  sent-Fitting false cfg leg (cancelling oid) s e =
      subst
        (λ x.
          AddsFitting false s
            ((if x
                then post cfg (cancel_request cfg.apikey oid)
                else post cfg (position_modify oid nought))
              s).1)
        (sym e) (post-Fitting false cfg (position_modify oid nought) tt s).related
  sent-Fitting b cfg leg (replacing oid symbol qty trigger direction) s e =
      subst
        (λ x.
          AddsFitting b s
            ((if x
                then india_replace_stop cfg oid symbol qty trigger direction
                else mt5_replace_stop cfg oid trigger)
              s).1)
        (sym e) (replace-Fitting b cfg oid symbol qty trigger direction s).related
  sent-Fitting true cfg leg (exiting symbol qty direction) s e =
      subst
        (λ x.
          AddsFitting true s
            ((if x
                then closing_order cfg symbol qty direction "MARKET" nought
                else post cfg (position_close symbol qty))
              s).1)
        (sym e) (closing_order-Fitting cfg symbol qty direction "MARKET" nought s).related
  sent-Fitting false cfg leg (exiting symbol qty direction) s e =
      subst
        (λ x.
          AddsFitting false s
            ((if x
                then closing_order cfg symbol qty direction "MARKET" nought
                else post cfg (position_close symbol qty))
              s).1)
        (sym e) (post-Fitting false cfg (position_close symbol qty) tt s).related

-- Every call of the composite adapter, whatever the brokers answer: the requests that it sends for a
-- position in India all go to the broker of India, and an order among them for an exchange that takes
-- whole numbers has a whole quantity; those for any other leg all go to MT5.
pub requests_fit_leg :
    {F : Type 0} ⦃fl : Float F⦄ (cfg : StopConfig F) (leg : Leg) (c : StopCall F)
    (s : List (StopRequest F))
    → AddsFitting (is_india leg) s (sent_by cfg leg c s)
requests_fit_leg cfg leg c s = sent-Fitting (is_india leg) cfg leg c s refl
