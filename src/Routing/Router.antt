-- ===== src/Routing/Router.antt =====
-- src/core/order_router.py: `route_order`. Each step ends with the next one; the kill switch, the guard
-- stack, the sizer, the margin checker and the order state machine are those of their modules.
use text.Mathlib.Text.{◌==◌ as str_eq}
use trading_os.Common.{
  String, Bool, true, false, ◌&&◌, Option, none, some, [], ◌∷◌, ◌++◌, if◌then◌else◌,
}
use trading_os.Common.Effects.{Result, ok, err, Method, pure, ◌>>=◌, ◌>>◌}
use trading_os.Float.{Float, ◌<=F◌, nought}
use trading_os.KillSwitch.Switch.{World, SwitchError, require_trading_allowed}
use trading_os.Orders.Record.{
  Leg, india, mt5_forex, mt5_crypto, partial, filled, OrderState, OrderRecord,
}
use trading_os.Orders.Machine.{create}
use trading_os.Guards.Stack.{Layers, Refusal, raised, guard}
use trading_os.Sizing.Sizer.{SizeRequest, SizeResult, SizeError, calculate_position_size}
use trading_os.Sizing.Margin.{MarginDecision, check_india, check_mt5}
use trading_os.Routing.Request.{
  OrderRequest, Check, signal_check, band_check, session_check, Precheck, var_cache_missing,
  var_cache_unreachable, var_at_limit, check_error, check_failed, RouteReason, trading_halted,
  entries_paused_shock, missing_sebi_algo_id, precheck_failed, portfolio_guard, sizing, margin,
  RouteResult, VarCache, no_redis, unreachable, missing, garbled, cached, Answer, not_wired, raises,
  says, Answers, RouteError, var_garbled, guard_equity_raised, balance_raised, no_int,
  on_filled_raised, guard_raised, sizer_raised, told_filled, among,
}
use trading_os.Routing.Dispatch.{RouterConfig, Desk, DeskMethod, audit, audit_row, dispatch}

pub record Router (F : Type 0) : Type 0 where
  pub world : World
  pub layers : Option (Layers F)  -- of the portfolio guard, if one is wired
  pub desk : Desk F

abbrev pub RouterMethod : Type 0 → Type 0 → Type 0
RouterMethod F A = Method (Router F) (RouteError F) A

abbrev pub is_india : Leg → Bool
is_india india = true
is_india _ = false

abbrev pub untagged : Option String → Bool
untagged none = true
untagged (some id) = str_eq id ""

-- `_run_optional`
abbrev pub run_optional : Check → Answer → Option Precheck
run_optional c not_wired = none
run_optional c raises = some (check_error c)
run_optional c (says true) = none
run_optional c (says false) = some (check_failed c)

-- the first of two failures
abbrev pub earlier : Option Precheck → Option Precheck → Option Precheck
earlier none other = other
earlier (some f) other = some f

abbrev pub was_filled : OrderState → Bool
was_filled partial = true
was_filled filled = true
was_filled _ = false

module _ {F : Type 0} where
  abbrev pub classify_market : RouterConfig F → String → Leg
  classify_market cfg symbol =
      if among symbol cfg.crypto
      then mt5_crypto
      else if among symbol cfg.forex
      then mt5_forex
      else india

  abbrev pub at_desk : {A : Type 0} → DeskMethod F A → RouterMethod F A
  at_desk m r = let (x, d) = m r.desk in (x, record r { desk = d })

module _ {F : Type 0} ⦃fl : Float F⦄ where
  abbrev pub reject : Answers F → OrderRequest F → RouteReason F → RouterMethod F (RouteResult F)
  reject a req reason = at_desk (do
    audit a (audit_row req true reason nought none)
    pure (record { accepted = false; reason = reason; order = none }))

  -- `_check_var_headroom`: the failure, and the VaR
  abbrev pub check_var : RouterConfig F → VarCache F → Result (RouteError F) (Option Precheck × F)
  check_var cfg no_redis = ok (some var_cache_missing, nought)
  check_var cfg unreachable = ok (some var_cache_unreachable, nought)
  check_var cfg missing = ok (some var_cache_missing, nought)
  check_var cfg garbled = err var_garbled
  check_var cfg (cached var_95) =
      ok (if cfg.risk.max_var_daily <=F var_95 then some var_at_limit else none, var_95)

  abbrev pub other_checks : Answers F → Option Precheck
  other_checks a =
      earlier (run_optional signal_check a.signal)
        (earlier (run_optional band_check a.band) (run_optional session_check a.session))

  abbrev pub tell_filled : Option Bool → OrderRecord F → DeskMethod F (Unit {0})
  tell_filled none rec d = (ok tt, d)
  tell_filled (some returns) rec d = (
    if returns then ok tt else err on_filled_raised,
    record d { trace = d.trace ++ (told_filled rec ∷ []) },
  )

  -- `on_filled`, for an order that is filled or partly so
  abbrev pub call_on_filled : Answers F → OrderRecord F → DeskMethod F (Unit {0})
  call_on_filled a rec d =
      if was_filled rec.state then tell_filled a.on_filled rec d else (ok tt, d)

  -- what follows `_dispatch`
  abbrev pub close_route :
      Answers F → OrderRequest F → RouteResult F × OrderRecord F → DeskMethod F (RouteResult F)
  close_route a req (result, rec) = do
    audit a (audit_row req false result.reason nought (some rec))
    call_on_filled a rec
    pure result

  -- 6. create the record, dispatch it
  abbrev pub send_order :
      RouterConfig F → Answers F → OrderRequest F → Leg → F → RouterMethod F (RouteResult F)
  send_order cfg a req leg qty = at_desk (λ d.
      let (rec, osm') = create a.fresh_id req.symbol req.direction qty leg d.osm in
      (dispatch cfg a req rec >>= close_route a req) (record d { osm = osm' }))

  abbrev pub margin_for :
      RouterConfig F
      → Answers F
      → OrderRequest F
      → Leg
      → F
      → Result (RouteError F) (MarginDecision F)
  margin_for cfg a req leg qty =
      if is_india leg
      then (elim (cfg.int_of req.lot_size) [
        | none ↦ err no_int
        | some lot ↦
            elim (check_india cfg.int_of cfg.margin_buffer_india a.india_api qty req.entry lot) [
              | ok m ↦ ok m
              | err e ↦ err no_int
            ]
      ])
      else ok (check_mt5 cfg.mt5_min_free_margin_pct a.mt5_api qty)

  abbrev pub after_margin :
      RouterConfig F
      → Answers F
      → OrderRequest F
      → Leg
      → F
      → Result (RouteError F) (MarginDecision F)
      → RouterMethod F (RouteResult F)
  after_margin cfg a req leg qty (ok m) r =
      if m.passed then send_order cfg a req leg qty r else reject a req (margin m.reason) r
  after_margin cfg a req leg qty (err e) r = (err e, r)

  -- 4 and 5. the size
  abbrev pub size_request : Answers F → OrderRequest F → F → F → SizeRequest F
  size_request a req balance var_95 = record {
    entry = req.entry;
    stop = req.stop;
    atr = req.atr;
    balance = balance;
    current_var = var_95;
    lot_size = req.lot_size;
    p_win = req.p_win;
    payoff_ratio = req.payoff_ratio;
    expected_profit_per_unit = req.expected_profit_per_unit;
    cost_fn = a.cost_fn;
  }

  abbrev pub after_size :
      RouterConfig F
      → Answers F
      → OrderRequest F
      → Leg
      → Result SizeError (SizeResult F)
      → RouterMethod F (RouteResult F)
  after_size cfg a req leg (err e) r = (err (sizer_raised e), r)
  after_size cfg a req leg (ok size) r =
      if size.qty <=F nought
      then reject a req (sizing size.reason) r
      else after_margin cfg a req leg size.qty (margin_for cfg a req leg size.qty) r

  abbrev pub size_step :
      RouterConfig F
      → Answers F
      → OrderRequest F
      → Leg
      → F
      → Option F
      → RouterMethod F (RouteResult F)
  size_step cfg a req leg var_95 none r = (err balance_raised, r)
  size_step cfg a req leg var_95 (some balance) r =
      after_size cfg a req leg
        (calculate_position_size cfg.risk (size_request a req balance var_95)) r

  -- 3b. the portfolio guard
  abbrev pub after_guard :
      RouterConfig F
      → Answers F
      → OrderRequest F
      → Leg
      → F
      → Result (Refusal F) (Unit {0})
      → RouterMethod F (RouteResult F)
  after_guard cfg a req leg var_95 (ok x) r = size_step cfg a req leg var_95 a.balance r
  after_guard cfg a req leg var_95 (err (raised e)) r = (err (guard_raised e), r)
  after_guard cfg a req leg var_95 (err why) r = reject a req (portfolio_guard why) r

  abbrev pub guard_step :
      RouterConfig F
      → Answers F
      → OrderRequest F
      → Leg
      → F
      → Option (Layers F)
      → Option F
      → RouterMethod F (RouteResult F)
  guard_step cfg a req leg var_95 none equity r = size_step cfg a req leg var_95 a.balance r
  guard_step cfg a req leg var_95 (some ls) none r = (err guard_equity_raised, r)
  guard_step cfg a req leg var_95 (some ls) (some equity) r =
      let (g, ls') = guard equity a.clock ls in
      after_guard cfg a req leg var_95 g (record r { layers = some ls' })

  -- 3. the pre-checks
  abbrev pub after_others :
      RouterConfig F
      → Answers F
      → OrderRequest F
      → Leg
      → F
      → Option Precheck
      → RouterMethod F (RouteResult F)
  after_others cfg a req leg var_95 none r = guard_step cfg a req leg var_95 r.layers a.equity r
  after_others cfg a req leg var_95 (some f) r = reject a req (precheck_failed f) r

  abbrev pub after_checks :
      RouterConfig F
      → Answers F
      → OrderRequest F
      → Leg
      → Result (RouteError F) (Option Precheck × F)
      → RouterMethod F (RouteResult F)
  after_checks cfg a req leg (err e) r = (err e, r)
  after_checks cfg a req leg (ok (some f, var_95)) r = reject a req (precheck_failed f) r
  after_checks cfg a req leg (ok (none, var_95)) r =
      after_others cfg a req leg var_95 (other_checks a) r

  -- 2. the pause, and the tag of the india leg
  abbrev pub after_switch :
      RouterConfig F
      → Answers F
      → OrderRequest F
      → Result SwitchError (Unit {0})
      → RouterMethod F (RouteResult F)
  after_switch cfg a req (err e) r = reject a req trading_halted r
  after_switch cfg a req (ok x) r =
      let leg = classify_market cfg req.symbol in
      if a.entries_paused
      then reject a req entries_paused_shock r
      else if is_india leg && untagged req.algo_id
      then reject a req missing_sebi_algo_id r
      else after_checks cfg a req leg (check_var cfg a.var_cache) r

  -- 1. the kill switch
  unfoldable pub route_order :
      RouterConfig F → Answers F → OrderRequest F → RouterMethod F (RouteResult F)
  unfolding require_trading_allowed calculate_position_size check_india check_mt5 guard create
      dispatch
  route_order cfg a req r = after_switch cfg a req (require_trading_allowed r.world).0 r
