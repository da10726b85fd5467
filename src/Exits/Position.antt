-- ===== src/Exits/Position.antt =====
-- src/exits/exit_manager.py: a managed position, the configuration, and the world of one call. The
-- adapter and the callbacks answer as a function of the calls made so far; none is an exception.
use trading_os.Common.{ℕ, String, Bool, true, false, Option, none, some, List, [], ◌∷◌, ◌++◌}
use trading_os.Common.Dict.{Dict}
use trading_os.Common.Effects.{Result, ok, err, Method}
use trading_os.Orders.Record.{Direction, buy, sell}

pub data Phase : Type 0 where
  risk_on breakeven trailing exited : Phase

pub record ExitTelemetry (F : Type 0) : Type 0 where
  pub exit_reason : String
  pub exit_price : F
  pub realized_r : F
  pub mfe_r : F
  pub mfe_captured_pct : F

pub record ManagedPosition (F : Type 0) : Type 0 where
  pub symbol : String
  pub direction : Direction
  pub entry : F
  pub qty : F
  pub atr : F
  pub leg : String
  pub stop : F
  pub r_value : F
  pub stop_order_id : String
  pub state : Phase
  pub extreme : F
  pub bars_no_progress : ℕ
  pub partials_taken : List F
  pub remaining_qty : F
  pub lot_size : F
  pub opened_at : F
  pub profit_locked : Bool
  pub telemetry : Option (ExitTelemetry F)

pub record Partial (F : Type 0) : Type 0 where
  pub at_r : F
  pub pct : F

pub record ProfitLock (F : Type 0) : Type 0 where
  pub at_r : F
  pub lock_r : F
  pub trail_k : F

-- `exit_cfg`
pub record ExitConfig (F : Type 0) : Type 0 where
  pub k_sl_initial : Dict F
  pub min_ratchet_step_atr : F
  pub k_trail_by_regime : Dict F
  pub event_tighten_minutes : F
  pub crypto_weekend_policy : String
  pub max_bars_no_progress : Dict ℕ
  pub breakeven_at_r : F
  pub partials : List (Partial F)
  pub profit_lock : Option (ProfitLock F)

-- A call of the stop adapter or of a callback.
pub data Call (F : Type 0) : Type 0 where
  place_stop : String → F → F → String → Direction → Call F
  modify_stop : String → F → String → Call F
  exit_market : String → F → String → Direction → Call F
  replace_stop : String → String → F → F → String → Direction → Call F
  cancel_stop : String → String → Call F
  partial_taken : String → F → F → F → Call F
  position_exited : String → Option (ExitTelemetry F) → Call F

-- `hasattr` of the adapter, the callbacks that are set, and the answers.
pub record Outside (F : Type 0) : Type 0 where
  pub has_replace_stop : Bool
  pub has_cancel_stop : Bool
  pub on_partial : Bool
  pub on_exit : Bool
  pub answer : List (Call F) → Call F → Option String

pub data ExitError : Type 0 where
  stop_widen_attempt invalid_attach missing_key no_open_position not_a_number call_failed :
      ExitError

-- A position with the manager's counter, and the calls made so far.
pub record Work (F : Type 0) : Type 0 where
  pub pos : ManagedPosition F
  pub modify_calls : ℕ
  pub calls : List (Call F)

abbrev pub WorkMethod : Type 0 → Type 0 → Type 0
WorkMethod F A = Method (Work F) ExitError A

abbrev pub reply : Option String → Result ExitError String
reply none = err call_failed
reply (some id) = ok id

module _ {F : Type 0} where
  -- `await self.adapter.…`
  unfoldable pub call : Outside F → Call F → WorkMethod F String
  call out c w = (reply (out.answer w.calls c), record w { calls = w.calls ++ (c ∷ []) })

  abbrev pub is_long : ManagedPosition F → Bool
  is_long pos = elim pos.direction [ buy ↦ true | sell ↦ false ]

  abbrev pub is_exited : ManagedPosition F → Bool
  is_exited pos = elim pos.state [ exited ↦ true | _ ↦ false ]

  abbrev pub is_risk_on : ManagedPosition F → Bool
  is_risk_on pos = elim pos.state [ risk_on ↦ true | _ ↦ false ]

  abbrev pub is_breakeven : ManagedPosition F → Bool
  is_breakeven pos = elim pos.state [ breakeven ↦ true | _ ↦ false ]

  -- an assignment to fields of the position
  abbrev pub update : (ManagedPosition F → ManagedPosition F) → WorkMethod F (Unit {0})
  update f w = (ok tt, record w { pos = f w.pos })
