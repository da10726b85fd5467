-- ===== src/Exits/Manager.antt =====
-- src/exits/exit_manager.py: the class `ExitManager`, with its positions by symbol.
use trading_os.Common.{
  ℕ, String, Bool, false, not, ◌&&◌, ◌||◌, Option, none, some, List, [], ◌∷◌, ◌++◌, if◌then◌else◌,
}
use text.Mathlib.Text.{◌==◌ as str_eq}
use trading_os.Common.Dict.{Dict, lookup, insert}
use trading_os.Common.Effects.{Result, ok, err, Method}
use trading_os.Orders.Record.{Direction, buy, sell}
use trading_os.Float.{Float, ◌+F◌, ◌-F◌, ◌*F◌, ◌<=F◌, fmax, nought}
use trading_os.Exits.Position.{
  Phase, risk_on, ManagedPosition, ExitConfig, Call, place_stop, Outside, ExitError, invalid_attach,
  missing_key, no_open_position, WorkMethod, reply, is_exited,
}
use trading_os.Exits.Moves.{force_stop_change, manual_exit}
use trading_os.Exits.Bars.{Bar, Action, on_bar}

pub record ExitManager (F : Type 0) : Type 0 where
  pub positions : Dict (ManagedPosition F)
  pub modify_calls : ℕ
  pub calls : List (Call F)

abbrev pub ManagerMethod : Type 0 → Type 0 → Type 0
ManagerMethod F A = Method (ExitManager F) ExitError A

-- The arguments of `attach`, with the time of the call.
pub record NewPosition (F : Type 0) : Type 0 where
  pub symbol : String
  pub direction : Direction
  pub entry : F
  pub qty : F
  pub atr : F
  pub leg : String
  pub structure_stop : Option F
  pub lot_size : F
  pub now : F

-- A position in a snapshot: every field but `telemetry`.
pub record SavedPosition (F : Type 0) : Type 0 where
  pub symbol : String
  pub direction : Direction
  pub entry : F
  pub qty : F
  pub atr : F
  pub leg : String
  pub stop : F
  pub r_value : F
  pub stop_order_id : String
  pub state : Phase
  pub extreme : F
  pub bars_no_progress : ℕ
  pub partials_taken : List F
  pub remaining_qty : F
  pub lot_size : F
  pub opened_at : F
  pub profit_locked : Bool

module _ {F : Type 0} where
  abbrev pub saved : ManagedPosition F → SavedPosition F
  saved p = record {
    symbol = p.symbol;
    direction = p.direction;
    entry = p.entry;
    qty = p.qty;
    atr = p.atr;
    leg = p.leg;
    stop = p.stop;
    r_value = p.r_value;
    stop_order_id = p.stop_order_id;
    state = p.state;
    extreme = p.extreme;
    bars_no_progress = p.bars_no_progress;
    partials_taken = p.partials_taken;
    remaining_qty = p.remaining_qty;
    lot_size = p.lot_size;
    opened_at = p.opened_at;
    profit_locked = p.profit_locked;
  }

  -- `ManagedPosition(**fields_)`
  abbrev pub restored : SavedPosition F → ManagedPosition F
  restored p = record {
    symbol = p.symbol;
    direction = p.direction;
    entry = p.entry;
    qty = p.qty;
    atr = p.atr;
    leg = p.leg;
    stop = p.stop;
    r_value = p.r_value;
    stop_order_id = p.stop_order_id;
    state = p.state;
    extreme = p.extreme;
    bars_no_progress = p.bars_no_progress;
    partials_taken = p.partials_taken;
    remaining_qty = p.remaining_qty;
    lot_size = p.lot_size;
    opened_at = p.opened_at;
    profit_locked = p.profit_locked;
    telemetry = none;
  }

  -- the loop of `to_snapshot`, over a dict
  abbrev pub save_all : Dict (ManagedPosition F) → Dict (SavedPosition F)
  save_all [] = []
  save_all ((sym, p) ∷ d) = (sym, saved p) ∷ save_all d

  unfoldable pub to_snapshot : ExitManager F → Dict (SavedPosition F)
  to_snapshot m = save_all m.positions

  -- the loop of `from_snapshot`
  abbrev pub load : Dict (ManagedPosition F) → Dict (SavedPosition F) → Dict (ManagedPosition F)
  load positions [] = positions
  load positions ((sym, fields_) ∷ rest) = load (insert sym (restored fields_) positions) rest

  -- The new manager's counter starts at 0; the calls made before are part of the world.
  unfoldable pub from_snapshot : List (Call F) → Dict (SavedPosition F) → ExitManager F
  from_snapshot made snapshot = record {
    positions = load [] snapshot;
    modify_calls = 0;
    calls = made;
  }

  abbrev pub is_naked : ManagedPosition F → Bool
  is_naked p = not (is_exited p) && str_eq p.stop_order_id ""

  abbrev pub naked_in : Dict (ManagedPosition F) → List String
  naked_in [] = []
  naked_in ((sym, p) ∷ d) = if is_naked p then sym ∷ naked_in d else naked_in d

  unfoldable pub naked_positions : ExitManager F → List String
  naked_positions m = naked_in m.positions

  -- A method on the position of the dict, which is the object that the method writes.
  abbrev pub on_position :
      {A : Type 0} → String → ManagedPosition F → WorkMethod F A → ManagerMethod F A
  on_position sym p method m =
      let (r, w) = method (record { pos = p; modify_calls = m.modify_calls; calls = m.calls }) in
      (
        r,
        record {
          positions = insert sym w.pos m.positions;
          modify_calls = w.modify_calls;
          calls = w.calls;
        },
      )

module _ {F : Type 0} ⦃fl : Float F⦄ where
  open fl use {abs}

  abbrev pub bad_entry : NewPosition F → Bool
  bad_entry e =
      (e.entry <=F nought)
      || ((e.qty <=F nought) || ((e.atr <=F nought) || (e.lot_size <=F nought)))

  abbrev pub stop_distance : NewPosition F → F → F
  stop_distance e k_sl = elim e.structure_stop [
    | none ↦ k_sl *F e.atr
    | some structure_stop ↦ fmax (k_sl *F e.atr) (abs (e.entry -F structure_stop))
  ]

  abbrev pub initial_stop : NewPosition F → F → F
  initial_stop e k_sl = elim e.direction [
    | buy ↦ e.entry -F stop_distance e k_sl
    | sell ↦ e.entry +F stop_distance e k_sl
  ]

  abbrev pub new_position : NewPosition F → F → String → ManagedPosition F
  new_position e stop id = record {
    symbol = e.symbol;
    direction = e.direction;
    entry = e.entry;
    qty = e.qty;
    atr = e.atr;
    leg = e.leg;
    stop = stop;
    r_value = abs (e.entry -F stop);
    stop_order_id = id;
    state = risk_on;
    extreme = e.entry;
    bars_no_progress = 0;
    partials_taken = [];
    remaining_qty = e.qty;
    lot_size = e.lot_size;
    opened_at = e.now;
    profit_locked = false;
    telemetry = none;
  }

  abbrev pub stop_order : NewPosition F → F → Call F
  stop_order e stop = place_stop e.symbol e.qty stop e.leg e.direction

  abbrev pub register :
      NewPosition F → F → Result ExitError String → ManagerMethod F (ManagedPosition F)
  register e stop (err x) m = (err x, m)
  register e stop (ok id) m = (
    ok (new_position e stop id),
    record m { positions = insert e.symbol (new_position e stop id) m.positions },
  )

  abbrev pub place : Outside F → NewPosition F → F → ManagerMethod F (ManagedPosition F)
  place out e stop m =
      let c = stop_order e stop in
      register e stop (reply (out.answer m.calls c)) (record m { calls = m.calls ++ (c ∷ []) })

  unfoldable pub attach :
      ExitConfig F → Outside F → NewPosition F → ManagerMethod F (ManagedPosition F)
  attach cfg out e m =
      if bad_entry e then (err invalid_attach, m) else elim (lookup e.leg cfg.k_sl_initial) [
        | none ↦ (err missing_key, m)
        | some k_sl ↦ place out e (initial_stop e k_sl) m
      ]

  -- The methods by symbol: an unknown one is a KeyError, or for `on_bar` no action.
  abbrev pub stop_change_of : ExitConfig F → Outside F → String → F → ManagerMethod F (Unit {0})
  stop_change_of cfg out sym new_stop m = elim (lookup sym m.positions) [
    | none ↦ (err missing_key, m)
    | some p ↦ on_position sym p (force_stop_change cfg out new_stop) m
  ]

  abbrev pub exit_of : Outside F → String → F → String → ManagerMethod F (Unit {0})
  exit_of out sym price reason m = elim (lookup sym m.positions) [
    | none ↦ (err no_open_position, m)
    | some p ↦ on_position sym p (manual_exit out price reason) m
  ]

  abbrev pub bar_of : ExitConfig F → Outside F → String → Bar F → ManagerMethod F (List (Action F))
  bar_of cfg out sym b m = elim (lookup sym m.positions) [
    | none ↦ (ok [], m)
    | some p ↦ on_position sym p (on_bar cfg out b) m
  ]
