-- ===== src/Orders/Record.antt =====
-- src/core/order_state_machine.py: `OrderState`, the table `_LEGAL`, `OrderRecord` and its transition.
-- The texts of exceptions and history notes are constructors that carry the values shown.
use trading_os.Common.{
  if◌then◌else◌, ℕ, Bool, true, false, not, ◌&&◌, Option, List, [], ◌∷◌, ◌++◌, String, nat_eq,
}
use trading_os.Common.Effects.{Method, ok, err}

pub data OrderState : Type 0 where
  created sent acked partial filled rejected cancelled unknown failed_not_placed : OrderState

abbrev pub rank : OrderState → ℕ
rank created = 0
rank sent = 1
rank acked = 2
rank partial = 3
rank filled = 4
rank rejected = 5
rank cancelled = 6
rank unknown = 7
rank failed_not_placed = 8

-- `new is state`
abbrev pub is_state : OrderState → OrderState → Bool
is_state s t = nat_eq (rank s) (rank t)

-- `state in TERMINAL_STATES`
abbrev pub terminal_states : OrderState → Bool
terminal_states filled = true
terminal_states rejected = true
terminal_states cancelled = true
terminal_states failed_not_placed = true
terminal_states _ = false

-- `new in _LEGAL[state]`
abbrev pub legal : OrderState → OrderState → Bool
legal created sent = true
legal created failed_not_placed = true
legal sent acked = true
legal sent rejected = true
legal sent unknown = true
legal sent filled = true
legal sent partial = true
legal acked partial = true
legal acked filled = true
legal acked rejected = true
legal acked cancelled = true
legal acked unknown = true
legal partial partial = true
legal partial filled = true
legal partial cancelled = true
legal partial rejected = true
legal partial unknown = true
legal unknown acked = true
legal unknown partial = true
legal unknown filled = true
legal unknown rejected = true
legal unknown cancelled = true
legal unknown failed_not_placed = true
legal _ _ = false

pub data Direction : Type 0 where
  buy sell : Direction

pub data Leg : Type 0 where
  india mt5_forex mt5_crypto : Leg

pub data Note (F : Type 0) : Type 0 where
  dispatched timeout_after_send confirmed_absent adopted adopted_acked adopted_cancelled : Note F
  broker_ack free_text reconcile_failed retry_of : String → Note F
  fill_at partial_at : F → F → Note F

-- One tuple of `history`: the time, the states before and after, and the note.
pub record Entry (F : Type 0) : Type 0 where
  pub at : F
  pub old : OrderState
  pub new : OrderState
  pub note : Note F

pub data OrderError (F : Type 0) : Type 0 where
  illegal_transition : OrderState → OrderState → Note F → OrderError F
  reconcile_only_from_unknown retry_not_allowed : OrderState → OrderError F
  fill_not_positive zero_division : OrderError F
  overfill : F → F → OrderError F

pub record OrderRecord (F : Type 0) : Type 0 where
  pub client_order_id : String
  pub symbol : String
  pub direction : Direction
  pub requested_qty : F
  pub leg : Leg
  pub state : OrderState
  pub broker_order_id : Option String
  pub filled_qty : F
  pub avg_fill_price : Option F
  pub reject_reason : Option String
  pub history : List (Entry F)

-- A method on one record.
abbrev pub RecordMethod : Type 0 → Type 0 → Type 0
RecordMethod F A = Method (OrderRecord F) (OrderError F) A

module _ {F : Type 0} where
  unfoldable pub log : F → OrderState → OrderState → Note F → OrderRecord F → OrderRecord F
  log now old new note r = record r {
    history = r.history ++ (record { at = now; old = old; new = new; note = note } ∷ []);
  }

  -- `_transition`
  unfoldable pub transition : F → OrderState → Note F → RecordMethod F (Unit {0})
  unfolding log
  transition now new note r =
      if not (is_state new r.state) && not (legal r.state new)
      then (err (illegal_transition r.state new note), r)
      else (ok tt, record (log now r.state new note r) { state = new })

  -- the property `is_terminal`
  pub is_terminal : OrderRecord F → Bool
  is_terminal r = terminal_states r.state

pub OrderState-discrete : Discrete OrderState
OrderState-discrete = hlevel
