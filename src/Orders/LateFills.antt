-- ===== src/Orders/LateFills.antt =====
-- src/core/order_state_machine.py: a fill that arrives where no fill is legal.
use trading_os.Common.{◌≡◌, ◌≢◌, false, arith}
use trading_os.Common.Effects.{Result, err}
use trading_os.Float.{Float, ◌+F◌, ◌<F◌, ◌<=F◌, ◌==F◌, nought}
use trading_os.Orders.Record.{
  OrderState, partial, filled, legal, OrderError, illegal_transition, OrderRecord, transition,
}
use trading_os.Orders.Methods.{tolerance, on_fill}

-- The state takes neither FILLED nor PARTIAL: it is CREATED, REJECTED, CANCELLED or
-- FAILED_NOT_PLACED.
abbrev pub RefusesFills : OrderState → Type 0
RefusesFills s = (legal s partial ≡ false) × (legal s filled ≡ false) × (s ≢ partial) × (s ≢ filled)

abbrev pub RaisesIllegal : {F : Type 0} → Result (OrderError F) (Unit {0}) → Type 0
RaisesIllegal (err (illegal_transition from to note)) = Unit
RaisesIllegal _ = ⊥

module _ {F : Type 0} ⦃fl : Float F⦄ where
  -- In a state that takes no fill, a fill with a quantity above 0 and within the order raises
  -- IllegalTransition and leaves the state, and yet the quantity stays booked on the record.
  pub late_fill_books :
      (now qty price : F) (r : OrderRecord F)
      → RefusesFills r.state
      → (qty <=F nought) ≡ false
      → ((r.requested_qty +F tolerance) <F (r.filled_qty +F qty)) ≡ false
      → ((r.filled_qty +F qty) ==F nought) ≡ false
      → let (result, r') = on_fill now qty price r in
        RaisesIllegal result × (r'.state ≡ r.state) × (r'.filled_qty ≡ r.filled_qty +F qty)
  unfolding on_fill transition
  late_fill_books now qty price r s h k z = (ground arith, ground arith, ground arith)
