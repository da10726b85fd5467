-- ===== src/Guards/Session.antt =====
-- src/ops/session_guard.py: `SessionGuard`, which banks or cuts a trading day.
use trading_os.Common.{
  ℕ, ◌+◌, Bool, true, false, ◌&&◌, ◌||◌, Option, none, some, List, [], ◌∷◌, if◌then◌else◌,
}
use trading_os.Common.Effects.{Result, ok, err}
use trading_os.Float.{Float, ◌-F◌, ◌/F◌, ◌<F◌, ◌<=F◌, nought, one}

pub data Tripped : Type 0 where
  untripped profit_banked loss_stopped : Tripped

pub record SessionGuardState (F : Type 0) : Type 0 where
  pub day_start_equity : F
  pub tripped : Tripped
  pub days_banked : ℕ
  pub days_loss_stopped : ℕ

pub record SessionGuard (F : Type 0) : Type 0 where
  pub profit_bank_pct : F
  pub loss_stop_pct : F
  pub state : Option (SessionGuardState F)

pub data SessionError : Type 0 where
  negative_percentage : SessionError

abbrev pub is_tripped : Tripped → Bool
is_tripped untripped = false
is_tripped _ = true

module _ {F : Type 0} ⦃fl : Float F⦄ where
  -- `__init__`
  unfoldable pub new_session_guard : F → F → Result SessionError (SessionGuard F)
  new_session_guard profit_bank_pct loss_stop_pct =
      if (profit_bank_pct <F nought) || (loss_stop_pct <F nought)
      then err negative_percentage
      else ok (record {
        profit_bank_pct = profit_bank_pct;
        loss_stop_pct = loss_stop_pct;
        state = none;
      })

  abbrev pub enabled : SessionGuard F → Bool
  enabled g = (nought <F g.profit_bank_pct) || (nought <F g.loss_stop_pct)

  unfoldable pub start_session : F → SessionGuard F → SessionGuard F
  start_session equity g = record g {
    state = some (record {
      day_start_equity = equity;
      tripped = untripped;
      days_banked = elim g.state [ none ↦ 0 | some prev ↦ prev.days_banked ];
      days_loss_stopped = elim g.state [ none ↦ 0 | some prev ↦ prev.days_loss_stopped ];
    });
  }

  abbrev pub day_pnl : F → SessionGuardState F → F
  day_pnl equity s = (equity /F s.day_start_equity) -F one

  -- the tests on the P&L of the day
  abbrev pub weigh : F → SessionGuardState F → SessionGuard F → Bool × SessionGuard F
  weigh equity s g =
      if (nought <F g.profit_bank_pct) && (g.profit_bank_pct <=F day_pnl equity s)
      then (
        false,
        record g {
          state = some (record s { tripped = profit_banked; days_banked = s.days_banked + 1 });
        },
      )
      else if (nought <F g.loss_stop_pct) && (day_pnl equity s <=F fl.neg g.loss_stop_pct)
      then (
        false,
        record g {
          state =
              some
                (record s { tripped = loss_stopped; days_loss_stopped = s.days_loss_stopped + 1 });
        },
      )
      else (true, g)

  abbrev pub with_state : F → Option (SessionGuardState F) → SessionGuard F → Bool × SessionGuard F
  with_state equity none g = (false, g)
  with_state equity (some s) g =
      if s.day_start_equity <=F nought
      then (false, g)
      else if is_tripped s.tripped
      then (false, g)
      else weigh equity s g

  unfoldable pub session_allows : F → SessionGuard F → Bool × SessionGuard F
  session_allows equity g = if enabled g then with_state equity g.state g else (true, g)

  -- A day of marks, one after the other.
  unfoldable pub session_marks : List F → SessionGuard F → SessionGuard F
  session_marks [] g = g
  session_marks (equity ∷ rest) g = session_marks rest (session_allows equity g).1
