-- ===== src/Guards/SessionLatch.antt =====
-- src/ops/session_guard.py: a day that is banked or cut stays so.
use trading_os.Common.{
  ℕ, ◌+◌, ◌≤◌, ◌≡◌, refl, true, false, ◌&&◌, none, some, List, [], ◌∷◌, if◌then◌else◌, arith, inl,
  inr, ◌∙◌, ap, Option-cases,
}
use trading_os.Float.{Float, ◌<F◌, ◌<=F◌, nought}
use trading_os.Guards.Session.{
  untripped, SessionGuardState, SessionGuard, is_tripped, enabled, start_session, day_pnl,
  session_allows, session_marks,
}

module _ {F : Type 0} ⦃fl : Float F⦄ where
  -- A guard that is switched on and whose day is over.
  abbrev pub IsTripped : SessionGuard F → Type 0
  IsTripped g =
      (enabled g ≡ true)
      × ((s : SessionGuardState F) × (g.state ≡ some s) × (is_tripped s.tripped ≡ true))

  tripped_refuses :
      (equity : F) (g : SessionGuard F) → IsTripped g → session_allows equity g ≡ (false, g)
  unfolding session_allows
  tripped_refuses equity g (on, (s, e, t)) = ground arith

  -- Once tripped, the guard refuses every new entry at any equity and stays as it is, until the next
  -- session starts.
  pub session_latch :
      (marks : List F) (equity : F) (g : SessionGuard F)
      → IsTripped g
      → session_allows equity (session_marks marks g) ≡ (false, g)
  unfolding session_marks
  session_latch [] equity g t = tripped_refuses equity g t
  session_latch (m ∷ marks) equity g t =
      rw (ap (λ p. p.1) (tripped_refuses m g t)) (session_latch marks equity g t)

  -- A guard that is switched on allows an entry only in a started day that is not tripped, while the
  -- P&L of the day has reached neither a profit bank above 0 nor a loss stop above 0; then it stays
  -- as it is.
  pub session_allows_lem :
      (equity : F) (g : SessionGuard F)
      → enabled g ≡ true
      → (session_allows equity g).0 ≡ true
      → (s : SessionGuardState F) × (g.state ≡ some s)
        × ((s.day_start_equity <=F nought) ≡ false)
        × (s.tripped ≡ untripped)
        × (((nought <F g.profit_bank_pct) && (g.profit_bank_pct <=F day_pnl equity s)) ≡ false)
        × (((nought <F g.loss_stop_pct) && (day_pnl equity s <=F fl.neg g.loss_stop_pct)) ≡ false)
        × ((session_allows equity g).1 ≡ g)
  unfolding session_allows
  session_allows_lem equity g on h = elim (Option-cases g.state) [
    | inl e ↦ absurd (ground arith)
    | inr (s, e) ↦ (s, e, ground arith, ground arith, ground arith, ground arith, ground arith)
  ]

  -- the days that the guard has ended so far
  abbrev pub days_ended : SessionGuard F → ℕ
  days_ended g = elim g.state [ none ↦ 0 | some s ↦ s.days_banked + s.days_loss_stopped ]

  -- with one more for a day that is still open
  abbrev spent : SessionGuard F → ℕ
  spent g = elim g.state [
    | none ↦ 0
    | some s ↦ s.days_banked + s.days_loss_stopped + (if is_tripped s.tripped then 0 else 1)
  ]

  spent-session_allows :
      (equity : F) (g : SessionGuard F) → spent (session_allows equity g).1 ≡ spent g
  unfolding session_allows
  spent-session_allows equity g = ground arith

  spent-session_marks :
      (marks : List F) (g : SessionGuard F) → spent (session_marks marks g) ≡ spent g
  unfolding session_marks
  spent-session_marks [] g = refl
  spent-session_marks (m ∷ marks) g =
      spent-session_marks marks (session_allows m g).1 ∙ spent-session_allows m g

  days_ended-le-spent : (g : SessionGuard F) → days_ended g ≤ spent g
  days_ended-le-spent g = ground arith

  spent-start_session :
      (equity : F) (g : SessionGuard F) → spent (start_session equity g) ≡ days_ended g + 1
  unfolding start_session
  spent-start_session equity g = ground arith

  -- In one session, however often the guard is asked and at whatever equities, at most one day is
  -- added to the days banked and the days cut together.
  pub counted_once :
      (marks : List F) (equity : F) (g : SessionGuard F)
      → days_ended (session_marks marks (start_session equity g)) ≤ days_ended g + 1
  counted_once marks equity g = omega (
    arith,
    days_ended-le-spent (session_marks marks (start_session equity g)),
    spent-session_marks marks (start_session equity g),
    spent-start_session equity g,
  )
