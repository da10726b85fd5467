-- ===== src/KillSwitch/Halting.antt =====
-- src/core/kill_switch.py: when the system is halted, and how it stays so.
use text.Mathlib.TextEquality.{eq_iff}
use trading_os.Common.{
  ◌≡◌, ◌≢◌, ◌↔◌, refl, Bool, true, false, ◌⊎◌, inl, inr, Option, none, some, String, arith,
  Bool-cases,
}
use trading_os.Common.Effects.{ok, err}
use trading_os.Float.{Float, ◌<F◌, ◌<=F◌}
use trading_os.KillSwitch.Switch.{
  Value, is_set, World, Config, Reason, sentinel_not_written, is_halted, require_trading_allowed,
  kill_all, unlock, check_auto_triggers, finish, opened,
}

-- Trading is allowed exactly when Redis answers, its flag is not set and there is no sentinel file.
pub require_trading_allowed_iff :
    (w : World)
    → ((require_trading_allowed w).0 ≡ ok tt)
      ↔ ((w.redis_up ≡ true) × (is_set w.halt_flag ≡ false) × (w.sentinel ≡ false))
unfolding require_trading_allowed
require_trading_allowed_iff w = ground arith

-- What may happen to Redis behind the switch: it goes away or comes back, and its flag is changed.
abbrev pub redis_becomes : Bool → Option Value → World → World
redis_becomes up flag w = record w { redis_up = up; halt_flag = flag }

module _ {F : Type 0} where
  -- If the sentinel file can be written, `kill_all` returns its report whatever Redis and the brokers
  -- answer, as long as each order and position listed carries its id, and the system is halted from then on, whatever happens to Redis; if it cannot, the call
  -- raises, and the system is halted as long as Redis keeps the flag or does not answer.
  pub kill_all_halts :
      (config : Config F) (reason : Reason F) (now : F) (w : World)
      → let (result, w') = kill_all config reason now w in
        ((w.disk_ok ≡ true)
          × (result ≡ ok (finish config (opened w.redis_up reason now)))
          × ((up : Bool) (flag : Option Value) → is_halted (redis_becomes up flag w') ≡ true))
        ⊎ (w.disk_ok ≡ false) × (result ≡ err sentinel_not_written) × (is_halted w' ≡ true)
  unfolding kill_all is_halted
  kill_all_halts config reason now w = elim (Bool-cases w.disk_ok) [
    | inl good ↦ inl (good, rw good refl, λ up flag. rw good (ground arith))
    | inr bad ↦ inr (bad, rw bad refl, rw bad (ground arith))
  ]

  -- `unlock` succeeds exactly with the configured phrase, if that is not empty, and a Redis that
  -- answers; then trading is allowed. Otherwise it changes nothing.
  pub unlock_lem :
      (config : Config F) (phrase : String) (w : World)
      → let (result, w') = unlock config phrase w in
        ((result ≡ ok tt)
          ↔ ((config.unlock_phrase ≢ "") × (phrase ≡ config.unlock_phrase) × (w.redis_up ≡ true)))
        × (result ≡ ok tt → is_halted w' ≡ false)
        × (result ≢ ok tt → w' ≡ w)
  unfolding unlock is_halted
  unlock_lem config phrase w =
      ground (arith, eq_iff config.unlock_phrase "", eq_iff phrase config.unlock_phrase)

module _ {F : Type 0} ⦃fl : Float F⦄ where
  abbrev pub LossBreached : Config F → Option F → Type 0
  LossBreached config none = ⊥
  LossBreached config (some pnl) = (pnl <=F fl.neg config.auto_daily_loss) ≡ true

  abbrev pub VarBreached : Config F → Option F → Type 0
  VarBreached config none = ⊥
  VarBreached config (some var) = (config.auto_var ≡ true) × ((config.max_var_daily <F var) ≡ true)

  -- When the daily loss has reached its limit or, if the VaR trigger is on, the VaR is above its
  -- limit, the auto trigger does not return None, and the system is halted after it: also when the
  -- sentinel file cannot be written, where it raises. Otherwise it returns None and nothing changes.
  pub check_auto_triggers_lem :
      (config : Config F) (now : F) (daily_pnl_pct var_95 : Option F) (w : World)
      → let (result, w') = check_auto_triggers config now daily_pnl_pct var_95 w in
        (LossBreached config daily_pnl_pct ⊎ VarBreached config var_95
          → (result ≢ ok none) × (is_halted w' ≡ true))
        × (¬ LossBreached config daily_pnl_pct
            → ¬ VarBreached config var_95
            → (result ≡ ok none) × (w' ≡ w))
  unfolding check_auto_triggers is_halted
  check_auto_triggers_lem config now none none w = ground arith
  check_auto_triggers_lem config now none (some var) w = ground arith
  check_auto_triggers_lem config now (some pnl) none w = ground arith
  check_auto_triggers_lem config now (some pnl) (some var) w = ground arith
