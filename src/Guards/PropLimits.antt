-- ===== src/Guards/PropLimits.antt =====
-- src/ops/prop_rules.py: what the guard refuses, and what it lets through.
use trading_os.Common.{◌↔◌, ℕ, ◌≡◌, refl, ◌∙◌, true, false, some, List, [], ◌∷◌, arith}
use trading_os.Float.{Float, ◌-F◌, ◌*F◌, ◌<F◌, ◌<=F◌, fmax, nought}
use trading_os.Float.Laws.{Ieee}
use trading_os.Guards.Prop.{
  PropGuard, Breach, unbreached, prop_ok, prop_breached, is_breached, marked, daily_budget,
  daily_used, total_budget, total_used, on_equity, prop_allows, prop_day,
}

module _ {F : Type 0} ⦃fl : Float F⦄ where
  -- A run of marks at the given equities and moments.
  abbrev pub marks : List (F × ℕ) → PropGuard F → PropGuard F
  marks [] g = g
  marks ((equity, now) ∷ rest) g = marks rest (on_equity equity now g).1

  breach_kept :
      (equity : F) (now : ℕ) (g : PropGuard F)
      → is_breached g.state.breached ≡ true
      → (on_equity equity now g).1.state.breached ≡ g.state.breached
  unfolding on_equity
  breach_kept equity now g h = ground arith

  marks-breached :
      (ms : List (F × ℕ)) (g : PropGuard F)
      → is_breached g.state.breached ≡ true
      → (marks ms g).state.breached ≡ g.state.breached
  marks-breached [] g h = refl
  marks-breached ((equity, now) ∷ rest) g h =
      let kept = breach_kept equity now g h in
      marks-breached rest (on_equity equity now g).1 (rw kept h) ∙ kept

  refused_breached :
      (equity : F) (now : ℕ) (g : PropGuard F) (b : Breach)
      → g.state.breached ≡ b
      → is_breached b ≡ true
      → (prop_allows equity now g).0 ≡ (false, prop_breached b)
  unfolding prop_allows
  refused_breached equity now g b e h = ground arith

  -- A breach is final: after any marks, also on later days, every new entry is refused for it.
  pub breach_is_final :
      (ms : List (F × ℕ)) (equity : F) (now : ℕ) (g : PropGuard F)
      → is_breached g.state.breached ≡ true
      → (prop_allows equity now (marks ms g)).0 ≡ (false, prop_breached g.state.breached)
  breach_is_final ms equity now g h =
      refused_breached equity now (marks ms g) g.state.breached (marks-breached ms g h) h

  -- The guard allows an entry exactly when no limit was breached before and, at this mark, neither
  -- the loss of the day nor the drawdown reaches the firm's limit or the soft fraction of it.
  pub prop_allows_lem :
      (equity : F) (now : ℕ) (g : PropGuard F)
      → let s = marked g.rules equity now g.state in
        ((prop_allows equity now g).0.0 ≡ true) ↔ (
          (g.state.breached ≡ unbreached)
          × ((daily_budget g.rules s <=F daily_used equity s) ≡ false)
          × ((total_budget g.rules s <=F total_used g.rules equity s) ≡ false)
          × (((g.rules.soft_fraction *F daily_budget g.rules s) <=F daily_used equity s) ≡ false)
          × (((g.rules.soft_fraction *F total_budget g.rules s) <=F total_used g.rules equity s)
              ≡ false))
  unfolding prop_allows
  prop_allows_lem equity now g = (λ h. ground arith, λ h. ground arith)

module _ {F : Type 0} ⦃fl : Float F⦄ ⦃ieee : Ieee F⦄ where
  nan_ignored : (a x : F) → fl.is_nan x ≡ true → fmax a x ≡ a
  unfolding fmax ◌<F◌
  nan_ignored a x h = ground arith

  -- A mark that is not a number passes: while no limit was breached, on a day that has begun and with
  -- no budget or soft line at 0 or less, the guard allows new entries at an equity of NaN.
  pub nan_equity_allowed :
      (equity : F) (now : ℕ) (g : PropGuard F)
      → fl.is_nan equity ≡ true
      → g.state.breached ≡ unbreached
      → g.state.day_key ≡ some (prop_day g.rules.day_reset_utc_hour now)
      → (daily_budget g.rules g.state <=F nought) ≡ false
      → (total_budget g.rules g.state <=F nought) ≡ false
      → ((g.rules.soft_fraction *F daily_budget g.rules g.state) <=F nought) ≡ false
      → ((g.rules.soft_fraction *F total_budget g.rules g.state) <=F nought) ≡ false
      → (prop_allows equity now g).0 ≡ (true, prop_ok)
  unfolding prop_allows
  nan_equity_allowed equity now g n b d p q u v = ground (
    arith,
    nan_ignored g.state.high_water equity n,
    nan_ignored nought (g.state.day_start_equity -F equity)
        (ieee.nan-sub_right g.state.day_start_equity equity n),
    nan_ignored nought (g.state.high_water -F equity)
        (ieee.nan-sub_right g.state.high_water equity n),
    nan_ignored nought (g.rules.initial_balance -F equity)
        (ieee.nan-sub_right g.rules.initial_balance equity n),
  )
