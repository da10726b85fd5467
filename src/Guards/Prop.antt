-- ===== src/Guards/Prop.antt =====
-- src/ops/prop_rules.py: `PropRules`, `PropState` and `PropGuard`, the rules of a funded account. A moment
-- is a number of seconds since 1970 in UTC.
use trading_os.Common.{
  ℕ, ◌+◌, ◌-◌, ◌*◌, ◌/◌, Bool, true, false, ◌||◌, Option, none, some, List, [], ◌∷◌, if◌then◌else◌,
  nat_eq, length,
}
use trading_os.Float.{Float, ◌+F◌, ◌-F◌, ◌*F◌, ◌/F◌, ◌<F◌, ◌<=F◌, fmax, nought, one}

pub record PropRules (F : Type 0) : Type 0 where
  pub initial_balance : F
  pub max_daily_loss_pct : F
  pub max_total_dd_pct : F
  pub trailing_dd : Bool
  pub profit_target_pct : F
  pub min_trading_days : ℕ
  pub soft_fraction : F
  pub day_reset_utc_hour : ℕ

pub data Breach : Type 0 where
  unbreached daily_loss_breached max_drawdown_breached : Breach

-- `none` is the day key "" of a state that has seen no mark.
pub record PropState (F : Type 0) : Type 0 where
  pub day_key : Option ℕ
  pub day_start_equity : F
  pub high_water : F
  pub traded_days : List ℕ
  pub breached : Breach

pub record PropGuard (F : Type 0) : Type 0 where
  pub rules : PropRules F
  pub state : PropState F

-- The dict that `on_equity` returns.
pub record PropStatus (F : Type 0) : Type 0 where
  pub breached : Breach
  pub daily_used_pct : F
  pub daily_budget_left : F
  pub daily_soft_stop : Bool
  pub total_used_pct : F
  pub total_budget_left : F
  pub total_soft_stop : Bool
  pub profit_target_equity : F
  pub target_progress_pct : Option F
  pub traded_days : ℕ
  pub min_trading_days : ℕ
  pub target_reached : Bool

pub data PropReason : Type 0 where
  prop_ok daily_soft_stop drawdown_soft_stop : PropReason
  prop_breached : Breach → PropReason

abbrev pub is_breached : Breach → Bool
is_breached unbreached = false
is_breached _ = true

abbrev same_day : Option ℕ → ℕ → Bool
same_day none k = false
same_day (some j) k = nat_eq j k

abbrev member : ℕ → List ℕ → Bool
member k [] = false
member k (j ∷ js) = nat_eq j k || member k js

-- `_day_key`: the number of the firm's day, which starts at the reset hour (from 1969-12-31 on)
unfoldable pub prop_day : ℕ → ℕ → ℕ
prop_day hour now = (now + 86400 - hour * 3600) / 86400

module _ {F : Type 0} ⦃fl : Float F⦄ where
  open fl use {lit, round_to}

  -- `__init__`
  unfoldable pub new_prop_guard : PropRules F → PropGuard F
  new_prop_guard rules = record {
    rules = rules;
    state = record {
      day_key = none;
      day_start_equity = nought;
      high_water = rules.initial_balance;
      traded_days = [];
      breached = unbreached;
    };
  }

  abbrev pub roll_day : PropRules F → F → ℕ → PropState F → PropState F
  roll_day r equity now s =
      let key = prop_day r.day_reset_utc_hour now in
      if same_day s.day_key key
      then s
      else record s { day_key = some key; day_start_equity = equity }

  -- the state in which the limits are computed
  abbrev pub marked : PropRules F → F → ℕ → PropState F → PropState F
  marked r equity now s =
      let t = roll_day r equity now s in record t { high_water = fmax t.high_water equity }

  abbrev pub daily_budget : PropRules F → PropState F → F
  daily_budget r s = s.day_start_equity *F r.max_daily_loss_pct

  abbrev pub daily_used : F → PropState F → F
  daily_used equity s = fmax nought (s.day_start_equity -F equity)

  abbrev pub dd_base : PropRules F → PropState F → F
  dd_base r s = if r.trailing_dd then s.high_water else r.initial_balance

  abbrev pub total_budget : PropRules F → PropState F → F
  total_budget r s = dd_base r s *F r.max_total_dd_pct

  abbrev pub total_used : PropRules F → F → PropState F → F
  total_used r equity s = fmax nought (dd_base r s -F equity)

  abbrev pub breach_now : PropRules F → F → PropState F → Breach
  breach_now r equity s =
      if is_breached s.breached
      then s.breached
      else if daily_budget r s <=F daily_used equity s
      then daily_loss_breached
      else if total_budget r s <=F total_used r equity s
      then max_drawdown_breached
      else s.breached

  abbrev pub target_equity : PropRules F → F
  target_equity r = r.initial_balance *F (one +F r.profit_target_pct)

  abbrev status : PropRules F → F → PropState F → PropStatus F
  status r equity s =
      let target = target_equity r in
      record {
        breached = s.breached;
        daily_used_pct = round_to 3 (
            (lit 100 0 *F daily_used equity s)
            /F fmax (daily_budget r s) (lit 1 9)
            *F r.max_daily_loss_pct);
        daily_budget_left = round_to 2 (daily_budget r s -F daily_used equity s);
        daily_soft_stop = (r.soft_fraction *F daily_budget r s) <=F daily_used equity s;
        total_used_pct =
            round_to 3 ((lit 100 0 *F total_used r equity s) /F fmax (dd_base r s) (lit 1 9));
        total_budget_left = round_to 2 (total_budget r s -F total_used r equity s);
        total_soft_stop = (r.soft_fraction *F total_budget r s) <=F total_used r equity s;
        profit_target_equity = round_to 2 target;
        target_progress_pct =
            if r.initial_balance <F target
            then some (
                round_to 1
                  ((lit 100 0 *F (equity -F r.initial_balance)) /F (target -F r.initial_balance)))
            else none;
        traded_days = length s.traded_days;
        min_trading_days = r.min_trading_days;
        target_reached = target <=F equity;
      }

  unfoldable pub on_equity : F → ℕ → PropGuard F → PropStatus F × PropGuard F
  on_equity equity now g =
      let s = marked g.rules equity now g.state in
      let t : PropState F = record s { breached = breach_now g.rules equity s } in
      (status g.rules equity t, record g { state = t })

  unfoldable pub record_trade : ℕ → PropGuard F → PropGuard F
  record_trade now g =
      let s = g.state in
      let key = prop_day g.rules.day_reset_utc_hour now in
      let days : List ℕ = if member key s.traded_days then s.traded_days else key ∷ s.traded_days in
      record g { state = record s { traded_days = days } }

  abbrev judge : PropStatus F → Bool × PropReason
  judge st =
      if is_breached st.breached
      then (false, prop_breached st.breached)
      else if st.daily_soft_stop
      then (false, daily_soft_stop)
      else if st.total_soft_stop
      then (false, drawdown_soft_stop)
      else (true, prop_ok)

  unfoldable pub prop_allows : F → ℕ → PropGuard F → (Bool × PropReason) × PropGuard F
  unfolding on_equity
  prop_allows equity now g = let (st, g') = on_equity equity now g in (judge st, g')
