-- ===== src/Clock/Sessions.antt =====
-- src/ops/market_clock.py: `MarketClock`. A datetime is the number of microseconds since the start of
-- 0001-01-01 as day 1, and a date is its ordinal, as in `date.toordinal`, up to 9999-12-31; India is
-- 5:30 ahead of UTC. `now` is before the last 5:30 hours of 9999, where `astimezone(_IST)` raises.
use trading_os.Common.{
  ℕ, zero, suc, ◌+◌, ◌-◌, ◌*◌, ◌/◌, String, Bool, true, false, not, ◌&&◌, ◌||◌, Option, none, some,
  List, [], ◌∷◌, nat_eq, ltb, leb, if◌then◌else◌,
}
use Prim.Native.Nat.{◌%◌}
use trading_os.Common.Effects.{Result, ok, err}
use trading_os.Orders.Record.{Leg, india, mt5_forex, mt5_crypto}

pub record MarketClock : Type 0 where
  pub india_open : ℕ  -- a time is the number of microseconds since midnight
  pub india_close : ℕ
  pub india_weekdays : List ℕ  -- Monday is 0
  pub india_holidays : List ℕ
  pub fx_week_open_dow : ℕ
  pub fx_week_open : ℕ
  pub fx_week_close_dow : ℕ
  pub fx_week_close : ℕ

pub data ClockError : Type 0 where
  bad_holiday : String → ClockError

abbrev pub date_of : ℕ → ℕ
date_of t = t / 86400000000

abbrev pub time_of : ℕ → ℕ
time_of t = t % 86400000000

-- `datetime.combine`
abbrev pub combine : ℕ → ℕ → ℕ
combine d t = d * 86400000000 + t

-- `date.weekday`
abbrev pub weekday : ℕ → ℕ
weekday d = (d + 6) % 7

-- `astimezone(_IST)` and back
abbrev pub to_ist : ℕ → ℕ
to_ist now = now + 19800000000

abbrev pub to_utc : ℕ → ℕ
to_utc t = t - 19800000000

abbrev pub elem : ℕ → List ℕ → Bool
elem x [] = false
elem x (y ∷ ys) = nat_eq x y || elem x ys

-- The loop over the holidays of the configuration; `iso` is `date.fromisoformat(str(h)[:10])`, with
-- none for a ValueError.
abbrev pub add_holiday : String → Option ℕ → Result ClockError (List ℕ) → Result ClockError (List ℕ)
add_holiday h none rest = err (bad_holiday h)
add_holiday h (some d) (ok ds) = ok (d ∷ ds)
add_holiday h (some d) (err e) = err e

unfoldable pub parse_holidays : (String → Option ℕ) → List String → Result ClockError (List ℕ)
parse_holidays iso [] = ok []
parse_holidays iso (h ∷ hs) = add_holiday h (iso h) (parse_holidays iso hs)

unfoldable pub india_day_ok : MarketClock → ℕ → Bool
india_day_ok c d = elem (weekday d) c.india_weekdays && not (elem d c.india_holidays)

unfoldable pub india_open_at : MarketClock → ℕ → Bool
unfolding india_day_ok
india_open_at c now =
    let ist = to_ist now in
    if not (india_day_ok c (date_of ist))
    then false
    else leb c.india_open (time_of ist) && ltb (time_of ist) c.india_close

-- 9999-12-31, after which `date + timedelta` raises an OverflowError
abbrev pub last_day : ℕ
last_day = 3652059

-- The loop of `_india_next_open` and `_fx_next_open` over the days from `d` on. None stands for its two
-- exceptions: the OverflowError of a day that is no date, and the RuntimeError after the last pass.
abbrev pub scan_days : (ℕ → Bool) → ℕ → ℕ → ℕ → ℕ → Option ℕ
scan_days day_ok opens now zero d = none
scan_days day_ok opens now (suc n) d =
    let later = scan_days day_ok opens now n (suc d) in
    if not (leb d last_day)
    then none
    else if not (day_ok d)
    then later
    else if ltb now (combine d opens)
    then some (combine d opens)
    else later

abbrev pub utc_of : Option ℕ → Option ℕ
utc_of none = none
utc_of (some t) = some (to_utc t)

-- none is an exception of the scan
unfoldable pub india_next_open : MarketClock → ℕ → Option ℕ
india_next_open c now =
    let ist = to_ist now in utc_of (scan_days (india_day_ok c) c.india_open ist 370 (date_of ist))

unfoldable pub india_next_close : MarketClock → ℕ → Option ℕ
unfolding india_open_at
india_next_close c now =
    if not (india_open_at c now)
    then none
    else some (to_utc (combine (date_of (to_ist now)) c.india_close))

unfoldable pub fx_open_at : MarketClock → ℕ → Bool
fx_open_at c now =
    let dow = weekday (date_of now) in
    let t = time_of now in
    if ltb dow c.fx_week_open_dow || ltb c.fx_week_close_dow dow
    then false
    else if nat_eq dow c.fx_week_open_dow && ltb t c.fx_week_open
    then false
    else if nat_eq dow c.fx_week_close_dow && leb c.fx_week_close t
    then false
    else true

unfoldable pub fx_next_open : MarketClock → ℕ → Option ℕ
fx_next_open c now =
    scan_days (λ d. nat_eq (weekday d) c.fx_week_open_dow) c.fx_week_open now 8 (date_of now)

-- Of a leg that the clock does not know it says what it says of crypto.
unfoldable pub is_open : MarketClock → Leg → ℕ → Bool
unfolding india_open_at fx_open_at
is_open c india now = india_open_at c now
is_open c mt5_forex now = fx_open_at c now
is_open c mt5_crypto now = true
