-- ===== src/Clock/Tests.antt =====
-- A Saturday, and the theorems at it.
use trading_os.Common.{◌≡◌, refl, ℕ, ◌+◌, ◌<◌, true, false, some, none, [], ◌∷◌, arith}
use trading_os.Clock.Sessions.{
  MarketClock, india_day_ok, india_open_at, india_next_open, india_next_close, fx_next_open,
}
use trading_os.Clock.NextOpen.{next_open_is_first, india_next_open-returns, fx_next_open-returns}

abbrev hour : ℕ
hour = 3600000000

-- NSE from 09:15 to 15:30, and the week of currencies from Monday 00:00 to Friday 21:00
abbrev clock : MarketClock
clock = record {
  india_open = 33300000000;
  india_close = 55800000000;
  india_weekdays = 0 ∷ 1 ∷ 2 ∷ 3 ∷ 4 ∷ [];
  india_holidays = [];
  fx_week_open_dow = 0;
  fx_week_open = 0;
  fx_week_close_dow = 4;
  fx_week_close = 75600000000;
}

-- 2026-08-08 12:00 UTC
abbrev saturday : ℕ
saturday = 63921873600000000

-- 2026-08-10 09:15 in India
abbrev monday : ℕ
monday = 63922016700000000

opens_on_monday : india_next_open clock saturday ≡ some monday
unfolding india_next_open india_day_ok
opens_on_monday = refl

closed_on_saturday : india_open_at clock saturday ≡ false
unfolding india_open_at india_day_ok
closed_on_saturday = refl

closes_on_monday : india_next_close clock monday ≡ some (monday + 22500000000)
unfolding india_next_close india_open_at india_day_ok
closes_on_monday = refl

next_open_is_first_example :
    (saturday < monday)
    × (india_open_at clock monday ≡ true)
    × (india_open_at clock (saturday + hour) ≡ false)
next_open_is_first_example =
    next_open_is_first clock saturday monday (saturday + hour) (omega arith) (omega arith)
      closed_on_saturday opens_on_monday (omega arith) (omega arith)

monday_is_traded : india_day_ok clock 739838 ≡ true
unfolding india_day_ok
monday_is_traded = refl

india_next_open-returns_example : (t : ℕ) × (india_next_open clock saturday ≡ some t)
india_next_open-returns_example =
    india_next_open-returns clock saturday 739838 (omega arith) (omega arith) (omega arith)
      monday_is_traded

fx_next_open-returns_example : (t : ℕ) × (fx_next_open clock saturday ≡ some t)
fx_next_open-returns_example = fx_next_open-returns clock saturday (omega arith) (omega arith)

-- 9999-12-28 12:00 UTC: the next Sunday is no date, and the scan raises at the first day after 9999.
last_tuesday_raises : fx_next_open (record clock { fx_week_open_dow = 6 }) 315537681600000000 ≡ none
unfolding fx_next_open
last_tuesday_raises = refl
