-- ===== src/Clock/NextOpen.antt =====
-- src/ops/market_clock.py: the next opening is the first open moment, and the scan finds one.
use trading_os.Common.{
  ◌≡◌, refl, sym, ◌∙◌, ap, arith, ℕ, zero, suc, ◌+◌, ◌-◌, ◌≤◌, ◌<◌, ◌⊎◌, Bool, true, false, not,
  Option, none, some, nat_eq, ltb, leb, if◌then◌else◌, Bool-cases, inl, inr,
}
use Prim.Native.Nat.{◌%◌}
use trading_os.Clock.Sessions.{
  MarketClock, date_of, time_of, combine, weekday, to_ist, to_utc, india_day_ok, india_open_at,
  last_day, scan_days, utc_of, india_next_open, fx_next_open,
}

-- The scan has stopped at a day that is traded, and whose opening is ahead; the openings of the
-- traded days before it are behind.
record Found (day_ok : ℕ → Bool) (opens now d t : ℕ) : Type 0 where
  day : ℕ
  is_opening : t ≡ combine day opens
  after : d ≤ day
  traded : day_ok day ≡ true
  ahead : now < t
  first : (k : ℕ) → d ≤ k → k < day → day_ok k ≡ true → combine k opens ≤ now

module _ (day_ok : ℕ → Bool) (opens now : ℕ) where
  skip :
      (d t : ℕ)
      → (day_ok d ≡ true → combine d opens ≤ now)
      → Found day_ok opens now (suc d) t
      → Found day_ok opens now d t
  skip d t h f = record {
    day = f.day;
    is_opening = f.is_opening;
    after = omega (arith, f.after);
    traded = f.traded;
    ahead = f.ahead;
    first = λ k p q r. elim (Bool-cases (nat_eq k d)) [
      | inl e ↦ at_first k e r
      | inr e ↦ f.first k (later k p e) q r
    ];
  }
    where
      at_first : (k : ℕ) → nat_eq k d ≡ true → day_ok k ≡ true → combine k opens ≤ now
      at_first k e r = ground (arith, h)

      later : (k : ℕ) → d ≤ k → nat_eq k d ≡ false → suc d ≤ k
      later k p e = ground arith

  step :
      (date ok ahead : Bool) (d t : ℕ) (rest : Option ℕ)
      → day_ok d ≡ ok
      → ltb now (combine d opens) ≡ ahead
      → (rest ≡ some t → Found day_ok opens now (suc d) t)
      → (if not date
          then none
          else if not ok
          then rest
          else if ahead
          then some (combine d opens)
          else rest)
        ≡ some t
      → Found day_ok opens now d t
  step false ok ahead d t rest h a f e = cc e
  step true false ahead d t rest h a f e = skip d t (λ g. ground (arith, h, g)) (f e)
  step true true false d t rest h a f e = skip d t (λ g. ground (arith, a)) (f e)
  step true true true d t rest h a f e =
      let same : combine d opens ≡ t = injective e in
      record {
        day = d;
        is_opening = sym same;
        after = omega arith;
        traded = h;
        ahead = ground (arith, a, same);
        first = λ k p q r. omega (arith, p, q);
      }
    where
      injective : {a b : ℕ} → some a ≡ some b → a ≡ b
      injective e = cc e

  scan-Found : (n d t : ℕ) → scan_days day_ok opens now n d ≡ some t → Found day_ok opens now d t
  scan-Found zero d t e = ground (arith, e)
  scan-Found (suc n) d t e =
      step (leb d last_day) (day_ok d) (ltb now (combine d opens)) d t
        (scan_days day_ok opens now n (suc d)) refl refl (scan-Found n (suc d) t) e

  found_later :
      (date ok ahead : Bool) (x : ℕ) (rest : Option ℕ)
      → date ≡ true
      → (t : ℕ) × (rest ≡ some t)
      → (t : ℕ) × ((if not date
            then none
            else if not ok
            then rest
            else if ahead
            then some x
            else rest)
          ≡ some t)
  found_later false ok ahead x rest h r = cc h
  found_later true false ahead x rest h r = r
  found_later true true true x rest h r = (x, refl)
  found_later true true false x rest h r = r

  -- A scan that covers a traded day whose opening is ahead finds one.
  scan_finds :
      (n d e : ℕ)
      → d ≤ e
      → e < d + n
      → e ≤ last_day
      → day_ok e ≡ true
      → now < combine e opens
      → (t : ℕ) × (scan_days day_ok opens now n d ≡ some t)
  scan_finds zero d e h k l o a = (0, ground (arith, h, k))
  scan_finds (suc n) d e h k l o a = elim (Bool-cases (nat_eq d e)) [
    | inl q ↦ (combine d opens, here q)
    | inr q ↦
        found_later (leb d last_day) (day_ok d) (ltb now (combine d opens)) (combine d opens)
          (scan_days day_ok opens now n (suc d)) (ground (arith, h, l))
          (scan_finds n (suc d) e (past q) (omega (arith, k)) l o a)
  ]
    where
      same : nat_eq d e ≡ true → d ≡ e
      same q = ground arith

      past : nat_eq d e ≡ false → suc d ≤ e
      past q = ground (arith, h)

      here : nat_eq d e ≡ true → scan_days day_ok opens now (suc n) d ≡ some (combine d opens)
      here q = ground (arith, ap day_ok (same q) ∙ o, same q, a, l)

-- The day and the time make the moment.
moment : (t : ℕ) → t ≡ combine (date_of t) (time_of t)
moment t = omega arith

day_grows : (t u : ℕ) → t ≤ u → date_of t ≤ date_of u
day_grows t u h = omega (arith, h)

module _ (c : MarketClock) where
  -- An opening of the scan is an open moment.
  opening_is_open :
      (day : ℕ)
      → c.india_open < c.india_close
      → c.india_close ≤ 86400000000
      → 19800000000 ≤ combine day c.india_open
      → india_day_ok c day ≡ true
      → india_open_at c (to_utc (combine day c.india_open)) ≡ true
  unfolding india_open_at
  opening_is_open day lt le h ok =
      ground (arith, ap (india_day_ok c) day_of_it ∙ ok, time_of_it, lt)
    where
      back : to_ist (to_utc (combine day c.india_open)) ≡ combine day c.india_open
      back = omega (arith, h)

      day_of_it : date_of (to_ist (to_utc (combine day c.india_open))) ≡ day
      day_of_it = omega (arith, h, lt, le)

      time_of_it : time_of (to_ist (to_utc (combine day c.india_open))) ≡ c.india_open
      time_of_it = omega (arith, h, lt, le)

  off_hours :
      (u : ℕ)
      → (time_of (to_ist u) < c.india_open) ⊎ (c.india_close ≤ time_of (to_ist u))
      → india_open_at c u ≡ false
  unfolding india_open_at
  off_hours u (inl h) = ground (arith, h)
  off_hours u (inr h) = ground (arith, h)

  over_for_today :
      (now : ℕ)
      → india_open_at c now ≡ false
      → india_day_ok c (date_of (to_ist now)) ≡ true
      → c.india_open ≤ time_of (to_ist now)
      → c.india_close ≤ time_of (to_ist now)
  unfolding india_open_at
  over_for_today now shut ok h = ground (arith, shut, ok, h)

  day_off : (u : ℕ) → india_day_ok c (date_of (to_ist u)) ≡ false → india_open_at c u ≡ false
  unfolding india_open_at
  day_off u h = ground (arith, h)

  -- Between now, when the market is closed, and the opening found, it is closed.
  closed_between :
      (now u t : ℕ)
      → Found (india_day_ok c) c.india_open (to_ist now) (date_of (to_ist now)) t
      → india_open_at c now ≡ false
      → now ≤ u
      → to_ist u < t
      → india_open_at c u ≡ false
  closed_between now u t f shut le lt = elim (Bool-cases (india_day_ok c (date_of (to_ist u)))) [
    | inr off ↦ day_off u off
    | inl on ↦ elim (Bool-cases (ltb (date_of (to_ist u)) f.day)) [
      | inr late ↦ off_hours u (inl (too_early late))
      | inl soon ↦ off_hours u (inr (too_late soon on))
    ]
  ]
    where
      too_early : ltb (date_of (to_ist u)) f.day ≡ false → time_of (to_ist u) < c.india_open
      too_early late =
          let opening = f.is_opening in
          let day : f.day ≤ date_of (to_ist u) = ground (arith, late) in
          omega (arith, opening, lt, day)

      begun :
          ltb (date_of (to_ist u)) f.day ≡ true
          → india_day_ok c (date_of (to_ist u)) ≡ true
          → combine (date_of (to_ist u)) c.india_open ≤ to_ist now
      begun soon on = f.first (date_of (to_ist u)) (omega (arith, le)) (ground (arith, soon)) on

      too_late :
          ltb (date_of (to_ist u)) f.day ≡ true
          → india_day_ok c (date_of (to_ist u)) ≡ true
          → c.india_close ≤ time_of (to_ist u)
      too_late soon on =
          let b = begun soon on in
          let same : date_of (to_ist u) ≡ date_of (to_ist now) = omega (arith, b, le) in
          let over =
            over_for_today now shut (ap (india_day_ok c) (sym same) ∙ on)
              (omega (arith, b, same)) in
          omega (arith, over, same, le)

  opened_by : (r : Option ℕ) (t : ℕ) → utc_of r ≡ some t → (s : ℕ) × ((r ≡ some s) × (to_utc s ≡ t))
  opened_by none t e = (0, (ground (arith, e), ground (arith, e)))
  opened_by (some s) t e = (s, (refl, cc e))

-- When the market of India is closed now, and the session opens before it closes on the same day:
-- the time that `_india_next_open` gives is after now, the market is open at it, and at every moment
-- from now on and before it the market is closed.
pub next_open_is_first :
    (c : MarketClock) (now t u : ℕ)
    → c.india_open < c.india_close
    → c.india_close ≤ 86400000000
    → india_open_at c now ≡ false
    → india_next_open c now ≡ some t
    → now ≤ u
    → u < t
    → (now < t) × (india_open_at c t ≡ true) × (india_open_at c u ≡ false)
unfolding india_next_open
next_open_is_first c now t u lt le shut e before after =
    let r =
      opened_by c (scan_days (india_day_ok c) c.india_open (to_ist now) 370 (date_of (to_ist now)))
        t e in
    let s = r.0 in
    let f : Found (india_day_ok c) c.india_open (to_ist now) (date_of (to_ist now)) s =
      scan-Found (india_day_ok c) c.india_open (to_ist now) 370 (date_of (to_ist now)) s r.1.0 in
    let utc = r.1.1 in
    let opening = f.is_opening in
    let ahead = f.ahead in
    (
      omega (arith, ahead, utc),
      cc (utc, opening, opening_is_open c f.day lt le (omega (arith, opening, ahead)) f.traded),
      closed_between c now u s f shut before (omega (arith, utc, after)),
    )

-- Whenever the market of India is traded on some date of the 369 days after today, up to 9999-12-31,
-- `_india_next_open` returns a time.
pub india_next_open-returns :
    (c : MarketClock) (now day : ℕ)
    → date_of (to_ist now) < day
    → day < date_of (to_ist now) + 370
    → day ≤ last_day
    → india_day_ok c day ≡ true
    → (t : ℕ) × (india_next_open c now ≡ some t)
unfolding india_next_open
india_next_open-returns c now day h k l ok =
    let r =
      scan_finds (india_day_ok c) c.india_open (to_ist now) 370 (date_of (to_ist now)) day
        (omega (arith, h)) k l ok (omega (arith, h)) in
    (to_utc r.0, ap utc_of r.1)

-- A day of the week is among the next seven days.
next_weekday : (d dow : ℕ) → dow < 7 → (e : ℕ) × ((d < e) × (e < d + 8) × (weekday e ≡ dow))
next_weekday d dow h =
    (d + ((dow + 6 - weekday d) % 7 + 1), (omega arith, omega arith, omega (arith, h)))

-- If the week opens on one of the days 0 to 6, `_fx_next_open` does not raise at any moment at least
-- seven days before 9999-12-31: it finds an opening within its eight days.
pub fx_next_open-returns :
    (c : MarketClock) (now : ℕ)
    → c.fx_week_open_dow < 7
    → date_of now + 7 ≤ last_day
    → (t : ℕ) × (fx_next_open c now ≡ some t)
unfolding fx_next_open
fx_next_open-returns c now h l =
    let e = next_weekday (date_of now) c.fx_week_open_dow h in
    let later = e.1.0 in
    let within = e.1.1 in
    scan_finds (λ d. nat_eq (weekday d) c.fx_week_open_dow) c.fx_week_open now 8 (date_of now) e.0
      (omega (arith, later)) within (omega (arith, within, l))
      (is_eq (weekday e.0) c.fx_week_open_dow e.1.2) (omega (arith, later))
  where
    is_eq : (a b : ℕ) → a ≡ b → nat_eq a b ≡ true
    is_eq a b q = ground (arith, q)
