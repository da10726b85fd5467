-- ===== src/Sizing/MarginClosed.antt =====
-- src/core/margin_checker.py: both checks fail closed.
use trading_os.Common.{
  ℕ, ltb, ◌≡◌, ◌≤◌, ◌⊎◌, inl, inr, Bool-cases, refl, ap, ◌∙◌, Bool, true, false, ◌||◌, Option, none,
  some, arith, if◌then◌else◌,
}
use mathlib.Core.Path.{Path}
use Prim.Native.Nat.{◌%◌}
use trading_os.Common.Effects.{Result, ok}
use trading_os.Float.{Float, ◌+F◌, ◌-F◌, ◌*F◌, ◌/F◌, ◌<=F◌, nought, one}
use trading_os.Sizing.Margin.{
  weigh_india, ask_india, lots_match, by_lots, weigh_mt5, ask_mt5, refuse, check_india, check_mt5,
  MarginDecision, IndiaApi, Mt5Api, invalid_lots, invalid_qty_or_price,
}

-- The lot is at most 1, or the number that int() gives is a multiple of it.
abbrev pub LotsFit : Option ℕ → ℕ → Type 0
LotsFit counted lot_size = (lot_size ≤ 1) ⊎ ((n : ℕ) × ((counted ≡ some n) × (n % lot_size ≡ 0)))

lots_match-LotsFit :
    (counted : Option ℕ) (lot_size : ℕ)
    → (if ltb 1 lot_size then lots_match counted lot_size else some true) ≡ some true
    → LotsFit counted lot_size
lots_match-LotsFit none lot_size h = inl (ground (arith, h))
lots_match-LotsFit (some n) lot_size h = elim (Bool-cases (ltb 1 lot_size)) [
  | inl above ↦ inr (n, (refl, ground (arith, h, above)))
  | inr below ↦ inl (ground (arith, below))
]

module _ {F : Type 0} ⦃fl : Float F⦄ where
  abbrev pub EnoughFree : F → Option (Mt5Api F) → Type 0
  EnoughFree floor api =
      (a : Mt5Api F) × (free equity required : F) × (api ≡ some a)
      × (a.free_margin ≡ some free)
      × (a.equity ≡ some equity)
      × (a.margin_required ≡ some required)
      × ((equity <=F nought) ≡ false)
      × ((floor <=F ((free -F required) /F equity)) ≡ true)

  weigh_mt5-passed :
      (floor : F) (free equity required : Option F)
      → (weigh_mt5 floor free equity required).passed ≡ true
      → (f e r : F) × (free ≡ some f)
        × (equity ≡ some e)
        × (required ≡ some r)
        × ((e <=F nought) ≡ false)
        × ((floor <=F ((f -F r) /F e)) ≡ true)
  weigh_mt5-passed floor (some f) (some e) (some r) h =
      (f, e, r, refl, refl, refl, ground arith, ground arith)
  weigh_mt5-passed floor _ _ _ h = cc

  ask_mt5-passed :
      (floor : F) (api : Option (Mt5Api F))
      → (ask_mt5 floor api).passed ≡ true
      → EnoughFree floor api
  ask_mt5-passed floor none h = cc
  ask_mt5-passed floor (some a) h =
      let (f, e, r, p, q, s, u, v) =
        weigh_mt5-passed floor a.free_margin a.equity a.margin_required h in
      (a, f, e, r, refl, p, q, s, u, v)

  lots-passed :
      (bad : Bool) (d : MarginDecision F)
      → (if bad then refuse invalid_lots else d).passed ≡ true
      → (bad ≡ false) × (d.passed ≡ true)
  lots-passed true d h = cc
  lots-passed false d h = (refl, h)

  -- The check for MT5 fails closed: it passes only if the lots are not 0 or below, there is an API, all
  -- three of its answers came, the equity is not 0 or below, and the margin left free after the trade
  -- is at least the configured part of the equity.
  pub check_mt5_closed :
      (floor : F) (api : Option (Mt5Api F)) (lots : F)
      → (check_mt5 floor api lots).passed ≡ true
      → ((lots <=F nought) ≡ false) × EnoughFree floor api
  unfolding check_mt5
  check_mt5_closed floor api lots h =
      let (some_lots, asked) = lots-passed (lots <=F nought) (ask_mt5 floor api) h in
      (some_lots, ask_mt5-passed floor api asked)

  abbrev pub EnoughMargin : F → Option (IndiaApi F) → Type 0
  EnoughMargin buffer api =
      (a : IndiaApi F) × (available required : F) × (api ≡ some a)
      × (a.available_margin ≡ some available)
      × (a.required_margin ≡ some required)
      × (((required *F (one +F buffer)) <=F available) ≡ true)

  ask_india-passed :
      (buffer : F) (api : Option (IndiaApi F))
      → (ask_india buffer api).passed ≡ true
      → EnoughMargin buffer api
  ask_india-passed buffer none h = cc
  ask_india-passed buffer (some a) h =
      let (x, r, p, q, u) = go a.available_margin a.required_margin h in (a, x, r, refl, p, q, u)
    where
      go :
          (available required : Option F)
          → (weigh_india buffer available required).passed ≡ true
          → (x r : F) × (available ≡ some x)
            × (required ≡ some r)
            × (((r *F (one +F buffer)) <=F x) ≡ true)
      go (some x) (some r) h = (x, r, refl, refl, h)
      go (some x) none h = cc
      go none required h = cc

  answer-injective :
      (d e : MarginDecision F) → Path (Result (Unit {0}) (MarginDecision F)) (ok d) (ok e) → d ≡ e
  answer-injective d e h = cc

  by_lots-passed :
      (buffer : F) (api : Option (IndiaApi F)) (matching : Option Bool) (d : MarginDecision F)
      → by_lots buffer api matching ≡ ok d
      → d.passed ≡ true
      → (matching ≡ some true) × EnoughMargin buffer api
  by_lots-passed buffer api none d h p = cc
  by_lots-passed buffer api (some false) d h p = ground arith
  by_lots-passed buffer api (some true) d h p = (
    refl,
    ask_india-passed buffer api
        (ap (λ x. x.passed) (answer-injective (ask_india buffer api) d h) ∙ p),
  )

  -- what is asked about the lots of a quantity
  abbrev lot_test : (F → Option ℕ) → F → ℕ → Option Bool
  lot_test int_of qty lot_size =
      if ltb 1 lot_size then lots_match (int_of qty) lot_size else some true

  guarded-passed :
      (bad : Bool) (s : Result (Unit {0}) (MarginDecision F)) (d : MarginDecision F)
      → Path
          (Result (Unit {0}) (MarginDecision F))
          (if bad then ok (refuse invalid_qty_or_price) else s)
          (ok d)
      → d.passed ≡ true
      → (bad ≡ false) × (s ≡ ok d)
  guarded-passed true s d h p = ground arith
  guarded-passed false s d h p = (refl, h)

  -- The check for India fails closed: it passes only if neither quantity nor price is 0 or below,
  -- int() of the quantity is a multiple of the lot where the lot is above 1, there is an API, both of
  -- its answers came, and the available margin covers the required one with the buffer on top.
  pub check_india_closed :
      (int_of : F → Option ℕ) (buffer : F) (api : Option (IndiaApi F)) (qty price : F)
      (lot_size : ℕ) (d : MarginDecision F)
      → check_india int_of buffer api qty price lot_size ≡ ok d
      → d.passed ≡ true
      → (((qty <=F nought) || (price <=F nought)) ≡ false)
        × LotsFit (int_of qty) lot_size
        × EnoughMargin buffer api
  unfolding check_india
  check_india_closed int_of buffer api qty price lot_size d h p =
      let lots = lot_test int_of qty lot_size in
      let (fine, asked) =
        guarded-passed ((qty <=F nought) || (price <=F nought)) (by_lots buffer api lots) d h p in
      let (matching, enough) = by_lots-passed buffer api lots d asked p in
      (fine, lots_match-LotsFit (int_of qty) lot_size matching, enough)
