-- ===== src/Float.antt =====
-- Python's `float`, as far as the program uses it: an interface, since no type of the language
-- computes with IEEE 754 doubles. `key` is the place of a number in the order of the doubles (both
-- zeros have key 0); a NaN has no place, and every comparison with one is false.
pub mod Laws
pub mod Fixed
use trading_os.Common.{
  ℕ, ℤ, pos, ltb_ℤ, eqb_ℤ, ◌≤ℤ◌, ◌<ℤ◌, ◌≡◌, Bool, true, false, not, ◌&&◌, ◌||◌, if◌then◌else◌,
}

pub record Float (F : Type 0) : Type 0 where
  pub is_nan : F → Bool
  pub is_finite : F → Bool  -- math.isfinite
  pub key : F → ℤ
  pub lit : ℕ → ℕ → F  -- `lit m k` is the literal m / 10 ** k
  pub add : F → F → F
  pub sub : F → F → F
  pub mul : F → F → F
  pub div : F → F → F  -- at a divisor other than 0
  pub neg : F → F
  pub abs : F → F
  pub floor : F → F  -- math.floor of a finite number, converted back to float
  pub round_to : ℕ → F → F  -- round(x, n)
  pub sqrt : F → F  -- math.sqrt of a number not below 0
  pub modulo : F → F → F  -- a % b, at a divisor above 0
  pub inf : F  -- float("inf")

module _ {F : Type 0} ⦃fl : Float F⦄ where
  infixl 65 ◌+F◌ ◌-F◌
  infixl 70 ◌*F◌ ◌/F◌
  infix 50 ◌<F◌ ◌<=F◌ ◌==F◌
  abbrev pub ◌+F◌ : F → F → F
  ◌+F◌ = fl.add

  abbrev pub ◌-F◌ : F → F → F
  ◌-F◌ = fl.sub

  abbrev pub ◌*F◌ : F → F → F
  ◌*F◌ = fl.mul

  abbrev pub ◌/F◌ : F → F → F
  ◌/F◌ = fl.div

  abbrev pub nought : F
  nought = fl.lit 0 0

  abbrev pub one : F
  one = fl.lit 1 0

  -- Python's `a < b`, `a <= b` and `a == b`
  unfoldable pub ◌<F◌ : F → F → Bool
  ◌<F◌ a b = not (fl.is_nan a) && (not (fl.is_nan b) && ltb_ℤ (fl.key a) (fl.key b))

  unfoldable pub ◌<=F◌ : F → F → Bool
  ◌<=F◌ a b = not (fl.is_nan a) && (not (fl.is_nan b) && not (ltb_ℤ (fl.key b) (fl.key a)))

  unfoldable pub ◌==F◌ : F → F → Bool
  ◌==F◌ a b = not (fl.is_nan a) && (not (fl.is_nan b) && eqb_ℤ (fl.key a) (fl.key b))

  -- Python's `max(a, b)` and `min(a, b)` keep the first argument unless the second one wins.
  unfoldable pub fmax : F → F → F
  fmax a b = if a <F b then b else a

  unfoldable pub fmin : F → F → F
  fmin a b = if b <F a then b else a

  -- The order as statements; both say that neither side is NaN.
  infix 50 ◌≤F◌
  abbrev pub IsReal : F → Type 0
  IsReal a = fl.is_nan a ≡ false

  abbrev pub IsFinite : F → Type 0
  IsFinite a = fl.is_finite a ≡ true

  abbrev pub ◌≤F◌ : F → F → Type 0
  a ≤F b = IsReal a × IsReal b × (fl.key a ≤ℤ fl.key b)

  abbrev pub Less : F → F → Type 0
  Less a b = IsReal a × IsReal b × (fl.key a <ℤ fl.key b)
