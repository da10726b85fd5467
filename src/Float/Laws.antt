-- ===== src/Float/Laws.antt =====
-- What the program relies on of `float`: documented behaviour of IEEE 754 arithmetic.
use trading_os.Common.{ℕ, ◌≤◌, pos, ◌≡◌, true, false, arith}
use trading_os.Float.{
  Float, ◌+F◌, ◌-F◌, ◌*F◌, ◌/F◌, ◌<F◌, ◌<=F◌, ◌≤F◌, IsReal, IsFinite, Less, nought, fmin, fmax,
}

pub record Ieee (F : Type 0) ⦃fl : Float F⦄ : Type 0 where
  pub finite-IsReal : (a : F) → IsFinite a → IsReal a
  pub IsFinite_between : (a b c : F) → IsFinite a → IsFinite c → a ≤F b → b ≤F c → IsFinite b
  -- the program's literals are far from overflow
  pub lit-finite : (m k : ℕ) → m ≤ 1000000 → IsFinite (fl.lit m k)
  pub key-zero : fl.key (fl.lit 0 0) ≡ pos 0
  pub add-IsReal : (a b : F) → IsFinite a → IsFinite b → IsReal (a +F b)
  -- rounding is monotone, and `a` itself is a float
  pub add-ge : (a b : F) → IsFinite a → IsFinite b → nought ≤F b → a ≤F (a +F b)
  pub sub_between :
      (a b : F)
      → IsFinite a
      → IsFinite b
      → nought ≤F b
      → b ≤F a
      → (nought ≤F (a -F b)) × ((a -F b) ≤F a)
  pub nan-sub_right : (a b : F) → fl.is_nan b ≡ true → fl.is_nan (a -F b) ≡ true
  -- a NaN divided by anything is a NaN, which is not finite
  pub div-IsReal : (a b : F) → IsFinite (a /F b) → IsReal a
  pub sub-nonpos : (a b : F) → IsFinite a → IsFinite b → a ≤F b → (a -F b) ≤F nought
  pub mul-nonpos : (a b : F) → IsFinite b → a ≤F nought → Less nought b → (a *F b) ≤F nought

module _ {F : Type 0} ⦃fl : Float F⦄ where
  pub lt→Less : (a b : F) → (a <F b) ≡ true → Less a b
  unfolding ◌<F◌
  lt→Less a b h = ground arith

  pub le→≤ : (a b : F) → (a <=F b) ≡ true → a ≤F b
  unfolding ◌<=F◌
  le→≤ a b h = ground arith

  pub not-lt→≤ : (a b : F) → IsReal a → IsReal b → (a <F b) ≡ false → b ≤F a
  unfolding ◌<F◌
  not-lt→≤ a b ra rb h = ground arith

  pub not-le→Less : (a b : F) → IsReal a → IsReal b → (a <=F b) ≡ false → Less b a
  unfolding ◌<=F◌
  not-le→Less a b ra rb h = ground arith

  pub fmax-ge_left : (a b : F) → IsReal a → a ≤F fmax a b
  unfolding fmax ◌<F◌
  fmax-ge_left a b ra = ground arith

  pub fmin-le_left : (a b : F) → IsReal a → fmin a b ≤F a
  unfolding fmin ◌<F◌
  fmin-le_left a b ra = ground arith

  pub fmin-le_right : (a b : F) → IsReal a → IsReal b → fmin a b ≤F b
  unfolding fmin ◌<F◌
  fmin-le_right a b ra rb = ground arith

  pub ≤F-refl : (a : F) → IsReal a → a ≤F a
  ≤F-refl a h = (h, h, omega arith)

  pub ≤F-trans : (a b c : F) → a ≤F b → b ≤F c → a ≤F c
  ≤F-trans a b c p q = (p.0, q.1, omega arith)

  pub Less→≤F : (a b : F) → Less a b → a ≤F b
  Less→≤F a b p = (p.0, p.1, omega arith)

pub zero-IsReal : (F : Type 0) ⦃fl : Float F⦄ ⦃ieee : Ieee F⦄ → IsReal {F = F} nought
zero-IsReal F ⦃fl⦄ ⦃ieee⦄ = ieee.finite-IsReal nought (ieee.lit-finite 0 0 (omega arith))
