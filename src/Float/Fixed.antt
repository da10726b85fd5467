-- ===== src/Float/Fixed.antt =====
-- Decimal numbers of nine places, with `none` for NaN: a type on which the interface computes, and
-- which meets its laws.
use trading_os.Common.{
  ◌≡◌, ℕ, zero, suc, ◌+◌, ◌-◌, ◌*◌, ◌/◌, ℤ, pos, negsuc, pos_part, neg_part, sub_ℕ, refl, Bool,
  true, false, Option, none, some, arith, nat_eq, leb, if◌then◌else◌,
}
use Prim.Native.Nat.{◌^◌, ◌%◌}
use trading_os.Float.{Float, ◌≤F◌, ◌+F◌, ◌-F◌, ◌*F◌, ◌/F◌, Less, nought, IsFinite, IsReal}
use trading_os.Float.Laws.{Ieee}

abbrev pub Fixed : Type 0
Fixed = Option ℤ

-- with the names of both arguments, since a NaN makes a NaN
abbrev on_both : (ℤ → ℤ → Option ℤ) → Fixed → Fixed → Fixed
on_both f (some a) (some b) = f a b
on_both f _ _ = none

abbrev on_one : (ℤ → ℤ) → Fixed → Fixed
on_one f none = none
on_one f (some a) = some (f a)

abbrev unit : ℕ
unit = 10 ^ 9

abbrev of_parts : ℕ → ℕ → ℤ
of_parts = sub_ℕ

-- A product or a quotient rounds towards 0.
abbrev times : ℤ → ℤ → Option ℤ
times (pos a) (pos b) = some (pos (a * b / unit))
times (pos a) (negsuc b) = some (sub_ℕ 0 (a * suc b / unit))
times (negsuc a) (pos b) = some (sub_ℕ 0 (suc a * b / unit))
times (negsuc a) (negsuc b) = some (pos (suc a * suc b / unit))

abbrev over : ℤ → ℤ → Option ℤ
over a (pos b) =
    if nat_eq b 0 then none else some (sub_ℕ (pos_part a * unit / b) (neg_part a * unit / b))
over a (negsuc b) = some (sub_ℕ (neg_part a * unit / suc b) (pos_part a * unit / suc b))

abbrev floor_ℤ : ℤ → ℤ
floor_ℤ (pos n) = pos (n / unit * unit)
floor_ℤ (negsuc n) = sub_ℕ 0 ((suc n + unit - 1) / unit * unit)

-- half away from 0
abbrev round_ℤ : ℕ → ℤ → ℤ
round_ℤ k (pos n) = let step = unit / 10 ^ k in pos ((n + step / 2) / step * step)
round_ℤ k (negsuc n) = let step = unit / 10 ^ k in sub_ℕ 0 ((suc n + step / 2) / step * step)

abbrev abs_ℤ : ℤ → ℤ
abs_ℤ a = pos (pos_part a + neg_part a)

abbrev neg_ℤ : ℤ → ℤ
neg_ℤ a = sub_ℕ (neg_part a) (pos_part a)

abbrev is_none : Fixed → Bool
is_none none = true
is_none (some _) = false

abbrev is_some : Fixed → Bool
is_some none = false
is_some (some _) = true

abbrev number : Fixed → ℤ
number none = pos 0
number (some a) = a

-- a whole number, and a decimal fraction in units of 1e-9
abbrev pub whole : ℕ → Fixed
whole n = some (pos (n * unit))

abbrev pub nano : ℕ → Fixed
nano n = some (pos n)

abbrev pub nan : Fixed
nan = none

-- The root of n from below, bit by bit.
abbrev root_from : ℕ → ℕ → ℕ → ℕ
root_from zero lo n = lo
root_from (suc k) lo n =
    let t = lo + 2 ^ k in let next = if leb (t * t) n then t else lo in root_from k next n

abbrev sqrt_ℤ : ℤ → ℤ
sqrt_ℤ (pos n) = pos (root_from 40 0 (n * unit))
sqrt_ℤ (negsuc n) = pos 0

abbrev remainder : ℤ → ℤ → Option ℤ
remainder (pos a) (pos b) = if nat_eq b 0 then none else some (pos (a % b))
remainder (negsuc a) (pos b) = if nat_eq b 0 then none else some (pos ((b - suc a % b) % b))
remainder a (negsuc b) = none

instance abbrev pub fixed_float : Float Fixed
fixed_float = record {
  is_nan = is_none;
  is_finite = is_some;
  key = number;
  lit = λ m k. some (pos (m * unit / 10 ^ k));
  add = on_both (λ a b. some (sub_ℕ (pos_part a + pos_part b) (neg_part a + neg_part b)));
  sub = on_both (λ a b. some (sub_ℕ (pos_part a + neg_part b) (neg_part a + pos_part b)));
  mul = on_both times;
  div = on_both over;
  neg = on_one neg_ℤ;
  abs = on_one abs_ℤ;
  floor = on_one floor_ℤ;
  round_to = λ n a. on_one (round_ℤ n) a;
  sqrt = on_one sqrt_ℤ;
  modulo = on_both remainder;
  inf = some (pos (10 ^ 400));
}

Fixed-IsFinite_between : (a b c : Fixed) → IsFinite a → IsFinite c → a ≤F b → b ≤F c → IsFinite b
Fixed-IsFinite_between a none c fa fc h k = cc (h.1)
Fixed-IsFinite_between a (some b) c fa fc h k = refl

Fixed-add-IsReal : (a b : Fixed) → IsFinite a → IsFinite b → IsReal (a +F b)
Fixed-add-IsReal (some a) (some b) fa fb = refl
Fixed-add-IsReal _ _ fa fb = cc

Fixed-add-ge : (a b : Fixed) → IsFinite a → IsFinite b → nought ≤F b → a ≤F (a +F b)
Fixed-add-ge (some a) (some b) fa fb h = (refl, refl, ground (arith, h.2))
Fixed-add-ge _ _ fa fb h = cc

Fixed-sub_between :
    (a b : Fixed)
    → IsFinite a
    → IsFinite b
    → nought ≤F b
    → b ≤F a
    → (nought ≤F (a -F b)) × ((a -F b) ≤F a)
Fixed-sub_between (some a) (some b) fa fb h k =
    ((refl, refl, ground (arith, h.2)), (refl, refl, ground (arith, h.2)))
Fixed-sub_between _ _ fa fb h k = cc

Fixed-nan-sub_right :
    (a b : Fixed) → fixed_float.is_nan b ≡ true → fixed_float.is_nan (a -F b) ≡ true
Fixed-nan-sub_right none none h = refl
Fixed-nan-sub_right (some a) none h = refl
Fixed-nan-sub_right _ (some b) h = cc

Fixed-div-IsReal : (a b : Fixed) → IsFinite (a /F b) → IsReal a
Fixed-div-IsReal none b h = cc
Fixed-div-IsReal (some a) b h = refl

Fixed-sub-nonpos : (a b : Fixed) → IsFinite a → IsFinite b → a ≤F b → (a -F b) ≤F nought
Fixed-sub-nonpos (some a) (some b) fa fb h = (refl, refl, ground (arith, h.2))
Fixed-sub-nonpos _ _ fa fb h = cc

Fixed-mul-nonpos : (a b : Fixed) → IsFinite b → a ≤F nought → Less nought b → (a *F b) ≤F nought
Fixed-mul-nonpos none b fb h p = cc (h.0)
Fixed-mul-nonpos (some a) none fb h p = cc
Fixed-mul-nonpos (some (pos zero)) (some (pos b)) fb h p = (refl, refl, omega arith)
Fixed-mul-nonpos (some (pos (suc a))) (some (pos b)) fb h p = absurd (omega (arith, h.2))
Fixed-mul-nonpos (some (pos a)) (some (negsuc b)) fb h p = absurd (omega (arith, p.2))
Fixed-mul-nonpos (some (negsuc a)) (some (pos b)) fb h p = (refl, refl, ground arith)
Fixed-mul-nonpos (some (negsuc a)) (some (negsuc b)) fb h p = absurd (omega (arith, p.2))

instance pub Fixed-Ieee : Ieee Fixed
Fixed-Ieee = record {
  finite-IsReal = λ a h. ground arith;
  IsFinite_between = Fixed-IsFinite_between;
  lit-finite = λ m k h. refl;
  key-zero = refl;
  add-IsReal = Fixed-add-IsReal;
  add-ge = Fixed-add-ge;
  sub_between = Fixed-sub_between;
  sub-nonpos = Fixed-sub-nonpos;
  div-IsReal = Fixed-div-IsReal;
  mul-nonpos = Fixed-mul-nonpos;
  nan-sub_right = Fixed-nan-sub_right;
}
