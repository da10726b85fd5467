-- ===== src/Common/Effects.antt =====
-- A Python method: state and exceptions. What a method wrote before it raised stays written, so the
-- state comes back in both cases.
use mathlib.Core.Bool.{Bool}
use mathlib.Core.Path.{◌≡◌, refl, ap}
use mathlib.Core.Logic.{◌⊎◌, inl, inr}
use trading_os.Common.Tests.{if◌then◌else◌}

pub data Result (E A : Type 0) : Type 0 where
  ok : A → Result E A
  err : E → Result E A

abbrev pub Method : Type 0 → Type 0 → Type 0 → Type 0
Method S E A = S → Result E A × S

module _ {S E A : Type 0} where
  abbrev pub pure : A → Method S E A
  pure a s = (ok a, s)

  abbrev pub raise : E → Method S E A
  raise e s = (err e, s)

  abbrev pub gets : (S → A) → Method S E A
  gets f s = (ok (f s), s)

module _ {S E : Type 0} where
  abbrev pub raise_if : Bool → E → Method S E (Unit {0})
  raise_if c e s = (if c then err e else ok tt, s)

  abbrev pub modify : (S → S) → Method S E (Unit {0})
  modify f s = (ok tt, f s)

module _ {S E A B : Type 0} where
  infixl 5 ◌>>=◌ ◌>>◌
  abbrev pub continue : Result E A × S → (A → Method S E B) → Result E B × S
  continue (ok a, s) f = f a s
  continue (err e, s) f = (err e, s)

  abbrev pub ◌>>=◌ : Method S E A → (A → Method S E B) → Method S E B
  ◌>>=◌ m f s = continue (m s) f

  abbrev pub ◌>>◌ : Method S E A → Method S E B → Method S E B
  ◌>>◌ m k = m >>= λ _. k

  -- A bind steps over a call whose outcome is known.
  pub bind_ok :
      (m : Method S E A) (f : A → Method S E B) {s s' : S} {a : A}
      → m s ≡ (ok a, s')
      → (m >>= f) s ≡ f a s'
  bind_ok m f e = ap (λ p. continue p f) e

pub Result-cases :
    {E A : Type 0} (r : Result E A) → ((a : A) × (r ≡ ok a)) ⊎ ((e : E) × (r ≡ err e))
Result-cases (ok a) = inl (a, refl)
Result-cases (err e) = inr (e, refl)
