-- ===== src/Common/Steps.antt =====
-- Relations that every call of a method respects, between the state before it and the state after
-- it, whether it returned or raised.
use native.Mathlib.Omega.{arith}
use mathlib.Core.Path.{◌≡◌, Path, refl, subst}
use mathlib.Core.Bool.{Bool, true, false}
use trading_os.Common.Effects.{Result, ok, err, Method, ◌>>=◌}
use trading_os.Common.Tests.{if◌then◌else◌}

pub record IsPreorder {S : Type 0} (R : S → S → Type 0) : Type 0 where
  pub reflexive : (s : S) → R s s
  pub transitive : (s t u : S) → R s t → R t u → R s u

-- One outcome from a state.
pub record Respects {S E A : Type 0} (R : S → S → Type 0) (s : S) (p : Result E A × S)
    : Type 0 where
  pub related : R s p.1

-- All calls of a method.
abbrev pub Within : {S E A : Type 0} → (S → S → Type 0) → Method S E A → Type 0
Within R m = (s : _) → Respects R s (m s)

module _ {S E : Type 0} {R : S → S → Type 0} (order : IsPreorder R) where
  pub still-Within : {A : Type 0} (r : S → Result E A) → Within R (λ s. (r s, s))
  still-Within r s = record { related = order.reflexive s }

  pub stay-Respects : {A : Type 0} (s : S) (r : Result E A) → Respects R s (r, s)
  stay-Respects s r = record { related = order.reflexive s }

  pub after-Respects :
      {A B : Type 0} (s : S) (p : Result E A × S) (f : A → Method S E B)
      → Respects R s p
      → ((a : A) → Within R (f a))
      → Respects R s (((λ _. p) >>= f) s)
  after-Respects s (ok a, t) f h k = record {
    related = order.transitive s t (f a t).1 h.related (k a t).related;
  }
  after-Respects s (err e, t) f h k = record { related = h.related }

  pub >>=-Within :
      {A B : Type 0} (m : Method S E A) (f : A → Method S E B)
      → Within R m
      → ((a : A) → Within R (f a))
      → Within R (m >>= f)
  >>=-Within m f h k s = after-Respects s (m s) f (h s) k

module _ {S E A : Type 0} {R : S → S → Type 0} where
  -- Both branches of a test.
  pub branch-Respects :
      (s : S) (c : Bool) {p q : Result E A × S}
      → Respects R s p
      → Respects R s q
      → Respects R s (if c then p else q)
  branch-Respects s true h k = h
  branch-Respects s false h k = k

  pub choose-Within :
      (c : Bool) {m k : Method S E A} → Within R m → Within R k → Within R (if c then m else k)
  choose-Within true h k = h
  choose-Within false h k = k

-- A step of one relation before a step of another.
module _ {S E : Type 0} {P Q R : S → S → Type 0} where
  pub mixed-Respects :
      {A B : Type 0} (s : S) (p : Result E A × S) (f : A → Method S E B)
      → ((t : S) → P s t → R s t)
      → ((t u : S) → P s t → Q t u → R s u)
      → Respects P s p
      → ((a : A) → Within Q (f a))
      → Respects R s (((λ _. p) >>= f) s)
  mixed-Respects s (ok a, t) f weaken join h k = record {
    related = join t (f a t).1 h.related (k a t).related;
  }
  mixed-Respects s (err e, t) f weaken join h k = record { related = weaken t h.related }

-- What the result of an outcome says of the state, if there is one.
pub record Yields {S E A : Type 0} (P : A → S → Type 0) (p : Result E A × S) : Type 0 where
  pub holds : (a : A) → p.0 ≡ ok a → P a p.1

pub ok-injective : {E A : Type 0} (a b : A) → Path (Result E A) (ok a) (ok b) → a ≡ b
ok-injective a b h = cc

module _ {S E : Type 0} where
  pub ok-Yields :
      {A : Type 0} {P : A → S → Type 0} (a : A) (s : S) → P a s → Yields {E = E} P (ok a, s)
  ok-Yields {A} {P} a s h = record { holds = λ b e. subst (λ b. P b s) (ok-injective a b e) h }

  pub err-Yields : {A : Type 0} {P : A → S → Type 0} (e : E) (s : S) → Yields {A = A} P (err e, s)
  err-Yields e s = record { holds = λ a h. ground arith }

  pub >>=-Yields :
      {A B : Type 0} {Q : A → S → Type 0} {P : B → S → Type 0} (s : S) (p : Result E A × S)
      (f : A → Method S E B)
      → Yields Q p
      → ((a : A) (t : S) → Q a t → Yields P (f a t))
      → Yields P (((λ _. p) >>= f) s)
  >>=-Yields s (ok a, t) f h k = k a t (h.holds a refl)
  >>=-Yields s (err e, t) f h k = err-Yields e t

  pub if-Yields :
      {A : Type 0} {P : A → S → Type 0} (c : Bool) {p q : Result E A × S}
      → Yields P p
      → Yields P q
      → Yields P (if c then p else q)
  if-Yields true h k = h
  if-Yields false h k = k
