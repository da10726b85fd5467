-- ===== src/Audit/Intact.antt =====
-- src/risk/pre_trade_gate.py: every appended row keeps the chain, and two chains that end in the same
-- hash tell the same, unless the hash function has a collision.
use text.Mathlib.Text.{◌==◌ as str_eq}
use text.Mathlib.TextEquality.{eq_iff}
use trading_os.Common.{
  ◌≡◌, refl, sym, ◌∙◌, ap, arith, ℕ, suc, String, true, false, ◌&&◌, Option, none, some, List, [],
  ◌∷◌, ◌++◌, length, ++-assoc, ++-nil,
}
use trading_os.Common.Dict.{Dict, insert, remove, lookup-insert}
use trading_os.Common.Effects.{Result, ok}
use trading_os.Audit.Chain.{
  digest, Json, IsJson, AuditError, AuditLog, payload, text_at, matches, last_hash, stamped, linked,
  sealed, append_after, append, verify_from, verify_chain,
}

remove-insert :
    {V : Type 0} (k : String) (v : V) (d : Dict V) → remove k (insert k v d) ≡ remove k d
remove-insert k v [] = ground (arith, eq_iff k k)
remove-insert k v ((j, w) ∷ d) = ground (arith, eq_iff k k, eq_iff j k, remove-insert k v d)

matches_refl : (s : String) → matches (some s) s ≡ true
matches_refl s = ground (arith, eq_iff s s)

matches→≡ : (o : Option String) (s : String) → matches o s ≡ true → o ≡ some s
matches→≡ none s h = ground arith
matches→≡ (some t) s h = ap some (grind (arith, h, eq_iff t s))

module _ {J : Type 0} ⦃js : Json J⦄ where
  open js use {text, as_text, dumps, genesis}

  -- the digest of the last row, going by the payloads alone
  abbrev pub final : String → AuditLog J → String
  final prev [] = prev
  final prev (r ∷ rs) = final (digest js prev (payload r)) rs

  last_hash-final :
      (prev : String) (r : Dict J) (rs : AuditLog J)
      → verify_from prev (r ∷ rs) ≡ true
      → last_hash (r ∷ rs) ≡ some (final prev (r ∷ rs))
  last_hash-final prev r [] h =
      matches→≡ (text_at "hash" r) (digest js prev (payload r)) (ground (arith, h))
  last_hash-final prev r (s ∷ rs) h =
      last_hash-final (digest js prev (payload r)) s rs (ground (arith, h))

  pub last_hash-verified :
      (log : AuditLog J) → verify_chain log ≡ true → last_hash log ≡ some (final genesis log)
  unfolding verify_chain
  last_hash-verified [] h = refl
  last_hash-verified (r ∷ rs) h = last_hash-final genesis r rs h

  pub verify_from-++ :
      (prev : String) (xs ys : AuditLog J)
      → verify_from prev (xs ++ ys) ≡ (verify_from prev xs && verify_from (final prev xs) ys)
  verify_from-++ prev [] ys = refl
  verify_from-++ prev (x ∷ xs) ys =
      ground (arith, verify_from-++ (digest js prev (payload x)) xs ys)

module _ {J : Type 0} ⦃js : Json J⦄ ⦃lawful : IsJson J⦄ where
  open js use {text, as_text, dumps, genesis}

  text_at-insert : (k : String) (s : String) (d : Dict J) → text_at k (insert k (text s) d) ≡ some s
  text_at-insert k s d =
      ground (arith, eq_iff k k, lookup-insert k k (text s) d, lawful.as_text-text s)

  text_at-other :
      (j k : String) (v : J) (d : Dict J)
      → str_eq k j ≡ false
      → text_at j (insert k v d) ≡ text_at j d
  text_at-other j k v d h = ground (arith, h, lookup-insert k j v d)

  sealed-verifies :
      (prev : String) (row : Dict J) → verify_from prev (sealed prev (linked prev row) ∷ []) ≡ true
  sealed-verifies prev row = ground (
    arith,
    remove-insert "hash" (text (digest js prev (payload (linked prev row)))) (linked prev row),
    text_at-insert "hash" (digest js prev (payload (linked prev row))) (linked prev row),
    text_at-other "prev_hash" "hash" (text (digest js prev (payload (linked prev row))))
        (linked prev row) refl,
    text_at-insert "prev_hash" prev row,
    matches_refl prev,
    matches_refl (digest js prev (payload (linked prev row))),
  )

  -- The log after an append, and what was added.
  abbrev Extends : AuditLog J → Result AuditError (Dict J) × AuditLog J → Type 0
  Extends log p =
      (verify_chain p.1 ≡ true) × ((body : Dict J) × ((p.0 ≡ ok body) × (p.1 ≡ log ++ (body ∷ []))))

  append_after-Extends :
      (now : J) (row : Dict J) (prev : Option String) (log : AuditLog J)
      → verify_chain log ≡ true
      → prev ≡ some (final genesis log)
      → Extends log (append_after now row prev log)
  unfolding verify_chain
  append_after-Extends now row none log h e = ground (arith, e)
  append_after-Extends now row (some prev) log h e =
      let body = sealed prev (linked prev (stamped now row)) in
      (
        verify_from-++ genesis log (body ∷ [])
            ∙ cc (h, at_end, sealed-verifies prev (stamped now row)),
        (body, (refl, refl)),
      )
    where
      at_end : final genesis log ≡ prev
      at_end = ground (arith, e)

  pub append-Extends :
      (now : J) (row : Dict J) (log : AuditLog J)
      → verify_chain log ≡ true
      → Extends log (append now row log)
  unfolding append
  append-Extends now row log h =
      append_after-Extends now row (last_hash log) log h (last_hash-verified log h)

module _ {J : Type 0} ⦃js : Json J⦄ where
  open js use {genesis}

  -- the row that an append to a verified log adds
  abbrev pub added : J → Dict J → AuditLog J → Dict J
  added now row log = sealed (final genesis log) (linked (final genesis log) (stamped now row))

  pub append_lem :
      (now : J) (row : Dict J) (log : AuditLog J)
      → verify_chain log ≡ true
      → append now row log ≡ (ok (added now row log), log ++ (added now row log ∷ []))
  unfolding append
  append_lem now row log h = ap (λ o. append_after now row o log) (last_hash-verified log h)

  -- the log after a list of rows, each with the time of its append
  unfoldable pub append_all : List (J × Dict J) → AuditLog J → AuditLog J
  append_all [] log = log
  append_all (r ∷ rows) log = append_all rows (append r.0 r.1 log).1

module _ {J : Type 0} ⦃js : Json J⦄ ⦃lawful : IsJson J⦄ where
  open js use {genesis}

  -- A later log: it verifies and has the rows of the first one and `n` more.
  abbrev pub Grown : ℕ → AuditLog J → AuditLog J → Type 0
  Grown n log later =
      (verify_chain later ≡ true)
      × ((bodies : AuditLog J) × ((later ≡ log ++ bodies) × (length bodies ≡ n)))

  Grown-more :
      (n : ℕ) (log later : AuditLog J) (p : Result AuditError (Dict J) × AuditLog J)
      → Extends log p
      → Grown n p.1 later
      → Grown (suc n) log later
  Grown-more n log later p h k =
      let body = h.1.0 in
      let bodies = k.1.0 in
      (
        k.0,
        (body ∷ bodies, (cc (k.1.1.0, h.1.1.1, ++-assoc log (body ∷ []) bodies), ap suc k.1.1.1)),
      )

-- From an audit log whose chain verifies, appending any rows one after the other never raises and
-- leaves a log whose chain verifies, which has the old rows unchanged at its head and one more row
-- for each append. A str that is put in a row is read back as itself.
pub append_all-Grown :
    {J : Type 0} ⦃js : Json J⦄ ⦃lawful : IsJson J⦄ (rows : List (J × Dict J)) (log : AuditLog J)
    → verify_chain log ≡ true
    → Grown (length rows) log (append_all rows log)
unfolding append_all
append_all-Grown [] log h = (h, ([], (sym (++-nil log), refl)))
append_all-Grown (r ∷ rows) log h =
    let e = append-Extends r.0 r.1 log h in
    Grown-more (length rows) log (append_all rows (append r.0 r.1 log).1) (append r.0 r.1 log) e
      (append_all-Grown rows (append r.0 r.1 log).1 e.0)
