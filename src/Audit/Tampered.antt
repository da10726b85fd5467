-- ===== src/Audit/Tampered.antt =====
-- src/risk/pre_trade_gate.py: what a verified chain proves of its rows, and what it does not.
use Prim.Native.String.{count, ◌++◌ as concat}
use text.Mathlib.TextLemmas.{append_inj}
use text.Mathlib.Text.{◌==◌ as str_eq}
use text.Mathlib.TextEquality.{eq_iff}
use trading_os.Common.{
  ◌≡◌, ◌≢◌, refl, sym, ◌∙◌, arith, String, true, false, [], ◌∷◌, ◌++◌, map, length, ◌⊎◌, inl, inr,
  Bool-cases,
}
use trading_os.Common.Dict.{Dict}
use trading_os.Audit.Chain.{
  digest, Json, AuditLog, payload, last_hash, verify_from, verify_chain, IsSha256,
}
use trading_os.Audit.Intact.{final, last_hash-verified}

module _ {J : Type 0} ⦃js : Json J⦄ where
  open js use {genesis}

  -- Two starts with the same end: they were the same, and so are the payloads.
  abbrev SameFrom : String → String → AuditLog J → AuditLog J → Type 0
  SameFrom p q xs ys = (p ≡ q) × (map payload xs ≡ map payload ys)

  -- Two starts and two logs, row against row: at some row the digests are one, and the texts that
  -- were hashed are not.
  abbrev pub Clash : String → String → AuditLog J → AuditLog J → Type 0
  Clash p q (x ∷ xs) (y ∷ ys) =
      ((concat p (payload x) ≢ concat q (payload y))
        × (digest js p (payload x) ≡ digest js q (payload y)))
      ⊎ Clash (digest js p (payload x)) (digest js q (payload y)) xs ys
  Clash p q _ _ = ⊥

  step_back :
      (p q : String) (x y : Dict J) (xs ys : AuditLog J)
      → count p ≡ count q
      → SameFrom (digest js p (payload x)) (digest js q (payload y)) xs ys
      → SameFrom p q (x ∷ xs) (y ∷ ys) ⊎ Clash p q (x ∷ xs) (y ∷ ys)
  step_back p q x y xs ys n h =
      elim (Bool-cases (str_eq (concat p (payload x)) (concat q (payload y)))) [
        | inl e ↦ let cut = append_inj (same e) n in inl (cut.0, cc (h.1, cut.1))
        | inr e ↦ inr (inl (differ e, h.0))
      ]
    where
      same :
          str_eq (concat p (payload x)) (concat q (payload y)) ≡ true
          → concat p (payload x) ≡ concat q (payload y)
      same e = grind (arith, e, eq_iff (concat p (payload x)) (concat q (payload y)))

      differ :
          str_eq (concat p (payload x)) (concat q (payload y)) ≡ false
          → concat p (payload x) ≢ concat q (payload y)
      differ e h = grind (arith, e, h, eq_iff (concat p (payload x)) (concat q (payload y)))

  verify_prefix :
      (prev : String) (xs ys : AuditLog J)
      → verify_from prev (xs ++ ys) ≡ true
      → verify_from prev xs ≡ true
  verify_prefix prev [] ys h = refl
  verify_prefix prev (x ∷ xs) ys h =
      ground (arith, h, verify_prefix (digest js prev (payload x)) xs ys)

  finals :
      (xs ys : AuditLog J)
      → verify_chain xs ≡ true
      → verify_chain ys ≡ true
      → last_hash xs ≡ last_hash ys
      → final genesis xs ≡ final genesis ys
  finals xs ys h k e = ground (arith, sym (last_hash-verified xs h) ∙ e ∙ last_hash-verified ys k)

module _ {J : Type 0} ⦃js : Json J⦄ ⦃lawful : IsSha256 J⦄ where
  open js use {genesis}

  same_rows :
      (p q : String) (xs ys : AuditLog J)
      → count p ≡ count q
      → length xs ≡ length ys
      → final p xs ≡ final q ys
      → SameFrom p q xs ys ⊎ Clash p q xs ys
  same_rows p q [] [] c n h = inl (h, refl)
  same_rows p q [] (y ∷ ys) c n h = ground (arith, n)
  same_rows p q (x ∷ xs) [] c n h = ground (arith, n)
  same_rows p q (x ∷ xs) (y ∷ ys) c n h =
      let sizes = lawful.count-sha256 _ ∙ sym (lawful.count-sha256 _) in
      elim (same_rows (digest js p (payload x)) (digest js q (payload y)) xs ys sizes
        (omega (arith, n)) h) [ inl s ↦ step_back p q x y xs ys c s | inr k ↦ inr (inr k) ]

  -- Two audit logs that both verify, have as many rows, and end in the same hash have the same payload
  -- in every row (its dump without the hash), or else there is a row at which the texts that the two
  -- logs hash differ and their digests do not: a collision of SHA-256. Every digest is as long as
  -- GENESIS.
  pub same_end-same_rows :
      (xs ys : AuditLog J)
      → verify_chain xs ≡ true
      → verify_chain ys ≡ true
      → length xs ≡ length ys
      → last_hash xs ≡ last_hash ys
      → (map payload xs ≡ map payload ys) ⊎ Clash genesis genesis xs ys
  same_end-same_rows xs ys h k n e = elim (same_rows _ _ xs ys refl n (finals xs ys h k e)) [
    | inl s ↦ inl s.1
    | inr c ↦ inr c
  ]

-- A log whose chain verifies still verifies when any number of its last rows is cut off.
pub cut_log-verifies :
    {J : Type 0} ⦃js : Json J⦄ (xs ys : AuditLog J)
    → verify_chain (xs ++ ys) ≡ true
    → verify_chain xs ≡ true
unfolding verify_chain
cut_log-verifies xs ys h = verify_prefix _ xs ys h
