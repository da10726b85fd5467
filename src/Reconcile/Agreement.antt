-- ===== src/Reconcile/Agreement.antt =====
-- src/ops/eod_reconciler.py: a clean report means that both sides agree.
use mathlib.Core.Path.{subst}
use text.Mathlib.Text.{◌==◌ as str_eq}
use text.Mathlib.TextEquality.{eq_iff}
use trading_os.Common.{
  ◌≡◌, refl, sym, ◌∙◌, ap, arith, Bool, true, false, not, ◌&&◌, String, Option, none, some, List,
  [], ◌∷◌, ◌++◌, if◌then◌else◌,
}
use trading_os.Common.Dict.{Dict, lookup}
use trading_os.Float.{Float}
use trading_os.Reconcile.Report.{
  TradeRow, ReconciliationReport, empty, absent, clean, by_id, unknown_ids, qty_differs,
  price_differs, compare_rows, compare_all, reconcile,
}

flagged :
    {A : Type 0} (xs : List A) (x : A) (c : Bool)
    → empty (xs ++ (if c then x ∷ [] else [])) ≡ (empty xs && not c)
flagged [] x true = refl
flagged [] x false = refl
flagged (y ∷ xs) x c = refl

never : {A : Type 0} (xs : List A) (x : A) → empty (xs ++ (x ∷ [])) ≡ false
never [] x = refl
never (y ∷ xs) x = refl

module _ {F : Type 0} ⦃fl : Float F⦄ where
  -- What the two sides know of one order is the same, up to the tolerances.
  abbrev pub Agree : Option (TradeRow F) → Option (TradeRow F) → Type 0
  Agree none none = Unit
  Agree none (some b) = true ≡ false
  Agree (some row) none = true ≡ false
  Agree (some row) (some b) = (qty_differs row b ≡ false) × (price_differs row b ≡ false)

  -- no mismatch so far
  abbrev quiet : ReconciliationReport F → Bool
  quiet r = empty r.missing_at_broker && (empty r.qty_mismatches && empty r.price_mismatches)

  compare_rows-quiet :
      (oid : String) (row : TradeRow F) (b : Option (TradeRow F)) (rep : ReconciliationReport F)
      → quiet (compare_rows oid row b rep) ≡ true
      → (quiet rep ≡ true) × Agree (some row) b
  compare_rows-quiet oid row none rep h = ground (arith, h, never rep.missing_at_broker oid)
  compare_rows-quiet oid row (some b) rep h = ground (
    arith,
    h,
    flagged rep.qty_mismatches (oid, row.qty, b.qty) (qty_differs row b),
    flagged rep.price_mismatches (oid, row.price, b.price) (price_differs row b),
  )

  -- what is found in the first dict agrees with the second
  abbrev AllAgree : Dict (TradeRow F) → Dict (TradeRow F) → Type 0
  AllAgree imap bmap =
      (oid : String) (row : TradeRow F)
      → lookup oid imap ≡ some row
      → Agree (some row) (lookup oid bmap)

  Agree-first :
      (j : String) (row : TradeRow F) (imap bmap : Dict (TradeRow F))
      → Agree (some row) (lookup j bmap)
      → AllAgree imap bmap
      → AllAgree ((j, row) ∷ imap) bmap
  Agree-first j row imap bmap h k oid found e = by_name (str_eq j oid) refl e
    where
      same : str_eq j oid ≡ true → j ≡ oid
      same n = grind (arith, n, eq_iff j oid)

      by_name :
          (c : Bool)
          → str_eq j oid ≡ c
          → (if c then some row else lookup oid imap) ≡ some found
          → Agree (some found) (lookup oid bmap)
      by_name true n e =
          subst (λ r. Agree (some r) (lookup oid bmap)) (injective e)
            (subst (λ i. Agree (some row) (lookup i bmap)) (same n) h)
        where
          injective : {a b : TradeRow F} → some a ≡ some b → a ≡ b
          injective q = cc q
      by_name false n e = k oid found e

  compare_all-quiet :
      (bmap imap : Dict (TradeRow F)) (rep : ReconciliationReport F)
      → quiet (compare_all bmap imap rep) ≡ true
      → (quiet rep ≡ true) × AllAgree imap bmap
  compare_all-quiet bmap [] rep h = (h, λ oid row e. ground (arith, e))
  compare_all-quiet bmap ((j, row) ∷ imap) rep h =
      let r = compare_all-quiet bmap imap (compare_rows j row (lookup j bmap) rep) h in
      let q = compare_rows-quiet j row (lookup j bmap) rep r.0 in
      (q.0, Agree-first j row imap bmap q.1 r.1)

  known_ids :
      (imap bmap : Dict (TradeRow F)) (oid : String)
      → empty (unknown_ids imap bmap) ≡ true
      → absent (lookup oid imap) ≡ true
      → lookup oid bmap ≡ none
  known_ids imap [] oid h a = refl
  known_ids imap ((j, b) ∷ bmap) oid h a =
      ground (arith, h, a, eq_iff j oid, known_ids imap bmap oid)

  agreed :
      (imap bmap : Dict (TradeRow F)) (oid : String) (o : Option (TradeRow F))
      → lookup oid imap ≡ o
      → AllAgree imap bmap
      → empty (unknown_ids imap bmap) ≡ true
      → Agree o (lookup oid bmap)
  agreed imap bmap oid none e h k =
      subst (λ b. Agree none b) (sym (known_ids imap bmap oid k (ap absent e))) tt
  agreed imap bmap oid (some row) e h k = h oid row e

  clean_parts :
      (r : ReconciliationReport F)
      → clean r ≡ true
      → (quiet r ≡ true) × (empty r.missing_internally ≡ true) × (empty r.naked_positions ≡ true)
  unfolding clean
  clean_parts r h = (ground (arith, h), ground (arith, h), ground (arith, h))

  compare_rows-naked :
      (oid : String) (row : TradeRow F) (b : Option (TradeRow F)) (rep : ReconciliationReport F)
      → (compare_rows oid row b rep).naked_positions ≡ rep.naked_positions
  compare_rows-naked oid row none rep = refl
  compare_rows-naked oid row (some b) rep = refl

  compare_all-naked :
      (bmap imap : Dict (TradeRow F)) (rep : ReconciliationReport F)
      → (compare_all bmap imap rep).naked_positions ≡ rep.naked_positions
  compare_all-naked bmap [] rep = refl
  compare_all-naked bmap ((oid, row) ∷ imap) rep =
      compare_all-naked bmap imap (compare_rows oid row (lookup oid bmap) rep)
      ∙ compare_rows-naked oid row (lookup oid bmap) rep

  abbrev blank : List String → ReconciliationReport F
  blank naked = record {
    missing_at_broker = [];
    missing_internally = [];
    qty_mismatches = [];
    price_mismatches = [];
    naked_positions = naked;
  }

-- If the report is clean, there is no naked position, and for every id the day's internal orders and
-- the broker's agree: either neither side has an order of the id, or both have one, and of the last
-- rows of the id on both sides the quantities differ by at most 1e-9 and the prices by at most the
-- tolerance, where the internal price is above 0 (a difference that is NaN counts as none).
pub clean-Agree :
    {F : Type 0} ⦃fl : Float F⦄ (internal broker : List (TradeRow F)) (naked : List String)
    (oid : String)
    → clean (reconcile internal broker naked) ≡ true
    → (empty naked ≡ true) × Agree (lookup oid (by_id [] internal)) (lookup oid (by_id [] broker))
unfolding reconcile
clean-Agree internal broker naked oid h =
    let imap = by_id [] internal in
    let bmap = by_id [] broker in
    let p = clean_parts (reconcile internal broker naked) h in
    (
      ap empty (sym (compare_all-naked bmap imap (blank naked))) ∙ p.2,
      agreed imap bmap oid (lookup oid imap) refl (compare_all-quiet bmap imap (blank naked) p.0).1
          p.1,
    )
