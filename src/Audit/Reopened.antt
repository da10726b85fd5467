-- ===== src/Audit/Reopened.antt =====
-- src/ops/persistence.py: a log that is opened again, and what loading a file shows of it.
use mathlib.Core.Path.{subst}
use trading_os.Common.{
  ◌≡◌, refl, sym, ◌∙◌, ap, arith, ℕ, suc, String, Bool, true, false, Option, none, some, List, [],
  ◌∷◌, ◌++◌, get_or,
}
use trading_os.Common.Dict.{Dict}
use trading_os.Common.Effects.{Result, ok, err}
use trading_os.Common.Steps.{ok-injective}
use trading_os.Audit.Chain.{digest, Json, IsJson, AuditLog, payload, verify_from, verify_chain}
use trading_os.Audit.Intact.{append-Extends, append_lem, added, final, verify_from-++}
use trading_os.Audit.Stored.{
  Lines, LoadError, JsonlAuditLog, keep_row, links_hold, load_line, load_from, with_file, load,
  write_row, append_line,
}

-- A row is read back from its line, which is not blank: the row is a dict of JSON values.
pub record IsLines (J L : Type 0) ⦃lines : Lines J L⦄ : Type 0 where
  pub loads-dump_line : (r : Dict J) → lines.loads (lines.dump_line r) ≡ some r
  pub dump_line_not_blank : (r : Dict J) → lines.is_blank (lines.dump_line r) ≡ false

module _ {J : Type 0} ⦃js : Json J⦄ where
  keep_row-verified :
      (b : Bool) (n : ℕ) (prev : String) (row : Dict J) (rest : Result LoadError (AuditLog J))
      (rows : AuditLog J)
      → links_hold prev row ≡ b
      → ((rs : AuditLog J) → rest ≡ ok rs → verify_from (digest js prev (payload row)) rs ≡ true)
      → keep_row b n row rest ≡ ok rows
      → verify_from prev rows ≡ true
  keep_row-verified false n prev row rest rows l h e = ground (arith, e)
  keep_row-verified true n prev row (err x) rows l h e = ground (arith, e)
  keep_row-verified true n prev row (ok rs) rows l h e =
      subst (λ r. verify_from prev r ≡ true) (ok-injective (row ∷ rs) rows e)
        (ground (arith, l, h rs refl))

  load_line-verified :
      (b : Bool) (o : Option (Dict J)) (n : ℕ) (prev : String)
      (skipped rest : Result LoadError (AuditLog J)) (rows : AuditLog J)
      → ((rs : AuditLog J) → skipped ≡ ok rs → verify_from prev rs ≡ true)
      → ((rs : AuditLog J)
          → rest ≡ ok rs
          → verify_from (digest js prev (payload (get_or o []))) rs ≡ true)
      → load_line b o n prev skipped rest ≡ ok rows
      → verify_from prev rows ≡ true
  load_line-verified true o n prev skipped rest rows h k e = h rows e
  load_line-verified false none n prev skipped rest rows h k e = ground (arith, e)
  load_line-verified false (some row) n prev skipped rest rows h k e =
      keep_row-verified (links_hold prev row) n prev row rest rows refl k e

  -- A line at the end adds a row at the end.
  abbrev OneMore :
      Dict J → String → Result LoadError (AuditLog J) → Result LoadError (AuditLog J) → Type 0
  OneMore body prev before after =
      (rows : AuditLog J)
      → before ≡ ok rows
      → links_hold (final prev rows) body ≡ true
      → after ≡ ok (rows ++ (body ∷ []))

  keep_row-OneMore :
      (b : Bool) (n : ℕ) (prev : String) (body row : Dict J)
      (before after : Result LoadError (AuditLog J))
      → OneMore body (digest js prev (payload row)) before after
      → OneMore body prev (keep_row b n row before) (keep_row b n row after)
  keep_row-OneMore false n prev body row before after ih rows e h = ground (arith, e)
  keep_row-OneMore true n prev body row (err x) after ih rows e h = ground (arith, e)
  keep_row-OneMore true n prev body row (ok rs) after ih rows e h =
      let same : row ∷ rs ≡ rows = ok-injective (row ∷ rs) rows e in
      ap (keep_row true n row) (ih rs refl (ap (λ r. links_hold (final prev r) body) same ∙ h))
      ∙ ap (λ r. ok (r ++ (body ∷ []))) same

  load_line-OneMore :
      (b : Bool) (o : Option (Dict J)) (n : ℕ) (prev : String) (body : Dict J)
      (skipped skipped' rest rest' : Result LoadError (AuditLog J))
      → OneMore body prev skipped skipped'
      → OneMore body (digest js prev (payload (get_or o []))) rest rest'
      → OneMore body prev (load_line b o n prev skipped rest) (load_line b o n prev skipped' rest')
  load_line-OneMore true o n prev body s s' r r' h k rows e l = h rows e l
  load_line-OneMore false none n prev body s s' r r' h k rows e l = ground (arith, e)
  load_line-OneMore false (some row) n prev body s s' r r' h k rows e l =
      keep_row-OneMore (links_hold prev row) n prev body row r r' k rows e l

module _ {J L : Type 0} ⦃js : Json J⦄ ⦃lines : Lines J L⦄ where
  open js use {genesis}
  open lines use {dump_line, loads, is_blank}

  load_from-verified :
      (n : ℕ) (prev : String) (file : List L) (rows : AuditLog J)
      → load_from n prev file ≡ ok rows
      → verify_from prev rows ≡ true
  unfolding load_from
  load_from-verified n prev [] rows e =
      subst (λ r. verify_from prev r ≡ true) (ok-injective [] rows e) refl
  load_from-verified n prev (line ∷ file) rows e =
      let next = digest js prev (payload (get_or (loads line) [])) in
      load_line-verified (is_blank line) (loads line) n prev (load_from (suc n) prev file)
        (load_from (suc n) next file) rows (λ rs k. load_from-verified (suc n) prev file rs k)
        (λ rs k. load_from-verified (suc n) next file rs k) e

module _ {J L : Type 0} ⦃js : Json J⦄ ⦃lines : Lines J L⦄ ⦃faithful : IsLines J L⦄ where
  open js use {genesis}
  open lines use {dump_line, loads, is_blank}

  -- the last line of a file, whose links hold
  last_line :
      (n : ℕ) (prev : String) (line : L) (body : Dict J)
      → is_blank line ≡ false
      → loads line ≡ some body
      → links_hold prev body ≡ true
      → load_from n prev (line ∷ []) ≡ ok (body ∷ [])
  unfolding load_from
  last_line n prev line body b l h = cc (b, l, h)

  load_from-OneMore :
      (n : ℕ) (prev : String) (file : List L) (body : Dict J)
      → OneMore body prev (load_from n prev file) (load_from n prev (file ++ (dump_line body ∷ [])))
  unfolding load_from
  load_from-OneMore n prev [] body rows e h =
      let same : [] ≡ rows = ok-injective [] rows e in
      last_line n prev (dump_line body) body (faithful.dump_line_not_blank body)
        (faithful.loads-dump_line body) (ap (λ r. links_hold (final prev r) body) same ∙ h)
      ∙ ap (λ r. ok (r ++ (body ∷ []))) same
  load_from-OneMore n prev (line ∷ file) body rows e h =
      let next = digest js prev (payload (get_or (loads line) [])) in
      load_line-OneMore (is_blank line) (loads line) n prev body (load_from (suc n) prev file)
        (load_from (suc n) prev (file ++ (dump_line body ∷ []))) (load_from (suc n) next file)
        (load_from (suc n) next (file ++ (dump_line body ∷ [])))
        (load_from-OneMore (suc n) prev file body) (load_from-OneMore (suc n) next file body) rows e
        h

-- The file and the rows in memory agree: loading the file gives the log back.
abbrev pub IsSynced : {J L : Type 0} ⦃js : Json J⦄ ⦃lines : Lines J L⦄ → JsonlAuditLog J L → Type 0
IsSynced log = load log.file ≡ ok log

module _ {J L : Type 0} ⦃js : Json J⦄ ⦃lines : Lines J L⦄ where
  open js use {genesis}

  with_file-rows :
      (file : List L) (r : Result LoadError (AuditLog J)) (log : JsonlAuditLog J L)
      → with_file file r ≡ ok log
      → r ≡ ok log.rows
  with_file-rows file (ok rows) log e =
      ap (λ l. ok l.rows) (ok-injective (record { file = file; rows = rows }) log e)
  with_file-rows file (err x) log e = ground (arith, e)

  loaded :
      (file : List L) (log : JsonlAuditLog J L)
      → load file ≡ ok log
      → load_from 1 genesis file ≡ ok log.rows
  unfolding load
  loaded file log h = with_file-rows file (load_from 1 genesis file) log h

  loaded-verified :
      (file : List L) (log : JsonlAuditLog J L) → load file ≡ ok log → verify_chain log.rows ≡ true
  unfolding verify_chain
  loaded-verified file log h = load_from-verified 1 genesis file log.rows (loaded file log h)

  -- the log after a list of rows, each with the time of its append
  unfoldable pub append_lines : List (J × Dict J) → JsonlAuditLog J L → JsonlAuditLog J L
  append_lines [] log = log
  append_lines (r ∷ rows) log = append_lines rows (append_line r.0 r.1 log).1

-- A file that loads without an exception gives a log whose chain verifies.
pub load-verify_chain :
    {J L : Type 0} ⦃js : Json J⦄ ⦃lines : Lines J L⦄ (file : List L) (log : JsonlAuditLog J L)
    → load file ≡ ok log
    → verify_chain log.rows ≡ true
load-verify_chain file log h = loaded-verified file log h

module _ {J : Type 0} ⦃js : Json J⦄ ⦃lawful : IsJson J⦄ where
  open js use {genesis}

  added-links_hold :
      (now : J) (row : Dict J) (rows : AuditLog J)
      → verify_chain rows ≡ true
      → links_hold (final genesis rows) (added now row rows) ≡ true
  unfolding verify_chain
  added-links_hold now row rows h = ground (
    arith,
    verify_from-++ genesis rows (added now row rows ∷ []),
    h,
    ap (λ p. verify_chain p.1) (sym (append_lem now row rows h))
        ∙ (append-Extends now row rows h).0,
  )

module _ {J L : Type 0} ⦃js : Json J⦄ ⦃lines : Lines J L⦄ ⦃lawful : IsJson J⦄
    ⦃faithful : IsLines J L⦄ where
  open js use {genesis}
  open lines use {dump_line}

  append_line_lem :
      (now : J) (row : Dict J) (log : JsonlAuditLog J L)
      → verify_chain log.rows ≡ true
      → append_line now row log ≡ (
        ok (added now row log.rows),
        record {
          file = log.file ++ (dump_line (added now row log.rows) ∷ []);
          rows = log.rows ++ (added now row log.rows ∷ []);
        },
      )
  unfolding append_line
  append_line_lem now row log h = ap (λ p. write_row p log) (append_lem now row log.rows h)

  append_line-IsSynced :
      (now : J) (row : Dict J) (log : JsonlAuditLog J L)
      → IsSynced log
      → IsSynced (append_line now row log).1
  unfolding load
  append_line-IsSynced now row log h =
      let v = loaded-verified log.file log h in
      let body = added now row log.rows in
      subst (λ p. IsSynced p.1) (sym (append_line_lem now row log v))
        (ap (with_file (log.file ++ (dump_line body ∷ []))) (
          load_from-OneMore 1 genesis log.file body log.rows (loaded log.file log h)
            (added-links_hold now row log.rows v)))

-- From a log whose file loads to the rows in memory, such as a new one, appending any rows leaves
-- such a log: opened again, the file gives the same rows, in their order, and its chain verifies.
-- Rows are dicts of JSON values, which are read back from their lines, and no write fails.
pub append_lines-IsSynced :
    {J L : Type 0} ⦃js : Json J⦄ ⦃lines : Lines J L⦄ ⦃lawful : IsJson J⦄ ⦃faithful : IsLines J L⦄
    (rows : List (J × Dict J)) (log : JsonlAuditLog J L)
    → IsSynced log
    → let later = append_lines rows log in
      (load later.file ≡ ok later) × (verify_chain later.rows ≡ true)
unfolding append_lines
append_lines-IsSynced [] log h = (h, load-verify_chain log.file log h)
append_lines-IsSynced (r ∷ rows) log h =
    append_lines-IsSynced rows (append_line r.0 r.1 log).1 (append_line-IsSynced r.0 r.1 log h)
