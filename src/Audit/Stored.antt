-- ===== src/Audit/Stored.antt =====
-- src/ops/persistence.py: `JsonlAuditLog`, the audit log in a file, and `JsonlKVStore`. The file is
-- the list of its lines, whose type and `json` are parameters, and the writes do not fail.
use trading_os.Common.{
  ℕ, suc, String, Bool, true, false, ◌&&◌, Option, none, some, List, [], ◌∷◌, ◌++◌, get_or,
  if◌then◌else◌,
}
use trading_os.Common.Dict.{Dict}
use trading_os.Common.Effects.{Result, ok, err, Method}
use trading_os.Audit.Chain.{digest, Json, AuditError, AuditLog, payload, text_at, matches, append}

-- Lines of JSON.
pub record Lines (J L : Type 0) : Type 0 where
  pub dump_line : Dict J → L  -- json.dumps(row, default=str)
  pub loads : L → Option (Dict J)  -- none where it raises
  pub is_blank : L → Bool  -- not line.strip()

-- The number of the line with which the chain breaks, or a line that is not JSON.
pub data LoadError : Type 0 where
  chain_tampered : ℕ → LoadError
  not_json : LoadError

pub record JsonlAuditLog (J L : Type 0) : Type 0 where
  pub file : List L
  pub rows : AuditLog J

module _ {J : Type 0} where
  -- a row whose links hold, before the rest
  abbrev pub keep_row :
      Bool → ℕ → Dict J → Result LoadError (AuditLog J) → Result LoadError (AuditLog J)
  keep_row false n row rest = err (chain_tampered n)
  keep_row true n row (err e) = err e
  keep_row true n row (ok rows) = ok (row ∷ rows)

module _ {J : Type 0} ⦃js : Json J⦄ where
  abbrev pub links_hold : String → Dict J → Bool
  links_hold prev row =
      matches (text_at "prev_hash" row) prev
      && matches (text_at "hash" row) (digest js prev (payload row))

  -- one turn of the loop of `_load`, with what the rest of the file gives
  abbrev pub load_line :
      Bool
      → Option (Dict J)
      → ℕ
      → String
      → Result LoadError (AuditLog J)
      → Result LoadError (AuditLog J)
      → Result LoadError (AuditLog J)
  load_line true row_of n prev skipped rest = skipped
  load_line false none n prev skipped rest = err not_json
  load_line false (some row) n prev skipped rest = keep_row (links_hold prev row) n row rest

module _ {J : Type 0} where
  abbrev add_record : Option (Dict J) → Option (List (Dict J)) → Option (List (Dict J))
  add_record none rest = none
  add_record (some r) none = none
  add_record (some r) (some rs) = some (r ∷ rs)

module _ {J L : Type 0} ⦃js : Json J⦄ ⦃lines : Lines J L⦄ where
  open js use {genesis}
  open lines use {dump_line, loads, is_blank}

  -- the loop of `_load` from a line on, with its number; the hash of a row that is kept is the
  -- digest just compared
  unfoldable pub load_from : ℕ → String → List L → Result LoadError (AuditLog J)
  load_from n prev [] = ok []
  load_from n prev (line ∷ file) =
      let skipped = load_from (suc n) prev file in
      let row_of = loads line in
      let rest = load_from (suc n) (digest js prev (payload (get_or row_of []))) file in
      load_line (is_blank line) row_of n prev skipped rest

  abbrev pub with_file :
      List L → Result LoadError (AuditLog J) → Result LoadError (JsonlAuditLog J L)
  with_file file (ok rows) = ok (record { file = file; rows = rows })
  with_file file (err e) = err e

  -- `__init__` of a log with this file
  unfoldable pub load : List L → Result LoadError (JsonlAuditLog J L)
  load file = with_file file (load_from 1 genesis file)

  abbrev pub write_row :
      Result AuditError (Dict J) × AuditLog J
      → JsonlAuditLog J L
      → Result AuditError (Dict J) × JsonlAuditLog J L
  write_row (ok body, rows) log =
      (ok body, record { file = log.file ++ (dump_line body ∷ []); rows = rows })
  write_row (err e, rows) log = (err e, log)

  unfoldable pub append_line : J → Dict J → Method (JsonlAuditLog J L) AuditError (Dict J)
  append_line now row log = write_row (append now row log.rows) log

  -- `verify_chain`, which reads the file again; none is an exception that it does not catch
  unfoldable pub verify_file : JsonlAuditLog J L → Option Bool
  verify_file log = elim (load log.file) [
    | ok l ↦ some true
    | err (chain_tampered n) ↦ some false
    | err not_json ↦ none
  ]

  -- `JsonlKVStore`
  unfoldable pub append_record : Dict J → List L → List L
  append_record r file = file ++ (dump_line r ∷ [])

  unfoldable pub load_all : List L → Option (List (Dict J))
  load_all [] = some []
  load_all (line ∷ file) =
      let rest = load_all file in if is_blank line then rest else add_record (loads line) rest
