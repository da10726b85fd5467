-- ===== src/Audit/Chain.antt =====
-- src/risk/pre_trade_gate.py: `AuditLog`. A row is a dict of JSON values; `json.dumps` and `hashlib`
-- are parameters.
use Prim.Native.String.{count, ◌++◌ as concat}
use text.Mathlib.Text.{◌==◌ as str_eq}
use trading_os.Common.{
  ◌≡◌, String, Bool, true, false, ◌&&◌, Option, none, some, List, [], ◌∷◌, ◌++◌, get_or,
}
use trading_os.Common.Dict.{Dict, lookup, insert, remove}
use trading_os.Common.Effects.{ok, err, Method}

-- Values that `json` writes, and `hashlib`.
pub record Json (J : Type 0) : Type 0 where
  pub text : String → J
  pub as_text : J → Option String
  pub dumps : Dict J → String  -- json.dumps(row, sort_keys=True, default=str)
  pub sha256 : String → String  -- hashlib.sha256(s.encode()).hexdigest()
  pub genesis : String  -- "0" * 64

-- The hash of a row whose dump is `payload`, after a row with the hash `prev`.
abbrev pub digest : {J : Type 0} → Json J → String → String → String
digest js prev payload = js.sha256 (concat prev payload)

-- Every digest has as many characters as GENESIS, 64.
pub record IsSha256 (J : Type 0) ⦃js : Json J⦄ : Type 0 where
  pub count-sha256 : (s : String) → count (js.sha256 s) ≡ count js.genesis

-- A str is read back as itself.
pub record IsJson (J : Type 0) ⦃js : Json J⦄ : Type 0 where
  pub as_text-text : (s : String) → js.as_text (js.text s) ≡ some s

-- The hash of the last row is missing or is not a str.
pub data AuditError : Type 0 where
  no_last_hash : AuditError

abbrev pub AuditLog : Type 0 → Type 0
AuditLog J = List (Dict J)

abbrev pub matches : Option String → String → Bool
matches none s = false
matches (some t) s = str_eq t s

module _ {J : Type 0} ⦃js : Json J⦄ where
  open js use {text, as_text, dumps, genesis}

  abbrev pub payload : Dict J → String
  payload row = dumps (remove "hash" row)

  -- the str under a key
  abbrev pub text_in : Option J → Option String
  text_in none = none
  text_in (some j) = as_text j

  abbrev pub text_at : String → Dict J → Option String
  text_at k row = text_in (lookup k row)

  abbrev pub last_hash : AuditLog J → Option String
  last_hash [] = some genesis
  last_hash (r ∷ []) = text_at "hash" r
  last_hash (r ∷ s ∷ rows) = last_hash (s ∷ rows)

  abbrev pub stamped : J → Dict J → Dict J
  stamped now row = insert "ts" (get_or (lookup "ts" row) now) row

  abbrev pub linked : String → Dict J → Dict J
  linked prev row = insert "prev_hash" (text prev) row

  abbrev pub sealed : String → Dict J → Dict J
  sealed prev body = insert "hash" (text (digest js prev (payload body))) body

  abbrev pub append_after : J → Dict J → Option String → Method (AuditLog J) AuditError (Dict J)
  append_after now row none log = (err no_last_hash, log)
  append_after now row (some prev) log =
      let body = sealed prev (linked prev (stamped now row)) in (ok body, log ++ (body ∷ []))

  unfoldable pub append : J → Dict J → Method (AuditLog J) AuditError (Dict J)
  append now row log = append_after now row (last_hash log) log

  -- the loop of `verify_chain` from a row on; `prev = row["hash"]` is the digest just compared
  abbrev pub verify_from : String → AuditLog J → Bool
  verify_from prev [] = true
  verify_from prev (row ∷ rows) =
      let next = digest js prev (payload row) in
      matches (text_at "prev_hash" row) prev
      && (matches (text_at "hash" row) next && verify_from next rows)

  unfoldable pub verify_chain : AuditLog J → Bool
  verify_chain log = verify_from genesis log
