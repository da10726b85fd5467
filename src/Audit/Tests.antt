-- ===== src/Audit/Tests.antt =====
-- A log of two rows, a row changed afterwards, and the theorems at them.
use Prim.Native.String.{count, ◌++◌ as concat}
use text.Mathlib.Text.{◌==◌ as str_eq}
use trading_os.Common.{
  ◌≡◌, refl, String, Bool, Option, true, false, not, ◌&&◌, some, none, List, [], ◌∷◌, ◌++◌, map,
  if◌then◌else◌, ◌⊎◌,
}
use trading_os.Common.Dict.{Dict, lookup, insert}
use trading_os.Common.Effects.{ok, err}
use trading_os.Float.{◌<=F◌}
use trading_os.Float.Fixed.{Fixed, fixed_float, nano}
use trading_os.Audit.Chain.{Json, IsJson, AuditLog, payload, append, verify_chain, IsSha256}
use trading_os.Audit.Intact.{append_all, append_all-Grown, Grown}
use trading_os.Audit.Tampered.{Clash, same_end-same_rows}
use trading_os.Audit.Gate.{
  GateLimits, GateDecision, RowValues, decide, check, check_is_recorded, Tells, at_cap,
}
use trading_os.Audit.Stored.{Lines, JsonlAuditLog, chain_tampered, load, load_from}
use trading_os.Audit.Reopened.{IsLines, append_lines, append_lines-IsSynced, IsSynced}

-- the values are texts, a dump is their sequence, and a hash is the text with a mark in front
abbrev dumped : Dict String → String
dumped [] = ""
dumped ((k, v) ∷ d) = concat k (concat ":" (concat v (concat ";" (dumped d))))

instance abbrev text_json : Json String
text_json = record {
  text = λ s. s;
  as_text = λ s. some s;
  dumps = dumped;
  sha256 = λ s. concat "#" s;
  genesis = "0";
}

instance text_json-IsJson : IsJson String
text_json-IsJson = record { as_text-text = λ s. refl }

-- a line stands for the row that it holds
instance abbrev row_lines : Lines String (Dict String)
row_lines = record { dump_line = λ r. r; loads = λ r. some r; is_blank = λ r. false }

instance row_lines-IsLines : IsLines String (Dict String)
row_lines-IsLines = record { loads-dump_line = λ r. refl; dump_line_not_blank = λ r. refl }

abbrev order : Dict String
order = ("symbol", "TCS") ∷ []

abbrev two : List (String × Dict String)
two = ("t1", order) ∷ ("t2", []) ∷ []

abbrev two_rows : AuditLog String
unfolding append_all append
two_rows = append_all two []

two_verify : verify_chain two_rows ≡ true
unfolding verify_chain append_all append
two_verify = refl

-- the symbol of the first row is changed afterwards
abbrev changed : AuditLog String → AuditLog String
changed [] = []
changed (r ∷ rows) = insert "symbol" "INFY" r ∷ rows

change_breaks : verify_chain (changed two_rows) ≡ false
unfolding verify_chain append_all append
change_breaks = refl

append_all-Grown_test : Grown 2 two_rows (append_all two two_rows)
append_all-Grown_test = append_all-Grown two two_rows two_verify

-- values that may be null, dumped by the sorted keys of a row, and a hash of one character
abbrev shown : Option (Option String) → String
shown (some (some s)) = s
shown _ = "null"

instance abbrev short_json : Json (Option String)
short_json = record {
  text = λ s. some s;
  as_text = λ j. j;
  dumps = λ row.
      concat (shown (lookup "prev_hash" row))
        (concat ";" (concat (shown (lookup "symbol" row)) (concat ";" (shown (lookup "ts" row)))));
  sha256 = λ s. if str_eq s "00;TCS;t1" then "1" else "2";
  genesis = "0";
}

instance short_json-IsSha256 : IsSha256 (Option String)
short_json-IsSha256 = record { count-sha256 = λ s. one_long (str_eq s "00;TCS;t1") }
  where
    one_long : (c : Bool) → count (if c then "1" else "2") ≡ 1
    one_long true = refl
    one_long false = refl

-- the same two rows, written with their keys in two orders
abbrev symbol_first : AuditLog (Option String)
unfolding append_all append
symbol_first = append_all ((some "t1", ("symbol", some "TCS") ∷ []) ∷ (some "t2", []) ∷ []) []

abbrev time_first : AuditLog (Option String)
unfolding append_all append
time_first =
    append_all
      ((none, ("ts", some "t1") ∷ ("symbol", some "TCS") ∷ [])
        ∷ (none, ("ts", some "t2") ∷ [])
        ∷ [])
      []

both_verify : (verify_chain symbol_first ≡ true) × (verify_chain time_first ≡ true)
unfolding verify_chain append_all append
both_verify = (refl, refl)

same_end-same_rows_example :
    (map payload symbol_first ≡ map payload time_first) ⊎ Clash "0" "0" symbol_first time_first
unfolding symbol_first time_first
same_end-same_rows_example =
    same_end-same_rows symbol_first time_first both_verify.0 both_verify.1 refl refl

abbrev limits : GateLimits Fixed
limits = record { max_var_daily = nano 20000000; max_sector_exposure_pct = nano 250000000 }

abbrev row_values : RowValues Fixed String
row_values = record {
  number = λ n. "number";
  flag = λ b. if b then "true" else "false";
  dict = dumped;
}

check_is_recorded_example :
    (d : GateDecision) × ((row : Dict String) × ((check row_values limits "t3" order
            (nano 30000000)
            none
            two_rows
          ≡ (ok d, two_rows ++ (row ∷ [])))
        × (verify_chain (two_rows ++ (row ∷ [])) ≡ true)
        × Tells row_values d order row
        × (d.approved ≡ (
            not (limits.max_var_daily <=F nano 30000000)
            && not (at_cap limits.max_sector_exposure_pct none)))))
check_is_recorded_example =
    check_is_recorded row_values limits "t3" order (nano 30000000) none two_rows two_verify

var_refused : (decide limits (nano 30000000) none).approved ≡ false
unfolding decide ◌<=F◌
var_refused = refl

abbrev empty_log : JsonlAuditLog String (Dict String)
empty_log = record { file = []; rows = [] }

empty_log-IsSynced : IsSynced empty_log
unfolding load load_from
empty_log-IsSynced = refl

append_lines-IsSynced_example :
    (load (append_lines two empty_log).file ≡ ok (append_lines two empty_log))
    × (verify_chain (append_lines two empty_log).rows ≡ true)
append_lines-IsSynced_example = append_lines-IsSynced two empty_log empty_log-IsSynced

tampered_file : load {J = String} (changed two_rows) ≡ err (chain_tampered 1)
unfolding load load_from append_all append
tampered_file = refl
