-- ===== src/Reconcile/Tests.antt =====
-- A day of two orders, and the theorem at it.
use trading_os.Common.{◌≡◌, refl, String, true, List, [], ◌∷◌}
use trading_os.Common.Dict.{lookup}
use trading_os.Float.{◌<F◌}
use trading_os.Float.Fixed.{Fixed, fixed_float, whole, nano}
use trading_os.Reconcile.Report.{TradeRow, empty, clean, by_id, reconcile}
use trading_os.Reconcile.Agreement.{Agree, clean-Agree}

abbrev first : TradeRow Fixed
first = record { client_order_id = "a"; qty = whole 10; price = whole 100 }

abbrev second : TradeRow Fixed
second = record { client_order_id = "b"; qty = whole 5; price = whole 20 }

-- a slippage of 0.4%
abbrev slipped : TradeRow Fixed
slipped = record first { price = nano 100400000000 }

day_is_clean : clean (reconcile (first ∷ second ∷ []) (second ∷ slipped ∷ []) []) ≡ true
unfolding clean reconcile ◌<F◌
day_is_clean = refl

missing_order : (reconcile (first ∷ []) (second ∷ []) []).missing_internally ≡ "b" ∷ []
unfolding reconcile ◌<F◌
missing_order = refl

abbrev no_symbols : List String
no_symbols = []

clean-Agree_example :
    (empty no_symbols ≡ true)
    × Agree
        (lookup "a" (by_id [] (first ∷ second ∷ [])))
        (lookup "a" (by_id [] (second ∷ slipped ∷ [])))
clean-Agree_example =
    clean-Agree (first ∷ second ∷ []) (second ∷ slipped ∷ []) no_symbols "a" day_is_clean
