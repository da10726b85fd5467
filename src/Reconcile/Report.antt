-- ===== src/Reconcile/Report.antt =====
-- src/ops/eod_reconciler.py: the internal orders of a day against the broker's.
use trading_os.Common.{
  Bool, true, false, not, ◌&&◌, ◌||◌, String, Option, none, some, List, [], ◌∷◌, ◌++◌,
  if◌then◌else◌,
}
use trading_os.Common.Dict.{Dict, lookup, insert}
use trading_os.Float.{Float, ◌-F◌, ◌/F◌, ◌<F◌, nought}

pub record TradeRow (F : Type 0) : Type 0 where
  pub client_order_id : String
  pub qty : F
  pub price : F

pub record ReconciliationReport (F : Type 0) : Type 0 where
  pub missing_at_broker : List String
  pub missing_internally : List String
  pub qty_mismatches : List (String × F × F)
  pub price_mismatches : List (String × F × F)
  pub naked_positions : List String

abbrev pub empty {ℓ} : {A : Type ℓ} → List A → Bool
empty [] = true
empty (x ∷ xs) = false

abbrev pub absent {ℓ} : {A : Type ℓ} → Option A → Bool
absent none = true
absent (some a) = false

module _ {F : Type 0} where
  unfoldable pub clean : ReconciliationReport F → Bool
  clean r = not (
      not (empty r.missing_at_broker)
      || (not (empty r.missing_internally)
          || (not (empty r.qty_mismatches)
              || (not (empty r.price_mismatches) || not (empty r.naked_positions)))))

  -- `{r["client_order_id"]: r for r in rows}`, from a dict on
  abbrev pub by_id : Dict (TradeRow F) → List (TradeRow F) → Dict (TradeRow F)
  by_id d [] = d
  by_id d (r ∷ rows) = by_id (insert r.client_order_id r d) rows

  -- the loop over the broker's ids
  abbrev pub unknown_ids : Dict (TradeRow F) → Dict (TradeRow F) → List String
  unknown_ids imap [] = []
  unknown_ids imap ((oid, b) ∷ bmap) =
      let rest = unknown_ids imap bmap in if absent (lookup oid imap) then oid ∷ rest else rest

module _ {F : Type 0} ⦃fl : Float F⦄ where
  open fl use {lit, abs}

  abbrev pub qty_differs : TradeRow F → TradeRow F → Bool
  qty_differs row b = lit 1 9 <F abs (b.qty -F row.qty)

  abbrev pub price_differs : TradeRow F → TradeRow F → Bool
  price_differs row b =
      (nought <F row.price) && (lit 5 3 <F (abs (b.price -F row.price) /F row.price))

  -- one turn of the loop over the internal orders
  abbrev pub compare_rows :
      String → TradeRow F → Option (TradeRow F) → ReconciliationReport F → ReconciliationReport F
  compare_rows oid row none rep = record rep {
    missing_at_broker = rep.missing_at_broker ++ (oid ∷ []);
  }
  compare_rows oid row (some b) rep = record rep {
    qty_mismatches =
        rep.qty_mismatches ++ (if qty_differs row b then (oid, row.qty, b.qty) ∷ [] else []);
    price_mismatches =
        rep.price_mismatches
        ++ (if price_differs row b then (oid, row.price, b.price) ∷ [] else []);
  }

  abbrev pub compare_all :
      Dict (TradeRow F) → Dict (TradeRow F) → ReconciliationReport F → ReconciliationReport F
  compare_all bmap [] rep = rep
  compare_all bmap ((oid, row) ∷ imap) rep =
      compare_all bmap imap (compare_rows oid row (lookup oid bmap) rep)

  unfoldable pub reconcile :
      List (TradeRow F) → List (TradeRow F) → List String → ReconciliationReport F
  reconcile internal broker naked =
      let bmap = by_id [] broker in
      let imap = by_id [] internal in
      let rep = compare_all bmap imap (record {
        missing_at_broker = [];
        missing_internally = [];
        qty_mismatches = [];
        price_mismatches = [];
        naked_positions = naked;
      }) in
      record rep { missing_internally = unknown_ids imap bmap }
