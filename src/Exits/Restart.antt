-- ===== src/Exits/Restart.antt =====
-- src/exits/exit_manager.py: positions from their entry on, and over a restart.
use trading_os.Common.{◌≡◌, refl, String, Option, none, some, List, [], ◌∷◌, ◌++◌, arith}
use text.Mathlib.TextEquality.{eq_iff}
use trading_os.Common.Dict.{Dict, lookup, insert, lookup-insert}
use trading_os.Common.Effects.{ok, err}
use trading_os.Float.{Float}
use trading_os.Exits.Position.{ManagedPosition, ExitConfig, Outside, Call, place_stop, ExitError}
use trading_os.Exits.Manager.{
  ExitManager, NewPosition, saved, restored, save_all, to_snapshot, load, from_snapshot, attach,
}

-- No key stands twice, as in every dict.
abbrev pub DistinctKeys : {V : Type 0} → Dict V → Type 0
DistinctKeys [] = Unit
DistinctKeys ((k, v) ∷ d) = (lookup k d ≡ none) × DistinctKeys d

module _ {F : Type 0} where
  abbrev pub or_else :
      Option (ManagedPosition F) → Option (ManagedPosition F) → Option (ManagedPosition F)
  or_else none old = old
  or_else (some p) old = some (restored (saved p))

  lookup-load :
      (k : String) (acc d : Dict (ManagedPosition F))
      → DistinctKeys d
      → lookup k (load acc (save_all d)) ≡ or_else (lookup k d) (lookup k acc)
  lookup-load k acc [] h = refl
  lookup-load k acc ((j, p) ∷ d) (fresh, h) =
      let acc' = insert j (restored (saved p)) acc in
      ground (arith, lookup-load k acc' d h, lookup-insert j k (restored (saved p)) acc, eq_iff j k)

  -- After a restart every symbol has the position that it had, its stop, state, extreme, partials and
  -- profit lock included, and only the telemetry is gone; a symbol without a position has none.
  pub restart_keeps :
      (made : List (Call F)) (m : ExitManager F) (sym : String)
      → DistinctKeys m.positions
      → lookup sym (from_snapshot made (to_snapshot m)).positions ≡ (elim (lookup sym m.positions) [
        | none ↦ none
        | some p ↦ some (record p { telemetry = none })
      ])
  unfolding from_snapshot to_snapshot
  restart_keeps made m sym h = ground (arith, lookup-load sym [] m.positions h)

module _ {F : Type 0} ⦃fl : Float F⦄ where
  -- If `attach` returns, its one call of the adapter was a stop order of the symbol, leg and direction
  -- given for the whole quantity given, to which the adapter answered a text, and the position that is
  -- returned is the one under its symbol, with that quantity still to be left, the price of that order
  -- and the text as its id. If it raises, the positions are as they were.
  pub attach_lem :
      (cfg : ExitConfig F) (out : Outside F) (e : NewPosition F) (m : ExitManager F)
      → let (r, m') = attach cfg out e m in
        ((p : ManagedPosition F)
          → r ≡ ok p
          → (lookup e.symbol m'.positions ≡ some p)
            × (out.answer m.calls (place_stop e.symbol e.qty p.stop e.leg e.direction)
                ≡ some p.stop_order_id)
            × (m'.calls ≡ m.calls ++ (place_stop e.symbol e.qty p.stop e.leg e.direction ∷ []))
            × (p.qty ≡ e.qty)
            × (p.remaining_qty ≡ e.qty))
        × ((x : ExitError) → r ≡ err x → m'.positions ≡ m.positions)
  unfolding attach
  attach_lem cfg out e m = (
    λ p h. ground (arith, lookup-insert e.symbol e.symbol p m.positions, eq_iff e.symbol e.symbol),
    λ x h. ground arith,
  )
