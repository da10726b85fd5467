-- ===== src/Orders/Exposure.antt =====
-- src/core/order_state_machine.py: `open_exposure`, the net position of each symbol.
use text.Mathlib.Text.{◌==◌ as str_eq}
use text.Mathlib.TextEquality.{eq_iff}
use trading_os.Common.{
  ◌≡◌, refl, ◌∙◌, ◌&&◌, Option, none, some, List, [], ◌∷◌, String, arith, if◌then◌else◌, get_or,
  inl, inr, Bool-cases,
}
use trading_os.Common.Dict.{Dict, lookup, values, lookup-insert}
use trading_os.Float.{Float, ◌+F◌, ◌*F◌, ◌<F◌, nought, one}
use trading_os.Orders.Record.{Direction, buy, sell, OrderRecord}
use trading_os.Orders.Machine.{
  OrderStateMachine, signed_qty, add_exposure, exposure_from, open_exposure,
}

module _ {F : Type 0} ⦃fl : Float F⦄ where
  -- A purchase counts in full, a sale is subtracted.
  abbrev pub contribution : Direction → F → F
  contribution buy filled = one *F filled
  contribution sell filled = fl.neg one *F filled

  -- What the records of one symbol with a fill above 0 contribute, in their order.
  abbrev pub fills_of : String → List (OrderRecord F) → List F
  fills_of s [] = []
  fills_of s (r ∷ rs) =
      let rest = fills_of s rs in
      if str_eq r.symbol s && (nought <F r.filled_qty)
      then contribution r.direction r.filled_qty ∷ rest
      else rest

  -- Their sum from the left, or none without a fill.
  abbrev pub net : Option F → List F → Option F
  net acc [] = acc
  net acc (x ∷ xs) = net (some (get_or acc nought +F x)) xs

  signed_qty-contribution :
      (r : OrderRecord F) → signed_qty r ≡ contribution r.direction r.filled_qty
  signed_qty-contribution r = by_direction r.direction
    where
      by_direction :
          (d : Direction)
          → (elim d [ buy ↦ one | sell ↦ fl.neg one ] *F r.filled_qty) ≡ contribution d r.filled_qty
      by_direction buy = refl
      by_direction sell = refl

  add_step :
      (s : String) (out : Dict F) (r : OrderRecord F)
      → lookup s (add_exposure out r) ≡ (
          if str_eq r.symbol s && (nought <F r.filled_qty)
          then some (get_or (lookup s out) nought +F contribution r.direction r.filled_qty)
          else lookup s out)
  unfolding add_exposure
  add_step s out r = ground (
    arith,
    eq_iff r.symbol s,
    signed_qty-contribution r,
    lookup-insert r.symbol s (get_or (lookup r.symbol out) nought +F signed_qty r) out,
  )

  exposure_from-net :
      (s : String) (rs : List (OrderRecord F)) (out : Dict F)
      → lookup s (exposure_from out rs) ≡ net (lookup s out) (fills_of s rs)
  unfolding exposure_from
  exposure_from-net s [] out = refl
  exposure_from-net s (r ∷ rs) out =
      elim (Bool-cases (str_eq r.symbol s && (nought <F r.filled_qty))) [
        | inl h ↦ exposure_from-net s rs (add_exposure out r) ∙ rw (add_step s out r) (rw h refl)
        | inr h ↦ exposure_from-net s rs (add_exposure out r) ∙ rw (add_step s out r) (rw h refl)
      ]

  -- For each symbol `open_exposure` holds the sum of the filled quantities of that symbol's records
  -- whose fill is above 0, times 1 for a buy and times -1 for a sell, in the order of creation; a symbol
  -- without such a record has no entry.
  pub open_exposure-net :
      (m : OrderStateMachine F) (s : String)
      → lookup s (open_exposure m) ≡ net none (fills_of s (values m.records))
  unfolding open_exposure
  open_exposure-net m s = exposure_from-net s (values m.records) []
