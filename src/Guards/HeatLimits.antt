-- ===== src/Guards/HeatLimits.antt =====
-- src/risk/portfolio_heat.py: when an order passes the heat cap.
use trading_os.Common.{◌≡◌, ◌↔◌, refl, true, false, List, arith, Bool-cases, inl, inr}
use trading_os.Orders.Record.{Direction, buy, sell}
use trading_os.Float.{Float, ◌+F◌, ◌-F◌, ◌*F◌, ◌<F◌, ◌<=F◌, ◌≤F◌, fmax, nought, IsFinite}
use trading_os.Float.Laws.{Ieee, not-le→Less, fmax-ge_left, ≤F-refl, zero-IsReal}
use trading_os.Guards.Heat.{HeatPosition, position_heat, heat_with, heat_check}

module _ {F : Type 0} ⦃fl : Float F⦄ where
  open fl use {lit, is_finite}

  -- An order passes exactly if the equity is finite and above 0, the risk that it proposes is finite
  -- and not below 0, and the heat with it does not exceed the cap by more than 1e-12.
  pub heat_check_lem :
      (cap : F) (positions : List (HeatPosition F)) (equity proposed_risk : F)
      → ((heat_check cap positions equity proposed_risk).allowed ≡ true) ↔ (
          ((equity <=F nought) ≡ false)
          × (is_finite equity ≡ true)
          × ((proposed_risk <F nought) ≡ false)
          × (is_finite proposed_risk ≡ true)
          × (((cap +F lit 1 12) <F heat_with positions equity proposed_risk) ≡ false))
  unfolding heat_check
  heat_check_lem cap positions equity proposed_risk = (λ h. ground arith, λ h. ground arith)

  -- The stop has reached the entry, or gone past it on the side of profit.
  abbrev pub PastBreakeven : Direction → F → F → Type 0
  PastBreakeven buy entry stop = entry ≤F stop
  PastBreakeven sell entry stop = stop ≤F entry

module _ {F : Type 0} ⦃fl : Float F⦄ ⦃ieee : Ieee F⦄ where
  not_above : (x : F) → x ≤F nought → fmax nought x ≡ nought
  unfolding fmax ◌<F◌
  not_above x h = ground arith

  past-heat :
      (loss qty : F)
      → IsFinite qty
      → (qty <=F nought) ≡ false
      → loss ≤F nought
      → fmax nought (loss *F qty) ≡ nought
  past-heat loss qty fq h l =
      let above = not-le→Less qty nought (ieee.finite-IsReal qty fq) (zero-IsReal F) h in
      not_above (loss *F qty) (ieee.mul-nonpos loss qty fq l above)

  -- No position has negative heat, and a position whose stop is past breakeven has none.
  pub position_heat_lem :
      (direction : Direction) (entry stop qty : F)
      → IsFinite entry
      → IsFinite stop
      → IsFinite qty
      → (nought ≤F position_heat direction entry stop qty)
        × (PastBreakeven direction entry stop → position_heat direction entry stop qty ≡ nought)
  unfolding position_heat
  position_heat_lem direction entry stop qty fe fs fq = elim (Bool-cases (qty <=F nought)) [
    | inl none_left ↦ rw none_left (≤F-refl {F = F} nought (zero-IsReal F), λ p. refl)
    | inr some_left ↦
        rw some_left (fmax-ge_left {F = F} nought _ (zero-IsReal F), past direction some_left)
  ]
    where
      past :
          (d : Direction)
          → (qty <=F nought) ≡ false
          → PastBreakeven d entry stop
          → fmax nought (elim d [ buy ↦ entry -F stop | sell ↦ stop -F entry ] *F qty) ≡ nought
      past buy h p = past-heat (entry -F stop) qty fq h (ieee.sub-nonpos entry stop fe fs p)
      past sell h p = past-heat (stop -F entry) qty fq h (ieee.sub-nonpos stop entry fs fe p)
