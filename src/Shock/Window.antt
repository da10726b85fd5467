-- ===== src/Shock/Window.antt =====
-- src/intel/anomaly_guard.py: `_TickWindow`, the ticks of the last seconds, and that popping the old
-- ones from the left is the same as keeping the recent ones.
use trading_os.Common.{
  ◌≡◌, refl, arith, false, Option, none, some, List, [], ◌∷◌, ◌++◌, if◌then◌else◌,
}
use trading_os.Float.{Float, ◌+F◌, ◌-F◌, ◌/F◌, ◌<F◌, ◌<=F◌, nought, ◌≤F◌}

pub record Tick (F : Type 0) : Type 0 where
  pub ts : F
  pub price : F
  pub bid : F
  pub ask : F
  pub volume : F

pub record TickWindow (F : Type 0) : Type 0 where
  pub ticks : List (Tick F)
  pub max_age : F

module _ {F : Type 0} ⦃fl : Float F⦄ where
  -- the `popleft` loop of `add`
  abbrev pub pop_older : F → List (Tick F) → List (Tick F)
  pop_older cutoff [] = []
  pop_older cutoff (t ∷ ts) =
      let rest = pop_older cutoff ts in if t.ts <F cutoff then rest else t ∷ ts

  unfoldable pub add : Tick F → TickWindow F → TickWindow F
  add tick w = record w { ticks = pop_older (tick.ts -F w.max_age) (w.ticks ++ (tick ∷ [])) }

  -- `self.ticks[-1]`
  abbrev pub last_tick : List (Tick F) → Option (Tick F)
  last_tick [] = none
  last_tick (t ∷ []) = some t
  last_tick (t ∷ u ∷ ts) = last_tick (u ∷ ts)

  -- the last tick before the first one after the target
  abbrev pub base_tick : F → Option (Tick F) → List (Tick F) → Option (Tick F)
  base_tick target base [] = base
  base_tick target base (t ∷ ts) =
      let later = base_tick target (some t) ts in if t.ts <=F target then later else base

  abbrev pub return_from : Tick F → Option (Tick F) → Option F
  return_from last none = none
  return_from last (some base) =
      if base.price <=F nought then none else some ((last.price -F base.price) /F base.price)

  abbrev pub return_to : F → List (Tick F) → Option (Tick F) → Option F
  return_to seconds ticks none = none
  return_to seconds ticks (some last) = return_from last (base_tick (last.ts -F seconds) none ticks)

  unfoldable pub return_over : F → TickWindow F → Option F
  return_over seconds w = return_to seconds w.ticks (last_tick w.ticks)

  abbrev pub volume_since : F → F → List (Tick F) → F
  volume_since cutoff acc [] = acc
  volume_since cutoff acc (t ∷ ts) =
      volume_since cutoff (if cutoff <=F t.ts then acc +F t.volume else acc) ts

  abbrev pub volume_to : F → List (Tick F) → Option (Tick F) → F
  volume_to seconds ticks none = nought
  volume_to seconds ticks (some last) = volume_since (last.ts -F seconds) nought ticks

  unfoldable pub volume_over : F → TickWindow F → F
  volume_over seconds w = volume_to seconds w.ticks (last_tick w.ticks)

  -- the ticks that are not older than the cutoff, wherever they stand
  abbrev pub recent : F → List (Tick F) → List (Tick F)
  recent cutoff [] = []
  recent cutoff (t ∷ ts) = let rest = recent cutoff ts in if t.ts <F cutoff then rest else t ∷ rest

  abbrev pub AllLater : F → List (Tick F) → Type 0
  AllLater a [] = Unit
  AllLater a (t ∷ ts) = (a ≤F t.ts) × AllLater a ts

  -- no tick is older than one before it
  abbrev pub InOrder : List (Tick F) → Type 0
  InOrder [] = Unit
  InOrder (t ∷ ts) = AllLater t.ts ts × InOrder ts

  keep_all :
      (cutoff a : F) (ts : List (Tick F))
      → (a <F cutoff) ≡ false
      → AllLater a ts
      → recent cutoff ts ≡ ts
  unfolding ◌<F◌
  keep_all cutoff a [] h k = refl
  keep_all cutoff a (t ∷ ts) h k = ground (arith, keep_all cutoff a ts h k.1, k.0)

  pop_older-recent :
      (cutoff : F) (ts : List (Tick F)) → InOrder ts → pop_older cutoff ts ≡ recent cutoff ts
  pop_older-recent cutoff [] h = refl
  pop_older-recent cutoff (t ∷ ts) h =
      ground (arith, pop_older-recent cutoff ts h.1, keep_all cutoff t.ts ts)

-- When the ticks of a window, with the new one at the end, are in the order of their times (equal
-- times allowed), popping old ticks from the left until the first one is recent leaves exactly the
-- ticks that are not older than the window's age before the new tick, in their order.
pub add-recent :
    {F : Type 0} ⦃fl : Float F⦄ (tick : Tick F) (w : TickWindow F)
    → InOrder (w.ticks ++ (tick ∷ []))
    → (add tick w).ticks ≡ recent (tick.ts -F w.max_age) (w.ticks ++ (tick ∷ []))
unfolding add
add-recent tick w h = pop_older-recent (tick.ts -F w.max_age) (w.ticks ++ (tick ∷ [])) h
