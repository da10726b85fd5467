-- ===== src/Shock/Cooloff.antt =====
-- src/intel/anomaly_guard.py: how far apart the shocks of a symbol are that the guard acts on.
use text.Mathlib.Text.{◌==◌ as str_eq}
use text.Mathlib.TextEquality.{eq_iff}
use mathlib.Core.Path.{subst}
use trading_os.Common.{
  ◌≡◌, refl, ◌∙◌, arith, String, Bool, true, false, some, List, [], ◌∷◌, ◌++◌, if◌then◌else◌,
}
use trading_os.Common.Dict.{Dict, lookup, insert, lookup-insert}
use trading_os.Float.{Float, ◌-F◌, ◌<F◌}
use trading_os.Shock.Window.{Tick}
use trading_os.Shock.Guard.{Trigger, ShockConfig, ShockAnswers, AnomalyGuard, cooling, process_tick}
use trading_os.Shock.Reflex.{Fired, process_tick-Fired}

-- A tick of a symbol, and what its calls would raise.
pub record Arrival (F : Type 0) : Type 0 where
  pub symbol : String
  pub tick : Tick F
  pub answers : ShockAnswers F

module _ {F : Type 0} ⦃fl : Float F⦄ where
  -- the shock that a tick's triggers make
  abbrev pub shock_of : String → F → List (Trigger F) → List (String × F)
  shock_of symbol ts [] = []
  shock_of symbol ts (t ∷ more) = (symbol, ts) ∷ []

  -- the symbols and times of the shocks that the guard acts on in a sequence of ticks
  unfoldable pub shocks : ShockConfig F → List (Arrival F) → AnomalyGuard F → List (String × F)
  shocks cfg [] g = []
  shocks cfg (a ∷ later) g =
      shock_of a.symbol a.tick.ts (process_tick cfg a.answers a.symbol a.tick g).0
      ++ shocks cfg later (process_tick cfg a.answers a.symbol a.tick g).1

  -- the next shock of the symbol is not within the cool-off of this time
  abbrev pub NextIsFar : ShockConfig F → String → F → List (String × F) → Type 0
  NextIsFar cfg symbol last [] = Unit
  NextIsFar cfg symbol last ((s, ts) ∷ rest) =
      if str_eq symbol s
      then (((ts -F last) <F cfg.cooloff_seconds) ≡ false)
      else NextIsFar cfg symbol last rest

  abbrev pub AreSpaced : ShockConfig F → List (String × F) → Type 0
  AreSpaced cfg [] = Unit
  AreSpaced cfg ((s, ts) ∷ rest) = NextIsFar cfg s ts rest × AreSpaced cfg rest

  -- every time that the guard remembers is far from what comes
  abbrev Remembered : ShockConfig F → Dict F → List (String × F) → Type 0
  Remembered cfg last fs = (s : String) (t : F) → lookup s last ≡ some t → NextIsFar cfg s t fs

  fired_now :
      (cfg : ShockConfig F) (last : Dict F) (symbol : String) (ts : F) (fs : List (String × F))
      → cooling cfg ts (lookup symbol last) ≡ false
      → Remembered cfg (insert symbol ts last) fs
      → Remembered cfg last ((symbol, ts) ∷ fs)
  fired_now cfg last symbol ts fs c h s t e = by_name (str_eq s symbol) refl
    where
      same : str_eq s symbol ≡ true → s ≡ symbol
      same n = grind (arith, n, eq_iff s symbol)

      cooled : s ≡ symbol → ((ts -F t) <F cfg.cooloff_seconds) ≡ cooling cfg ts (lookup symbol last)
      cooled n = cc (n, e)

      other : str_eq s symbol ≡ false → lookup s (insert symbol ts last) ≡ some t
      other n =
          ground (arith, n, e, eq_iff s symbol, eq_iff symbol s, lookup-insert symbol s ts last)

      by_name :
          (b : Bool)
          → str_eq s symbol ≡ b
          → (if b then (((ts -F t) <F cfg.cooloff_seconds) ≡ false) else NextIsFar cfg s t fs)
      by_name true n = cooled (same n) ∙ c
      by_name false n = h s t (other n)

  -- what a tick adds
  one_more :
      (cfg : ShockConfig F) (out : ShockAnswers F) (symbol : String) (ts : F) (g h : AnomalyGuard F)
      (triggers : List (Trigger F)) (fs : List (String × F))
      → Fired cfg out symbol ts g triggers h
      → Remembered cfg h.last_shock_ts fs × AreSpaced cfg fs
      → Remembered cfg g.last_shock_ts (shock_of symbol ts triggers ++ fs)
        × AreSpaced cfg (shock_of symbol ts triggers ++ fs)
  one_more cfg out symbol ts g h [] fs a k = (subst (λ l. Remembered cfg l fs) a.times k.0, k.1)
  one_more cfg out symbol ts g h (t ∷ more) fs a k =
      let r : Remembered cfg (insert symbol ts g.last_shock_ts) fs =
        subst (λ l. Remembered cfg l fs) a.1 k.0 in
      (fired_now cfg g.last_shock_ts symbol ts fs a.0 r, (r symbol ts (found cfg symbol ts g), k.1))
    where
      found :
          (cfg : ShockConfig F) (symbol : String) (ts : F) (g : AnomalyGuard F)
          → lookup symbol (insert symbol ts g.last_shock_ts) ≡ some ts
      found cfg symbol ts g =
          ground (arith, eq_iff symbol symbol, lookup-insert symbol symbol ts g.last_shock_ts)

  shocks-spaced :
      (cfg : ShockConfig F) (arrivals : List (Arrival F)) (g : AnomalyGuard F)
      → Remembered cfg g.last_shock_ts (shocks cfg arrivals g)
        × AreSpaced cfg (shocks cfg arrivals g)
  unfolding shocks
  shocks-spaced cfg [] g = (λ s t e. tt, tt)
  shocks-spaced cfg (a ∷ later) g =
      one_more cfg a.answers a.symbol a.tick.ts g (process_tick cfg a.answers a.symbol a.tick g).1
        (process_tick cfg a.answers a.symbol a.tick g).0
        (shocks cfg later (process_tick cfg a.answers a.symbol a.tick g).1)
        (process_tick-Fired cfg a.answers a.symbol a.tick g)
        (shocks-spaced cfg later (process_tick cfg a.answers a.symbol a.tick g).1)

-- In any sequence of ticks of any symbols, from any state and whatever the calls answer: between a
-- shock that the guard acts on and the next one of the same symbol, the difference of their times
-- is not below the cool-off, however many shocks of other symbols stand between them.
pub shocks-AreSpaced :
    {F : Type 0} ⦃fl : Float F⦄ (cfg : ShockConfig F) (arrivals : List (Arrival F))
    (g : AnomalyGuard F)
    → AreSpaced cfg (shocks cfg arrivals g)
shocks-AreSpaced cfg arrivals g = (shocks-spaced cfg arrivals g).1
