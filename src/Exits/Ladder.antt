-- ===== src/Exits/Ladder.antt =====
-- src/exits/exit_manager.py: changes of a position that move the stop toward profit only.
use trading_os.Common.{◌⊎◌, ◌≡◌, refl, sym, ◌∙◌, ap, List, [], ◌∷◌, ◌++◌, arith, inl, inr}
use mathlib.Core.Path.{subst}
use mathlib.Core.List.{append-nil, append_assoc}
use trading_os.Common.Steps.{IsPreorder}
use trading_os.Orders.Record.{Direction, buy, sell}
use trading_os.Float.{Float, Less}
use trading_os.Exits.Position.{
  Call, place_stop, modify_stop, exit_market, replace_stop, cancel_stop, partial_taken,
  position_exited, Work,
}

module _ {F : Type 0} ⦃fl : Float F⦄ where
  -- Strictly nearer to profit.
  abbrev pub Better : Direction → F → F → Type 0
  Better buy a b = Less a b
  Better sell a b = Less b a

  -- The stop went from one price to another by the calls of a list: each modification sent is strictly
  -- better than the stop before it, and a replaced stop has the price of the stop as it is.
  abbrev pub Ladder : Direction → F → List (Call F) → F → Type 0
  Ladder d a [] b = a ≡ b
  Ladder d a (modify_stop id price leg ∷ cs) b = Better d a price × Ladder d price cs b
  Ladder d a (replace_stop id symbol qty price leg direction ∷ cs) b = (price ≡ a) × Ladder d a cs b
  Ladder d a (place_stop symbol qty price leg direction ∷ cs) b = (price ≡ a) × Ladder d a cs b
  Ladder d a (exit_market symbol qty leg direction ∷ cs) b = Ladder d a cs b
  Ladder d a (cancel_stop id leg ∷ cs) b = Ladder d a cs b
  Ladder d a (partial_taken symbol qty price at_r ∷ cs) b = Ladder d a cs b
  Ladder d a (position_exited symbol telemetry ∷ cs) b = Ladder d a cs b

  Ladder-append :
      (d : Direction) (a b c : F) (xs ys : List (Call F))
      → Ladder d a xs b
      → Ladder d b ys c
      → Ladder d a (xs ++ ys) c
  Ladder-append d a b c [] ys p q = rw p q
  Ladder-append d a b c (modify_stop id price leg ∷ xs) ys (g, p) q =
      (g, Ladder-append d price b c xs ys p q)
  Ladder-append d a b c (replace_stop id symbol qty price leg direction ∷ xs) ys (e, p) q =
      (e, Ladder-append d a b c xs ys p q)
  Ladder-append d a b c (place_stop symbol qty price leg direction ∷ xs) ys (e, p) q =
      (e, Ladder-append d a b c xs ys p q)
  Ladder-append d a b c (exit_market symbol qty leg direction ∷ xs) ys p q =
      Ladder-append d a b c xs ys p q
  Ladder-append d a b c (cancel_stop id leg ∷ xs) ys p q = Ladder-append d a b c xs ys p q
  Ladder-append d a b c (partial_taken symbol qty price at_r ∷ xs) ys p q =
      Ladder-append d a b c xs ys p q
  Ladder-append d a b c (position_exited symbol telemetry ∷ xs) ys p q =
      Ladder-append d a b c xs ys p q

  -- The same, or strictly nearer to profit.
  abbrev pub NotWider : Direction → F → F → Type 0
  NotWider d a b = (a ≡ b) ⊎ Better d a b

  Better-trans : (d : Direction) (a b c : F) → Better d a b → Better d b c → Better d a c
  Better-trans buy a b c p q = (p.0, q.1, omega arith)
  Better-trans sell a b c p q = (q.0, p.1, omega arith)

  NotWider-after : (d : Direction) (a b c : F) → Better d a b → NotWider d b c → NotWider d a c
  NotWider-after d a b c p (inl e) = inr (subst (λ x. Better d a x) e p)
  NotWider-after d a b c p (inr q) = inr (Better-trans d a b c p q)

  pub Ladder-NotWider :
      (d : Direction) (a b : F) (cs : List (Call F)) → Ladder d a cs b → NotWider d a b
  Ladder-NotWider d a b [] h = inl h
  Ladder-NotWider d a b (modify_stop id price leg ∷ cs) (g, h) =
      NotWider-after d a price b g (Ladder-NotWider d price b cs h)
  Ladder-NotWider d a b (replace_stop id symbol qty price leg direction ∷ cs) (e, h) =
      Ladder-NotWider d a b cs h
  Ladder-NotWider d a b (place_stop symbol qty price leg direction ∷ cs) (e, h) =
      Ladder-NotWider d a b cs h
  Ladder-NotWider d a b (exit_market symbol qty leg direction ∷ cs) h = Ladder-NotWider d a b cs h
  Ladder-NotWider d a b (cancel_stop id leg ∷ cs) h = Ladder-NotWider d a b cs h
  Ladder-NotWider d a b (partial_taken symbol qty price at_r ∷ cs) h = Ladder-NotWider d a b cs h
  Ladder-NotWider d a b (position_exited symbol telemetry ∷ cs) h = Ladder-NotWider d a b cs h

  -- A change of a position that moves the stop as the broker is told.
  pub record Ratchets (w v : Work F) : Type 0 where
    pub made : List (Call F)
    pub grown : v.calls ≡ w.calls ++ made
    pub same_side : v.pos.direction ≡ w.pos.direction
    pub climbed : Ladder w.pos.direction w.pos.stop made v.pos.stop

  pub Ratchets-refl : (w : Work F) → Ratchets w w
  Ratchets-refl w = record {
    made = [];
    grown = sym (append-nil w.calls);
    same_side = refl;
    climbed = refl;
  }

  Ratchets-trans : (w v u : Work F) → Ratchets w v → Ratchets v u → Ratchets w u
  Ratchets-trans w v u p q = record {
    made = p.made ++ q.made;
    grown = q.grown ∙ ap (λ h. h ++ q.made) p.grown ∙ append_assoc w.calls p.made q.made;
    same_side = q.same_side ∙ p.same_side;
    climbed =
        Ladder-append w.pos.direction w.pos.stop v.pos.stop u.pos.stop p.made q.made p.climbed
          (subst (λ d. Ladder d v.pos.stop q.made u.pos.stop) p.same_side q.climbed);
  }

  pub Ratchets-IsPreorder : IsPreorder Ratchets
  Ratchets-IsPreorder = record { reflexive = Ratchets-refl; transitive = Ratchets-trans }
