-- ===== src/Paper/Tradebook.antt =====
-- src/core/paper_broker.py: the account that a tradebook describes, and the calls that move the
-- broker's account exactly as their fills say.
use native.Mathlib.Omega.{arith}
use text.Mathlib.Text.{◌==◌ as str_eq}
use text.Mathlib.TextEquality.{eq_iff}
use trading_os.Common.{
  ◌≡◌, refl, sym, ◌∙◌, ap, String, List, [], ◌∷◌, ◌++◌, ++-assoc, ++-nil, get_or, if◌then◌else◌,
}
use trading_os.Common.Dict.{Dict, lookup, insert, lookup-insert}
use trading_os.Common.Effects.{Result, ok, err}
use trading_os.Common.Steps.{IsPreorder, Respects, Within, stay-Respects}
use trading_os.Float.{Float, ◌+F◌}
use trading_os.Orders.Record.{Direction}
use trading_os.Paper.Broker.{
  PaperConfig, PaperFill, PaperPosition, PaperBroker, PaperError, PaperMethod, flat, moved,
  cash_flow, record_fill, settle, fill, fill_cost, fill_price,
}

module _ {F : Type 0} ⦃fl : Float F⦄ where
  -- the account that a tradebook describes
  abbrev pub cash_after : F → List (PaperFill F) → F
  cash_after cash [] = cash
  cash_after cash (f ∷ fs) = cash_after (cash +F cash_flow f.action f.qty f.price f.cost) fs

  abbrev pub costs_after : F → List (PaperFill F) → F
  costs_after costs [] = costs
  costs_after costs (f ∷ fs) = costs_after (costs +F f.cost) fs

  abbrev pub position_after : String → PaperPosition F → List (PaperFill F) → PaperPosition F
  position_after symbol p [] = p
  position_after symbol p (f ∷ fs) =
      position_after symbol (if str_eq f.symbol symbol then moved p f.action f.qty f.price else p)
        fs

  abbrev pub position_of : String → PaperBroker F → PaperPosition F
  position_of symbol b = get_or (lookup symbol b.positions) flat

-- The tradebook of the second state has the fills `new` after those of the first state, and the
-- account has moved by them.
pub record Moved {F : Type 0} ⦃fl : Float F⦄ (b c : PaperBroker F) (new : List (PaperFill F))
    : Type 0 where
  pub fills : c.fills ≡ b.fills ++ new
  pub cash : c.cash ≡ cash_after b.cash new
  pub costs : c.total_costs ≡ costs_after b.total_costs new
  pub position : (s : String) → position_of s c ≡ position_after s (position_of s b) new

pub record Booked {F : Type 0} ⦃fl : Float F⦄ (b c : PaperBroker F) : Type 0 where
  pub new : List (PaperFill F)
  pub moves : Moved b c new

abbrev pub Quiet : {F : Type 0} → PaperBroker F → PaperBroker F → Type 0
Quiet b c =
    (c.fills ≡ b.fills)
    × (c.cash ≡ b.cash)
    × (c.total_costs ≡ b.total_costs)
    × (c.positions ≡ b.positions)

module _ {F : Type 0} ⦃fl : Float F⦄ where
  cash_after-++ :
      (c : F) (xs ys : List (PaperFill F))
      → cash_after c (xs ++ ys) ≡ cash_after (cash_after c xs) ys
  cash_after-++ c [] ys = refl
  cash_after-++ c (x ∷ xs) ys = cash_after-++ (c +F cash_flow x.action x.qty x.price x.cost) xs ys

  costs_after-++ :
      (c : F) (xs ys : List (PaperFill F))
      → costs_after c (xs ++ ys) ≡ costs_after (costs_after c xs) ys
  costs_after-++ c [] ys = refl
  costs_after-++ c (x ∷ xs) ys = costs_after-++ (c +F x.cost) xs ys

  position_after-++ :
      (s : String) (p : PaperPosition F) (xs ys : List (PaperFill F))
      → position_after s p (xs ++ ys) ≡ position_after s (position_after s p xs) ys
  position_after-++ s p [] ys = refl
  position_after-++ s p (x ∷ xs) ys =
      position_after-++ s (if str_eq x.symbol s then moved p x.action x.qty x.price else p) xs ys

  Moved-trans :
      (b c d : PaperBroker F) (xs ys : List (PaperFill F))
      → Moved b c xs
      → Moved c d ys
      → Moved b d (xs ++ ys)
  Moved-trans b c d xs ys h k = record {
    fills = cc (h.fills, k.fills, ++-assoc b.fills xs ys);
    cash = cc (h.cash, k.cash, cash_after-++ b.cash xs ys);
    costs = cc (h.costs, k.costs, costs_after-++ b.total_costs xs ys);
    position = λ s. cc (h.position s, k.position s, position_after-++ s (position_of s b) xs ys);
  }

  pub quiet : (b c : PaperBroker F) → Quiet b c → Booked b c
  quiet b c (f, m, t, p) = record {
    new = [];
    moves = record {
      fills = f ∙ sym (++-nil b.fills);
      cash = m;
      costs = t;
      position = λ s. ap (λ d. get_or (lookup s d) flat) p;
    };
  }

  pub Booked-IsPreorder : IsPreorder {S = PaperBroker F} (λ b c. Booked b c)
  Booked-IsPreorder = record {
    reflexive = λ b. quiet b b (refl, refl, refl, refl);
    transitive = λ b c d h k. record {
      new = h.new ++ k.new;
      moves = Moved-trans b c d h.new k.new h.moves k.moves;
    };
  }

  update-lookup :
      (s k : String) (p : PaperPosition F) (d : Dict (PaperPosition F))
      (g : PaperPosition F → PaperPosition F)
      → p ≡ g (get_or (lookup k d) flat)
      → get_or (lookup s (insert k p d)) flat
        ≡ (if str_eq k s then g (get_or (lookup s d) flat) else get_or (lookup s d) flat)
  update-lookup s k p d g h = ground (arith, h, eq_iff k s, lookup-insert k s p d)

  filled : (f : PaperFill F) (b : PaperBroker F) → Booked b (record_fill f b)
  filled f b = record {
    new = f ∷ [];
    moves = record {
      fills = refl;
      cash = refl;
      costs = refl;
      position = λ s.
          update-lookup s f.symbol
            (moved (get_or (lookup f.symbol b.positions) flat) f.action f.qty f.price) b.positions
            (λ p. moved p f.action f.qty f.price) refl;
    };
  }

  -- one outcome from a state
  abbrev pub OutcomeBooked :
      {A : Type 0} → PaperBroker F → Result PaperError A × PaperBroker F → Type 0
  OutcomeBooked b p = Respects (λ b c. Booked b c) b p

  abbrev pub CallsBooked : {A : Type 0} → PaperMethod F A → Type 0
  CallsBooked m = Within (λ b c. Booked b c) m

  settle-Booked :
      (oid symbol : String) (action : Direction) (qty price now : F) (cost : Result PaperError F)
      → CallsBooked (settle oid symbol action qty price now cost)
  settle-Booked oid symbol action qty price now (ok cost) b = record { related = filled _ b }
  settle-Booked oid symbol action qty price now (err e) b =
      stay-Respects Booked-IsPreorder b (err e)

  pub fill-Booked :
      (cfg : PaperConfig F) (now : F) (oid symbol : String) (action : Direction) (qty ref : F)
      (product : String)
      → CallsBooked (fill cfg now oid symbol action qty ref product)
  unfolding fill
  fill-Booked cfg now oid symbol action qty ref product =
      settle-Booked oid symbol action qty (fill_price cfg symbol action qty ref) now
        (fill_cost cfg symbol action qty (fill_price cfg symbol action qty ref) product)

  pub still-Booked :
      {A : Type 0} (g : PaperBroker F → PaperBroker F) (r : Result PaperError A)
      → ((b : PaperBroker F) → Quiet b (g b))
      → CallsBooked (λ b. (r, g b))
  still-Booked g r h b = record { related = quiet b (g b) (h b) }
