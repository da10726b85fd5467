-- ===== src/Bars/Grouping.antt =====
-- src/data/bar_aggregator.py: the bars of a session against its ticks, grouped by their buckets.
use trading_os.Common.{
  ◌≡◌, refl, sym, ◌∙◌, ap, arith, true, false, Option, none, some, List, [], ◌∷◌, ◌++◌, ++-assoc,
  ++-nil, map, if◌then◌else◌, Bool-cases, inl, inr,
}
use trading_os.Common.Effects.{Result, ok, err}
use trading_os.Float.{Float, ◌+F◌, ◌<F◌, ◌<=F◌, ◌==F◌, fmax, fmin, nought}
use trading_os.Bars.Aggregator.{
  BarTick, FeedBar, BarAggregator, BarError, bucket, first_bar, absorb, on_tick, flush,
}

-- The ticks of one bucket: its start, the first tick, and the others.
pub record Group (F : Type 0) : Type 0 where
  pub start : F
  pub first : BarTick F
  pub others : List (BarTick F)

module _ {F : Type 0} where
  abbrev given : Option (FeedBar F) → List (FeedBar F)
  given none = []
  given (some bar) = bar ∷ []

  abbrev emitted : Result BarError (Option (FeedBar F)) → List (FeedBar F)
  emitted (ok o) = given o
  emitted (err e) = []

module _ {F : Type 0} ⦃fl : Float F⦄ where
  -- the bars that come out of the aggregator, tick by tick and at the end of the session
  unfoldable pub bars_of : List (BarTick F) → BarAggregator F → List (FeedBar F)
  bars_of [] agg = given (flush agg).0
  bars_of (t ∷ ts) agg = emitted (on_tick t agg).0 ++ bars_of ts (on_tick t agg).1

  abbrev highest : F → List (BarTick F) → F
  highest h [] = h
  highest h (t ∷ ts) = highest (fmax h t.price) ts

  abbrev lowest : F → List (BarTick F) → F
  lowest l [] = l
  lowest l (t ∷ ts) = lowest (fmin l t.price) ts

  abbrev closing : F → List (BarTick F) → F
  closing p [] = p
  closing p (t ∷ ts) = closing t.price ts

  abbrev volume_from : F → List (BarTick F) → F
  volume_from v [] = v
  volume_from v (t ∷ ts) = volume_from (v +F t.volume) ts

  -- the bar of a group
  abbrev pub bar_of : Group F → FeedBar F
  bar_of g = record {
    ts = g.start;
    open_price = g.first.price;
    high = highest g.first.price g.others;
    low = lowest g.first.price g.others;
    close = closing g.first.price g.others;
    volume = volume_from g.first.volume g.others;
  }

  -- what of the next groups is in the bucket that starts at `b`, and the rest
  abbrev taken : F → List (Group F) → List (BarTick F)
  taken b [] = []
  taken b (g ∷ gs) = if g.start ==F b then g.first ∷ g.others else []

  abbrev rest : F → List (Group F) → List (Group F)
  rest b [] = []
  rest b (g ∷ gs) = if g.start ==F b then gs else g ∷ gs

  -- the ticks by runs of equal buckets
  abbrev pub groups : F → List (BarTick F) → List (Group F)
  groups interval [] = []
  groups interval (t ∷ ts) =
      let b = bucket interval t.ts in
      let later = groups interval ts in
      record { start = b; first = t; others = taken b later } ∷ rest b later

  -- no tick is of a bucket before that of the tick before it, and all prices are above 0
  abbrev pub IsFeed : F → F → List (BarTick F) → Type 0
  IsFeed interval b [] = Unit
  IsFeed interval b (t ∷ ts) =
      ((t.price <=F nought) ≡ false)
      × ((bucket interval t.ts <F b) ≡ false)
      × IsFeed interval (bucket interval t.ts) ts

  same_below : (a b c : F) → (b ==F c) ≡ true → (a <F b) ≡ false → (a <F c) ≡ false
  unfolding ◌<F◌ ◌==F◌
  same_below a b c h k = ground (arith, h, k)

  same_test : (a b c : F) → (b ==F c) ≡ true → (a ==F b) ≡ (a ==F c)
  unfolding ◌==F◌
  same_test a b c h = ground (arith, h)

  same-IsFeed :
      (interval b c : F) (ts : List (BarTick F))
      → (b ==F c) ≡ true
      → IsFeed interval b ts
      → IsFeed interval c ts
  same-IsFeed interval b c [] h f = tt
  same-IsFeed interval b c (t ∷ ts) h f = (f.0, same_below (bucket interval t.ts) b c h f.1, f.2)

  same_taken : (b c : F) (gs : List (Group F)) → (b ==F c) ≡ true → taken b gs ≡ taken c gs
  same_taken b c [] h = refl
  same_taken b c (g ∷ gs) h =
      ap (λ x. if x then g.first ∷ g.others else []) (same_test g.start b c h)

  same_rest : (b c : F) (gs : List (Group F)) → (b ==F c) ≡ true → rest b gs ≡ rest c gs
  same_rest b c [] h = refl
  same_rest b c (g ∷ gs) h = ap (λ x. if x then gs else g ∷ gs) (same_test g.start b c h)

  highest-snoc :
      (h : F) (us : List (BarTick F)) (t : BarTick F)
      → highest h (us ++ (t ∷ [])) ≡ fmax (highest h us) t.price
  highest-snoc h [] t = refl
  highest-snoc h (u ∷ us) t = highest-snoc (fmax h u.price) us t

  lowest-snoc :
      (l : F) (us : List (BarTick F)) (t : BarTick F)
      → lowest l (us ++ (t ∷ [])) ≡ fmin (lowest l us) t.price
  lowest-snoc l [] t = refl
  lowest-snoc l (u ∷ us) t = lowest-snoc (fmin l u.price) us t

  closing-snoc :
      (p : F) (us : List (BarTick F)) (t : BarTick F) → closing p (us ++ (t ∷ [])) ≡ t.price
  closing-snoc p [] t = refl
  closing-snoc p (u ∷ us) t = closing-snoc u.price us t

  volume-snoc :
      (v : F) (us : List (BarTick F)) (t : BarTick F)
      → volume_from v (us ++ (t ∷ [])) ≡ volume_from v us +F t.volume
  volume-snoc v [] t = refl
  volume-snoc v (u ∷ us) t = volume-snoc (v +F u.volume) us t

  -- the group of a bucket that has these ticks
  abbrev group_of : F → BarTick F → List (BarTick F) → Group F
  group_of b first us = record { start = b; first = first; others = us }

  absorb-bar_of :
      (b : F) (first t : BarTick F) (us : List (BarTick F))
      → absorb t (bar_of (group_of b first us)) ≡ bar_of (group_of b first (us ++ (t ∷ [])))
  absorb-bar_of b first t us = cc (
    highest-snoc first.price us t,
    lowest-snoc first.price us t,
    closing-snoc first.price us t,
    volume-snoc first.volume us t,
  )

  abbrev holding : F → FeedBar F → BarAggregator F
  holding interval bar = record { interval = interval; open_bar = some bar }

  on_tick_lem :
      (interval : F) (t : BarTick F) (bar : FeedBar F)
      → (t.price <=F nought) ≡ false
      → (bucket interval t.ts <F bar.ts) ≡ false
      → on_tick t (holding interval bar) ≡ (
          if bucket interval t.ts ==F bar.ts
          then (ok none, holding interval (absorb t bar))
          else (ok (some bar), holding interval (first_bar (bucket interval t.ts) t)))
  unfolding on_tick
  on_tick_lem interval t bar h k = ground (arith, h, k)

  -- the bars from an aggregator that holds the bar of a group
  abbrev AreGrouped : F → F → BarTick F → List (BarTick F) → List (BarTick F) → Type 0
  AreGrouped interval b first us ts =
      bars_of ts (holding interval (bar_of (group_of b first us)))
      ≡ bar_of (group_of b first (us ++ taken b (groups interval ts)))
        ∷ map bar_of (rest b (groups interval ts))

  -- what a tick gives, and the bars after it
  abbrev bars_after :
      List (BarTick F) → Result BarError (Option (FeedBar F)) × BarAggregator F → List (FeedBar F)
  bars_after ts p = emitted p.0 ++ bars_of ts p.1

  same_bucket :
      (interval b : F) (first t : BarTick F) (us ts : List (BarTick F))
      → IsFeed interval b (t ∷ ts)
      → (bucket interval t.ts ==F b) ≡ true
      → AreGrouped interval b first (us ++ (t ∷ [])) ts
      → AreGrouped interval b first us (t ∷ ts)
  unfolding bars_of
  same_bucket interval b first t us ts f e ih =
      let c = bucket interval t.ts in
      let gs = groups interval ts in
      let bar = bar_of (group_of b first us) in
      ap (bars_after ts) (
        on_tick_lem interval t bar f.0 f.1
        ∙ ap
            (λ x.
              if x
              then (ok none, holding interval (absorb t bar))
              else (ok (some bar), holding interval (first_bar c t)))
            e)
      ∙ ap (λ r. bars_of ts (holding interval r)) (absorb-bar_of b first t us)
      ∙ ih
      ∙ ap (λ xs. bar_of (group_of b first xs) ∷ map bar_of (rest b gs))
          (++-assoc us (t ∷ []) (taken b gs))
      ∙ ap (λ xs. bar_of (group_of b first (us ++ (t ∷ xs))) ∷ map bar_of (rest b gs))
          (sym (same_taken c b gs e))
      ∙ ap (λ xs. bar_of (group_of b first (us ++ (t ∷ taken c gs))) ∷ map bar_of xs)
          (sym (same_rest c b gs e))
      ∙ ap
          (λ x.
            bar_of (group_of b first (us ++ (if x then t ∷ taken c gs else [])))
            ∷ map bar_of (if x then rest c gs else group_of c t (taken c gs) ∷ rest c gs))
          (sym e)

  new_bucket :
      (interval b : F) (first t : BarTick F) (us ts : List (BarTick F))
      → IsFeed interval b (t ∷ ts)
      → (bucket interval t.ts ==F b) ≡ false
      → AreGrouped interval (bucket interval t.ts) t [] ts
      → AreGrouped interval b first us (t ∷ ts)
  unfolding bars_of
  new_bucket interval b first t us ts f e ih =
      let c = bucket interval t.ts in
      let gs = groups interval ts in
      let bar = bar_of (group_of b first us) in
      ap (bars_after ts) (
        on_tick_lem interval t bar f.0 f.1
        ∙ ap
            (λ x.
              if x
              then (ok none, holding interval (absorb t bar))
              else (ok (some bar), holding interval (first_bar c t)))
            e)
      ∙ ap (λ r. bar ∷ r) ih
      ∙ ap (λ xs. bar_of (group_of b first xs) ∷ map bar_of (group_of c t (taken c gs) ∷ rest c gs))
          (sym (++-nil us))
      ∙ ap
          (λ x.
            bar_of (group_of b first (us ++ (if x then t ∷ taken c gs else [])))
            ∷ map bar_of (if x then rest c gs else group_of c t (taken c gs) ∷ rest c gs))
          (sym e)

  grouped :
      (interval b : F) (first : BarTick F) (us ts : List (BarTick F))
      → IsFeed interval b ts
      → AreGrouped interval b first us ts
  unfolding bars_of flush
  grouped interval b first us [] f = ap (λ us. bar_of (group_of b first us) ∷ []) (sym (++-nil us))
  grouped interval b first us (t ∷ ts) f = elim (Bool-cases (bucket interval t.ts ==F b)) [
    | inl e ↦ same_bucket interval b first t us ts f e (
        grouped interval b first (us ++ (t ∷ [])) ts
          (same-IsFeed interval (bucket interval t.ts) b ts e f.2))
    | inr e ↦
        new_bucket interval b first t us ts f e
          (grouped interval (bucket interval t.ts) t [] ts f.2)
  ]

  empty_lem :
      (interval : F) (t : BarTick F)
      → (t.price <=F nought) ≡ false
      → on_tick t (record { interval = interval; open_bar = none })
        ≡ (ok none, holding interval (first_bar (bucket interval t.ts) t))
  unfolding on_tick
  empty_lem interval t h = ground (arith, h)

  -- all prices are above 0, and no tick is of a bucket before that of the tick before it
  abbrev pub IsSession : F → List (BarTick F) → Type 0
  IsSession interval [] = Unit
  IsSession interval (t ∷ ts) =
      ((t.price <=F nought) ≡ false) × IsFeed interval (bucket interval t.ts) ts

-- For the ticks of a session, with prices above 0 and none of an earlier bucket than the one before:
-- the bars that a new aggregator emits tick by tick, and the one that the flush at the end gives, are
-- exactly the bars of the runs of ticks with equal buckets, in order, one for each run: its first and
-- last price, the highest and the lowest, and the sum of its volumes.
pub bars_of-groups :
    {F : Type 0} ⦃fl : Float F⦄ (interval : F) (ticks : List (BarTick F))
    → IsSession interval ticks
    → bars_of ticks (record { interval = interval; open_bar = none })
      ≡ map bar_of (groups interval ticks)
unfolding bars_of flush
bars_of-groups interval [] h = refl
bars_of-groups interval (t ∷ ts) h =
    ap (bars_after ts) (empty_lem interval t h.0)
    ∙ grouped interval (bucket interval t.ts) t [] ts h.1
