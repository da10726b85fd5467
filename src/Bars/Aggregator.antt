-- ===== src/Bars/Aggregator.antt =====
-- src/data/bar_aggregator.py: `BarAggregator`.
use trading_os.Common.{Option, none, some, if◌then◌else◌}
use trading_os.Common.Effects.{Result, ok, err, Method}
use trading_os.Float.{Float, ◌+F◌, ◌-F◌, ◌<F◌, ◌<=F◌, ◌==F◌, fmax, fmin, nought}

-- The arguments of `on_tick`.
pub record BarTick (F : Type 0) : Type 0 where
  pub ts : F
  pub price : F
  pub volume : F

pub record FeedBar (F : Type 0) : Type 0 where
  pub ts : F
  pub open_price : F
  pub high : F
  pub low : F
  pub close : F
  pub volume : F

pub record BarAggregator (F : Type 0) : Type 0 where
  pub interval : F
  pub open_bar : Option (FeedBar F)

pub data BarError : Type 0 where
  interval_not_positive tick_not_positive : BarError

module _ {F : Type 0} ⦃fl : Float F⦄ where
  unfoldable pub new_aggregator : F → Result BarError (BarAggregator F)
  new_aggregator interval_s =
      if interval_s <=F nought
      then err interval_not_positive
      else ok (record { interval = interval_s; open_bar = none })

  abbrev pub bucket : F → F → F
  bucket interval ts = ts -F fl.modulo ts interval

  abbrev pub first_bar : F → BarTick F → FeedBar F
  first_bar b t = record {
    ts = b;
    open_price = t.price;
    high = t.price;
    low = t.price;
    close = t.price;
    volume = t.volume;
  }

  abbrev pub absorb : BarTick F → FeedBar F → FeedBar F
  absorb t bar = record bar {
    high = fmax bar.high t.price;
    low = fmin bar.low t.price;
    close = t.price;
    volume = bar.volume +F t.volume;
  }

  -- the bar that is done, and the bar that is open then
  abbrev pub into_bar : F → BarTick F → Option (FeedBar F) → Option (FeedBar F) × FeedBar F
  into_bar b t none = (none, first_bar b t)
  into_bar b t (some bar) =
      if b <F bar.ts
      then (none, bar)
      else if b ==F bar.ts
      then (none, absorb t bar)
      else (some bar, first_bar b t)

  unfoldable pub on_tick : BarTick F → Method (BarAggregator F) BarError (Option (FeedBar F))
  on_tick t agg =
      if t.price <=F nought
      then (err tick_not_positive, agg)
      else let p = into_bar (bucket agg.interval t.ts) t agg.open_bar in
        (ok p.0, record agg { open_bar = some p.1 })

  unfoldable pub flush : BarAggregator F → Option (FeedBar F) × BarAggregator F
  flush agg = (agg.open_bar, record agg { open_bar = none })
