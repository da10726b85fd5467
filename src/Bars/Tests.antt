-- ===== src/Bars/Tests.antt =====
-- Four ticks in three buckets, and the theorem at them.
use trading_os.Common.{◌≡◌, refl, ℕ, none, List, [], ◌∷◌, map}
use trading_os.Float.{◌<F◌, ◌<=F◌, ◌==F◌, fmax, fmin}
use trading_os.Float.Fixed.{Fixed, fixed_float, whole}
use trading_os.Bars.Aggregator.{BarTick, FeedBar, on_tick, flush}
use trading_os.Bars.Grouping.{bars_of, bars_of-groups, bar_of, groups}

abbrev tick : ℕ → ℕ → BarTick Fixed
tick ts price = record { ts = whole ts; price = whole price; volume = whole 10 }

abbrev ticks : List (BarTick Fixed)
ticks = tick 310 100 ∷ tick 400 103 ∷ tick 599 99 ∷ tick 601 101 ∷ tick 1500 104 ∷ []

abbrev single : ℕ → ℕ → FeedBar Fixed
single ts price = record {
  ts = whole ts;
  open_price = whole price;
  high = whole price;
  low = whole price;
  close = whole price;
  volume = whole 10;
}

three_bars :
    bars_of ticks (record { interval = whole 300; open_bar = none })
    ≡ (record {
      ts = whole 300;
      open_price = whole 100;
      high = whole 103;
      low = whole 99;
      close = whole 99;
      volume = whole 30;
    })
      ∷ single 600 101
      ∷ single 1500 104
      ∷ []
unfolding bars_of on_tick flush fmax fmin ◌<F◌ ◌<=F◌ ◌==F◌
three_bars = refl

bars_of-groups_example :
    bars_of ticks (record { interval = whole 300; open_bar = none })
    ≡ map bar_of (groups (whole 300) ticks)
unfolding ◌<F◌ ◌<=F◌
bars_of-groups_example =
    bars_of-groups (whole 300) ticks
      (refl, (refl, refl, (refl, refl, (refl, refl, (refl, refl, tt)))))
