-- ===== src/Matrix/Tests.antt =====
-- The theorems on the candles and the gap handler, at concrete ticks.
use option_chain_based_strat.Common.{
  ◌≡◌, refl, ℕ, ◌+◌, ◌-◌, true, none, some, map, List, [], ◌∷◌, if◌then◌else◌, string_eq,
}
use option_chain_based_strat.Common.Dict.{lookup}
use option_chain_based_strat.Matrix.Candle.{Stamp, Tick, CandleBucket}
use option_chain_based_strat.Matrix.Series.{empty_series, feed}
use option_chain_based_strat.Matrix.Windows.{Log, view}
use option_chain_based_strat.Matrix.Refines.{event_of}
use option_chain_based_strat.Matrix.Partition.{IsPartition, feed-windows}
use option_chain_based_strat.Matrix.Cache.{SeriesKey, series_key_eq, Cache}
use option_chain_based_strat.Matrix.Gap.{
  fresh, Gap, Restore, clear_and_restore, on_gap_ticks, on_gap_tick, conclude, fire_gap_reset,
  drift_over, gap_was_fired,
}
use option_chain_based_strat.Matrix.Gap.Outcome.{outcome, on_gap_ticks-outcome}
use option_chain_based_strat.Matrix.Gap.Once.{resets, on_gap_ticks-once}
use option_chain_based_strat.Matrix.Gap.Restored.{find_series, clear_and_restore-stale}

abbrev tick : ℕ → ℕ → ℕ → Tick
tick hour minute price = record {
  symbol = "NIFTY";
  ltp = price;
  opening = price;
  high = price + 2;
  low = price - 3;
  volume = 10;
  timestamp = record { day = 20; hour = hour; minute = minute; second = 30; microsecond = 0 };
}

-- A reference at 9:10, an opening that is two percent higher, and a quiet tick.
abbrev morning : List Tick
morning = tick 9 10 10_000 ∷ tick 9 16 10_200 ∷ tick 9 17 10_300 ∷ tick 9 21 10_250 ∷ []

abbrev handler : Gap
handler = record {
  states = ("NIFTY", fresh) ∷ [];
  callbacks = 1 ∷ 2 ∷ [];
  cache = some [];
  restore = none;
  timeframes = 5 ∷ [];
  effects = [];
}

feed-windows_example :
    (log : Log) × IsPartition 5 morning log
    × (feed 5 morning [] empty_series ≡ some (map (event_of "NIFTY" 5) log.closed, view log))
feed-windows_example = feed-windows "NIFTY" 4 morning (refl, (refl, (refl, (refl, tt))))

on_gap_ticks-outcome_example :
    lookup "NIFTY" (on_gap_ticks morning handler).states ≡ some (outcome "NIFTY" morning)
on_gap_ticks-outcome_example = on_gap_ticks-outcome "NIFTY" morning handler refl

on_gap_ticks-once_example :
    resets "NIFTY" (on_gap_ticks morning handler).effects
    ≡ (if gap_was_fired "NIFTY" (on_gap_ticks morning handler) then 1 else 0)
unfolding resets
on_gap_ticks-once_example = on_gap_ticks-once "NIFTY" morning handler refl refl

-- The opening is checked with the tick of 9:16, and the gap is seen.
gap_seen : gap_was_fired "NIFTY" (on_gap_ticks morning handler) ≡ true
unfolding gap_was_fired on_gap_ticks on_gap_tick conclude fire_gap_reset drift_over
gap_seen = refl

abbrev key : SeriesKey
key = record { symbol = "NIFTY"; tf = 5 }

abbrev stamp : ℕ → ℕ → Stamp
stamp hour minute = record { day = 20; hour = hour; minute = minute; second = 0; microsecond = 0 }

abbrev row : CandleBucket
row = record { ts = stamp 9 0; opening = 100; high = 110; low = 90; close = 105; volume = 7 }

abbrev persistence : Restore
persistence _ _ _ = some ((key, row ∷ []) ∷ [])

abbrev stale : Cache
stale = (key, record { candles = row ∷ row ∷ []; bucket = some row }) ∷ []

clear_and_restore-stale_example :
    find_series key (clear_and_restore (some persistence) (5 ∷ []) "NIFTY" (some stale))
    ≡ find_series key (clear_and_restore (some persistence) (5 ∷ []) "NIFTY" (some []))
clear_and_restore-stale_example =
    clear_and_restore-stale "NIFTY" key refl (some persistence) (5 ∷ []) stale []
