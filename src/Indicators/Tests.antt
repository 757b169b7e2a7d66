-- ===== src/Indicators/Tests.antt =====
-- The theorems on the series, at a concrete morning, and what a seed of a full series drops.
use option_chain_based_strat.Common.{◌≡◌, refl, false, none, some, List, [], ◌∷◌, All, arith}
use option_chain_based_strat.Common.Int.{pos, negsuc, ◌+ℤ◌, ◌-ℤ◌, ◌*ℤ◌}
use option_chain_based_strat.Common.Dict.{lookup}
use option_chain_based_strat.Strikes.Sets.{strike_eq}
use option_chain_based_strat.Straddle.Chain.{Key, ce, key_eq}
use option_chain_based_strat.Indicators.Engine.{
  Track, PoolEngine, track_at, PoolEvent, tick_of, bar_of, seed_of, on_pool_events, on_pool_event,
  update_tick, commit_bar, commit_all, commit_track, seed_strike, seed_down,
}
use option_chain_based_strat.Indicators.Groups.{
  tf_groups, resampled, group_bars, max_of, is_committed,
}
use option_chain_based_strat.Indicators.Resampled.{lookup-tf_groups}
use option_chain_based_strat.Indicators.Aligned.{IsAligned, on_pool_events-IsAligned}

abbrev fresh_engine : PoolEngine
fresh_engine = record {
  rsi_len = 14;
  roc_len = 10;
  maxlen = 2;
  latest = [];
  last_atp_ts = [];
  tracks = [];
}

abbrev call : Key
call = (24_000, ce)

-- Two live bars fill the series, and then a seed comes.
abbrev morning : List PoolEvent
morning =
    tick_of 0 call 100 90
    ∷ bar_of (some 0)
    ∷ tick_of 60_000 call 110 95
    ∷ bar_of (some 1)
    ∷ seed_of call (70 ∷ []) (60 ∷ [])
    ∷ []

fresh_engine-IsAligned : IsAligned fresh_engine
fresh_engine-IsAligned k = record { closes_len = refl; atps_len = refl; within = omega arith }

on_pool_events-IsAligned_example :
    All (λ raised. raised ≡ false) (on_pool_events morning fresh_engine).0
    × IsAligned (on_pool_events morning fresh_engine).1
on_pool_events-IsAligned_example =
    on_pool_events-IsAligned morning fresh_engine (tt, (tt, (tt, (tt, (omega arith, tt)))))
      fresh_engine-IsAligned

-- The seed drops the newest live bar.
newest_dropped : (track_at call (on_pool_events morning fresh_engine).1).closes ≡ 70 ∷ 100 ∷ []
unfolding on_pool_events on_pool_event update_tick commit_bar commit_all commit_track seed_strike
    seed_down
newest_dropped = refl

-- Two bars of yesterday, and five minutes of today.
abbrev five_minutes : Track
five_minutes = record {
  closes = 90 ∷ 91 ∷ 100 ∷ 101 ∷ 102 ∷ 103 ∷ 104 ∷ [];
  atps = 80 ∷ 81 ∷ 95 ∷ 96 ∷ 97 ∷ 98 ∷ 99 ∷ [];
  mins = negsuc 1 ∷ negsuc 0 ∷ pos 0 ∷ pos 1 ∷ pos 2 ∷ pos 3 ∷ pos 4 ∷ [];
}

lookup-tf_groups_example : lookup (pos 0) (tf_groups 3 five_minutes) ≡ some (102, 97)
unfolding ◌+ℤ◌ ◌-ℤ◌ ◌*ℤ◌
lookup-tf_groups_example = lookup-tf_groups 3 (pos 0) five_minutes (omega arith)

-- The candle that is still open is left out, and that of yesterday is kept.
lookup-tf_groups_open : lookup (pos 1) (tf_groups 3 five_minutes) ≡ none
unfolding tf_groups resampled group_bars max_of is_committed ◌+ℤ◌ ◌-ℤ◌ ◌*ℤ◌
lookup-tf_groups_open = refl

lookup-tf_groups_yesterday : lookup (negsuc 0) (tf_groups 3 five_minutes) ≡ some (91, 81)
unfolding tf_groups resampled group_bars max_of is_committed ◌+ℤ◌ ◌-ℤ◌ ◌*ℤ◌
lookup-tf_groups_yesterday = refl
