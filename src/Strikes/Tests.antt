-- ===== src/Strikes/Tests.antt =====
-- The theorems on the subscriptions, at a concrete index and its events.
use option_chain_based_strat.Common.{
  ◌≡◌, refl, true, false, none, some, List, [], ◌∷◌, All, arith, eqb, if◌then◌else◌,
}
use option_chain_based_strat.Common.Int.{ℤ, pos}
use option_chain_based_strat.Executor.Orders.{buy, sell}
use option_chain_based_strat.Strikes.Rebalancer.{
  Index, StrikeState, unsubscribe, new_state_of_strikes, on_strike_tick, follow, mark_close,
}
use option_chain_based_strat.Strikes.Cleanup.{
  StrikeCleanup, CleanupEvent, on_fill, position_closed, open_position_count, on_cleanup_events,
  on_cleanup_event, close_position, count_down, cleanup,
}
use option_chain_based_strat.Strikes.Pinned.{IsPinned}
use option_chain_based_strat.Strikes.Sequences.{
  StrikeEvent, ticked, pinned, released, KeepsPins, strike_events, strike_events-Sound,
  on_strike_tick-follow,
}
use option_chain_based_strat.Strikes.Counts.{AtZero, balance, on_cleanup_events-Fair}

abbrev nifty : Index
nifty = record { is_nse = true; step = 5_000; depth = 2 }

-- A tick of the open market, a pin, and a tick four steps higher.
abbrev drifting : List StrikeEvent
drifting =
    ticked 33_600 2_400_000
    ∷ pinned (pos 2_400_000)
    ∷ ticked 34_000 2_420_000
    ∷ released (pos 2_400_000)
    ∷ []

strike_events-Sound_example :
    All KeepsPins (strike_events nifty drifting new_state_of_strikes).0
    × ((st : StrikeState) × ((strike_events nifty drifting new_state_of_strikes).1 ≡ some st)
        × IsPinned st)
strike_events-Sound_example =
    strike_events-Sound nifty (omega arith) drifting new_state_of_strikes (λ z h. h)

on_strike_tick-follow_example : on_strike_tick nifty 56_000 2_400_000 new_state_of_strikes ≡ (
    if eqb nifty.step 0
    then ([], none)
    else follow nifty 56_000 2_400_000 (mark_close nifty 56_000 new_state_of_strikes))
on_strike_tick-follow_example = on_strike_tick-follow nifty 56_000 2_400_000 new_state_of_strikes

abbrev no_positions : StrikeCleanup
no_positions = record {
  open_counts = [];
  cleanups_performed = 0;
  cleanups_skipped = 0;
  rebalancer = new_state_of_strikes;
}

abbrev round_trip : List CleanupEvent
round_trip =
    on_fill buy (pos 2_400_000) false
    ∷ on_fill buy (pos 2_400_000) false
    ∷ on_fill sell (pos 2_400_000) false
    ∷ position_closed (pos 2_400_000) false
    ∷ []

on_cleanup_events-Fair_example :
    All AtZero (on_cleanup_events round_trip no_positions).0
    × ((x : ℤ)
        → open_position_count x (on_cleanup_events round_trip no_positions).1
          ≡ balance x round_trip (open_position_count x no_positions))
on_cleanup_events-Fair_example = on_cleanup_events-Fair round_trip no_positions

-- A sale that opens a short position ends the stream of its strike, which is pinned.
abbrev short_cleanup : StrikeCleanup
short_cleanup = record no_positions {
  rebalancer = record new_state_of_strikes {
    active_strikes = pos 2_400_000 ∷ [];
    pinned_strikes = pos 2_400_000 ∷ [];
  };
}

short_sale :
    (on_cleanup_event (on_fill sell (pos 2_400_000) false) short_cleanup).0
    ≡ unsubscribe (pos 2_400_000 ∷ []) ∷ []
unfolding on_cleanup_event close_position count_down cleanup open_position_count
short_sale = refl
