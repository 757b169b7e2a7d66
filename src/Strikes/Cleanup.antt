-- ===== src/Strikes/Cleanup.antt =====
-- StrikeCleanup of data_layer/strike_cleanup.py, for one index: the counts of open positions by
-- strike, and the end of a subscription behind a closed one. Whether the call of the feeder raises
-- is an argument.
use option_chain_based_strat.Common.{
  ℕ, ◌+◌, ◌-◌, Bool, not, ◌&&◌, Option, none, some, List, [], ◌∷◌, ◌++◌, ltb, if◌then◌else◌,
}
use option_chain_based_strat.Common.Int.{ℤ}
use option_chain_based_strat.Common.Dict.{Dict, lookup, insert}
use option_chain_based_strat.Executor.Orders.{OrderSide, buy, sell}
use option_chain_based_strat.Strikes.Sets.{strike_eq, member, discard}
use option_chain_based_strat.Strikes.Rebalancer.{StrikeState, FeedCall, unsubscribe, unpin_strike}

pub record StrikeCleanup : Type 0 where
  pub open_counts : Dict ℤ ℕ
  pub cleanups_performed : ℕ
  pub cleanups_skipped : ℕ
  pub rebalancer : StrikeState

abbrev pub or_zero : Option ℕ → ℕ
or_zero none = 0
or_zero (some n) = n

-- `self._open_counts[key]`, of a defaultdict.
unfoldable pub open_position_count : ℤ → StrikeCleanup → ℕ
open_position_count strike c = or_zero (lookup strike c.open_counts)

unfoldable pub notify_opened : ℤ → StrikeCleanup → StrikeCleanup
unfolding open_position_count
notify_opened strike c = record c {
  open_counts = insert strike (open_position_count strike c + 1) c.open_counts;
}

-- The decrement, where the count is above 0.
unfoldable pub count_down : ℤ → StrikeCleanup → StrikeCleanup
unfolding open_position_count
count_down strike c = record c {
  open_counts = insert strike (open_position_count strike c - 1) c.open_counts;
}

-- `discard` on the active strikes of the rebalancer, behind unpin_strike.
unfoldable pub release : ℤ → StrikeState → StrikeState
unfolding unpin_strike
release strike st =
    let st' = unpin_strike strike st in
    record st' { active_strikes = discard strike st'.active_strikes }

-- `_cleanup`
unfoldable pub cleanup : Bool → ℤ → StrikeCleanup → List FeedCall × StrikeCleanup
unfolding open_position_count release
cleanup raises strike c =
    if ltb 0 (open_position_count strike c)
    then ([], c)
    else if member strike c.rebalancer.active_strikes
        && not (member strike c.rebalancer.pinned_strikes)
    then ([], record c { cleanups_skipped = c.cleanups_skipped + 1 })
    else (
      unsubscribe (strike ∷ []) ∷ [],
      record c {
        cleanups_performed = (if raises then c.cleanups_performed else c.cleanups_performed + 1);
        rebalancer = release strike c.rebalancer;
      },
    )

-- What concerns the cleanup: a fill, with its status left out, since a purchase counts whatever its
-- status is, and every sale closes; and a close that others report.
pub data CleanupEvent : Type 0 where
  on_fill : (side : OrderSide) (strike : ℤ) (raises : Bool) → CleanupEvent
  position_closed : (strike : ℤ) (raises : Bool) → CleanupEvent

unfoldable pub close_position : Bool → ℤ → StrikeCleanup → List FeedCall × StrikeCleanup
unfolding count_down cleanup
close_position raises strike c = cleanup raises strike (count_down strike c)

unfoldable pub on_cleanup_event : CleanupEvent → StrikeCleanup → List FeedCall × StrikeCleanup
unfolding notify_opened close_position
on_cleanup_event (on_fill buy strike raises) c = ([], notify_opened strike c)
on_cleanup_event (on_fill sell strike raises) c = close_position raises strike c
on_cleanup_event (position_closed strike raises) c = close_position raises strike c

abbrev pub with_state : StrikeCleanup → List FeedCall → List (FeedCall × StrikeCleanup)
with_state c [] = []
with_state c (call ∷ calls) = (call, c) ∷ with_state c calls

-- The calls of the feeder, each with the state behind it.
unfoldable pub on_cleanup_events :
    List CleanupEvent → StrikeCleanup → List (FeedCall × StrikeCleanup) × StrikeCleanup
unfolding on_cleanup_event
on_cleanup_events [] c = ([], c)
on_cleanup_events (e ∷ es) c =
    let r = on_cleanup_event e c in
    let rest = on_cleanup_events es r.1 in (with_state r.1 r.0 ++ rest.0, rest.1)
