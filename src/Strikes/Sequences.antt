-- ===== src/Strikes/Sequences.antt =====
-- Sequences of events at the state of data_layer/strike_rebalancer.py.
use mathlib.Core.Path.{subst}
use option_chain_based_strat.Common.{
  ◌≡◌, refl, sym, ℕ, ◌<◌, Bool, true, false, not, ◌&&◌, Option, none, some, List, [], ◌∷◌, ◌++◌,
  leb, eqb, if◌then◌else◌, arith, inl, inr, Bool-cases, map, All, All-append, if_false,
}
use option_chain_based_strat.Common.Int.{ℤ}
use option_chain_based_strat.Strikes.Sets.{member-discard}
use option_chain_based_strat.Strikes.Rebalancer.{
  Index, StrikeState, FeedCall, pin_strike, unpin_strike, reset_anchors, enable_chain,
  unsubscribe_at_close, follow, on_strike_tick, mark_close, nse_close,
}
use option_chain_based_strat.Strikes.Cleanup.{release}
use option_chain_based_strat.Strikes.Pinned.{
  IsPinned, Spares, pin_strike-IsPinned, unpin_strike-IsPinned, on_strike_tick-Good,
}

-- What happens to the state: ticks, and between them pins, the release of a strike by the cleanup,
-- and the events that reset it.
pub data StrikeEvent : Type 0 where
  ticked : (time : ℕ) (ltp : ℕ) → StrikeEvent
  pinned unpinned released : (strike : ℤ) → StrikeEvent
  chain_on feed_switched : StrikeEvent

unfoldable pub strike_event : Index → StrikeEvent → StrikeState → List FeedCall × Option StrikeState
unfolding on_strike_tick pin_strike unpin_strike release enable_chain reset_anchors
strike_event ix (ticked time ltp) st = on_strike_tick ix time ltp st
strike_event ix (pinned x) st = ([], some (pin_strike x st))
strike_event ix (unpinned x) st = ([], some (unpin_strike x st))
strike_event ix (released x) st = ([], some (release x st))
strike_event ix chain_on st = ([], some (enable_chain st))
strike_event ix feed_switched st = ([], some (reset_anchors st))

-- The calls of the feeder, each with the strikes that are pinned at its time.
unfoldable pub strike_events :
    Index → List StrikeEvent → StrikeState → List (List ℤ × FeedCall) × Option StrikeState
unfolding strike_event
strike_events ix [] st = ([], some st)
strike_events ix (e ∷ es) st =
    let r = strike_event ix e st in
    let calls = map (λ c. (st.pinned_strikes, c)) r.0 in
    elim r.1 [
      | none ↦ (calls, none)
      | some st' ↦ (let rest = strike_events ix es st' in (calls ++ rest.0, rest.1))
    ]

release-IsPinned : (x : ℤ) (st : StrikeState) → IsPinned st → IsPinned (release x st)
unfolding release unpin_strike
release-IsPinned x st inv z h =
    ground
      (arith, member-discard z x st.pinned_strikes, member-discard z x st.active_strikes, h, inv z)

-- A call of the feeder leaves alone what is pinned at its time.
abbrev pub KeepsPins : List ℤ × FeedCall → Type 0
KeepsPins c = Spares c.0 c.1

-- An event that does not raise and keeps the invariant.
abbrev Sound : List ℤ → List FeedCall × Option StrikeState → Type 0
Sound pins r = All (Spares pins) r.0 × ((st : StrikeState) × (r.1 ≡ some st) × IsPinned st)

module _ (ix : Index) (stepped : 0 < ix.step) where
  strike_event-Sound :
      (e : StrikeEvent) (st : StrikeState)
      → IsPinned st
      → Sound st.pinned_strikes (strike_event ix e st)
  unfolding strike_event enable_chain reset_anchors
  strike_event-Sound (ticked time ltp) st inv =
      let (spared, (st', same, inv', _)) = on_strike_tick-Good ix time ltp stepped st inv in
      (spared, (st', same, inv'))
  strike_event-Sound (pinned x) st inv = (tt, (pin_strike x st, refl, pin_strike-IsPinned x st inv))
  strike_event-Sound (unpinned x) st inv =
      (tt, (unpin_strike x st, refl, unpin_strike-IsPinned x st inv))
  strike_event-Sound (released x) st inv = (tt, (release x st, refl, release-IsPinned x st inv))
  strike_event-Sound chain_on st inv = (tt, (enable_chain st, refl, inv))
  strike_event-Sound feed_switched st inv = (tt, (reset_anchors st, refl, inv))

  All-with_state :
      (pins : List ℤ) (calls : List FeedCall)
      → All (Spares pins) calls
      → All KeepsPins (map (λ c. (pins, c)) calls)
  All-with_state pins [] h = tt
  All-with_state pins (c ∷ calls) (h, hs) = (h, All-with_state pins calls hs)

  strike_events_next :
      (e : StrikeEvent) (es : List StrikeEvent) (st st' : StrikeState)
      → (strike_event ix e st).1 ≡ some st'
      → strike_events ix (e ∷ es) st ≡ (
        map (λ c. (st.pinned_strikes, c)) (strike_event ix e st).0 ++ (strike_events ix es st').0,
        (strike_events ix es st').1,
      )
  unfolding strike_events
  strike_events_next e es st st' same = rw (same, strike_events) refl

  -- With a step above 0, over any sequence of ticks, fills, pins, unpins, cleanups and switches of
  -- the feed, from a state whose pinned strikes are active: no tick raises, the rebalancer
  -- unsubscribes no strike while it is pinned, and the pinned strikes are active at the end.
  pub strike_events-Sound :
      (es : List StrikeEvent) (st : StrikeState)
      → IsPinned st
      → All KeepsPins (strike_events ix es st).0
        × ((st' : StrikeState) × ((strike_events ix es st).1 ≡ some st') × IsPinned st')
  unfolding strike_events
  strike_events-Sound [] st inv = (tt, (st, refl, inv))
  strike_events-Sound (e ∷ es) st inv =
      let (spared, (st', same, inv')) = strike_event-Sound e st inv in
      let (rest, (last, ends, inv'')) = strike_events-Sound es st' inv' in
      let with_state = map (λ c. (st.pinned_strikes, c)) (strike_event ix e st).0 in
      subst (λ r. All KeepsPins r.0 × ((st'' : StrikeState) × (r.1 ≡ some st'') × IsPinned st''))
        (sym (strike_events_next e es st st' same))
        (
          All-append KeepsPins with_state (strike_events ix es st').0
              (All-with_state st.pinned_strikes (strike_event ix e st).0 spared) rest,
          (last, ends, inv''),
        )

and_false : (a : Bool) → (a && false) ≡ false
and_false true = refl
and_false false = refl

gone :
    (ix : Index) (time : ℕ) (st : StrikeState)
    → (ix.is_nse && not (mark_close ix time st).eod_unsubscribed && leb nse_close time) ≡ false
gone ix time st = elim (Bool-cases ix.is_nse) [
  | inr other ↦ rw other refl
  | inl nse ↦ elim (Bool-cases (leb nse_close time)) [
    | inl late ↦ rw (nse, late) refl
    | inr early ↦ rw (nse, early) (and_false (not st.eod_unsubscribed))
  ]
]

-- The cleanup at the close is never reached: every tick, before and behind 15:30, marks the close
-- if it is past, and then subscribes or rebalances as the mark lets it; with a step of 0 it raises.
pub on_strike_tick-follow :
    (ix : Index) (time ltp : ℕ) (st : StrikeState)
    → on_strike_tick ix time ltp st
      ≡ (if eqb ix.step 0 then ([], none) else follow ix time ltp (mark_close ix time st))
unfolding on_strike_tick
on_strike_tick-follow ix time ltp st =
    let body = if eqb ix.step 0 then ([], none) else follow ix time ltp (mark_close ix time st) in
    if_false
      (
        (unsubscribe_at_close (mark_close ix time st)).0,
        some (unsubscribe_at_close (mark_close ix time st)).1,
      )
      body (gone ix time st)
