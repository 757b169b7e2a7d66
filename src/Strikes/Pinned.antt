-- ===== src/Strikes/Pinned.antt =====
-- The invariant of the state in data_layer/strike_rebalancer.py, that pinned strikes are active, and
-- what a tick may ask of the feeder.
use mathlib.Core.Path.{subst}
use option_chain_based_strat.Common.{
  ◌≡◌, refl, ◌∙◌, sym, ℕ, ◌+◌, ◌*◌, ◌<◌, true, false, not, ◌&&◌, Option, none, some, List, [], ◌∷◌,
  leb, eqb, is_none, if◌then◌else◌, arith, All, All-append, if_true, if_false, if_both,
}
use option_chain_based_strat.Common.Int.{ℤ}
use option_chain_based_strat.Strikes.Sets.{
  member, minus, union, member-add_to, member-discard, member-minus, member-union, subset_of,
}
use option_chain_based_strat.Strikes.Rebalancer.{
  Index, StrikeState, FeedCall, subscribe, unsubscribe, pin_strike, unpin_strike, initial_subscribe,
  rebalance, unsubscribe_at_close, call_of, to_unsub, to_sub, strike_window, follow, on_strike_tick,
  market_open, nse_close, rebalance_threshold, drift, round_to_strike,
}

-- Pinned strikes are active.
abbrev pub IsPinned : StrikeState → Type 0
IsPinned st = (z : ℤ) → member z st.pinned_strikes ≡ true → member z st.active_strikes ≡ true

-- No call unsubscribes a strike of a set.
abbrev pub Spares : List ℤ → FeedCall → Type 0
Spares pinned (subscribe strikes) = Unit
Spares pinned (unsubscribe strikes) = (z : ℤ) → member z pinned ≡ true → member z strikes ≡ false

-- What is left of a set without strikes that are not pinned.
kept_pinned :
    (active dropped added pinned : List ℤ) (z : ℤ)
    → member z active ≡ true
    → member z (minus dropped pinned) ≡ false
    → member z (union (minus active (minus dropped pinned)) added) ≡ true
kept_pinned active dropped added pinned z a d =
    member-union z (minus active (minus dropped pinned)) added
    ∙ ground (arith, member-minus z active (minus dropped pinned), a, d)

minus_pinned :
    (s pinned : List ℤ) (z : ℤ) → member z pinned ≡ true → member z (minus s pinned) ≡ false
minus_pinned s pinned z h = member-minus z s pinned ∙ ground (arith, h)

pub pin_strike-IsPinned : (x : ℤ) (st : StrikeState) → IsPinned st → IsPinned (pin_strike x st)
unfolding pin_strike
pin_strike-IsPinned x st inv z h =
    member-add_to z x st.active_strikes
    ∙ ground (arith, member-add_to z x st.pinned_strikes, h, inv z)

pub unpin_strike-IsPinned : (x : ℤ) (st : StrikeState) → IsPinned st → IsPinned (unpin_strike x st)
unfolding unpin_strike
unpin_strike-IsPinned x st inv z h = ground (arith, member-discard z x st.pinned_strikes, h, inv z)

-- The result of a tick: it does not raise, and the state keeps the invariant.
abbrev pub Good : List ℤ → List FeedCall × Option StrikeState → Type 0
Good pinned r =
    All (Spares pinned) r.0
    × ((st : StrikeState) × (r.1 ≡ some st) × IsPinned st × (st.pinned_strikes ≡ pinned))

call_of-unsubscribe :
    (pinned strikes : List ℤ)
    → Spares pinned (unsubscribe strikes)
    → All (Spares pinned) (call_of unsubscribe strikes)
call_of-unsubscribe pinned [] h = tt
call_of-unsubscribe pinned (x ∷ xs) h = (h, tt)

call_of-subscribe : (pinned strikes : List ℤ) → All (Spares pinned) (call_of subscribe strikes)
call_of-subscribe pinned [] = tt
call_of-subscribe pinned (x ∷ xs) = (tt, tt)

module _ (ix : Index) (st : StrikeState) (inv : IsPinned st) where
  initial_subscribe-Good :
      (atm : ℕ)
      → Good st.pinned_strikes
          ((initial_subscribe ix atm st).0, some (initial_subscribe ix atm st).1)
  unfolding initial_subscribe
  initial_subscribe-Good atm =
      let window = if st.chain_enabled then strike_window atm ix.step ix.depth else [] in
      (
        call_of-subscribe st.pinned_strikes (union window st.pinned_strikes),
        (
          (initial_subscribe ix atm st).1,
          refl,
          (λ z h. member-union z window st.pinned_strikes ∙ ground (arith, h)),
          refl,
        ),
      )

  rebalance-Good : (atm : ℕ) → Good st.pinned_strikes (rebalance ix atm st)
  unfolding rebalance
  rebalance-Good atm =
      let dropped = to_unsub ix atm st in
      let added = to_sub ix atm st in
      let active = union (minus st.active_strikes dropped) added in
      let spared : (z : ℤ) → member z st.pinned_strikes ≡ true → member z dropped ≡ false =
        minus_pinned (minus st.active_strikes (strike_window atm ix.step ix.depth))
          st.pinned_strikes in
      let kept : (z : ℤ) → member z st.pinned_strikes ≡ true → member z active ≡ true = λ z h.
        kept_pinned st.active_strikes (minus st.active_strikes (strike_window atm ix.step ix.depth))
          added st.pinned_strikes z (inv z h) (spared z h) in
      let after : StrikeState = record st {
        active_strikes = active;
        current_atm = some atm;
        rebalance_count = st.rebalance_count + 1;
      } in
      (
        All-append (Spares st.pinned_strikes) (call_of unsubscribe dropped)
            (call_of subscribe added) (call_of-unsubscribe st.pinned_strikes dropped spared)
            (call_of-subscribe st.pinned_strikes added),
        (after, if_true (some after) none (subset_of st.pinned_strikes active kept), kept, refl),
      )

-- A tick that changes nothing.
quiet-Good : (st : StrikeState) → IsPinned st → Good st.pinned_strikes ([], some st)
quiet-Good st inv = (tt, (st, refl, inv, refl))

module _ (ix : Index) (time ltp : ℕ) (st : StrikeState) (inv : IsPinned st) where
  drifted : Option ℕ → List FeedCall × Option StrikeState
  drifted none = ([], some st)
  drifted (some current) =
      if leb (rebalance_threshold * ix.step) (drift (round_to_strike ltp ix.step) current)
      then rebalance ix (round_to_strike ltp ix.step) st
      else ([], some st)

  drifted-Good : (current : Option ℕ) → Good st.pinned_strikes (drifted current)
  unfolding drifted
  drifted-Good none = quiet-Good st inv
  drifted-Good (some current) =
      if_both (Good st.pinned_strikes)
        (leb (rebalance_threshold * ix.step) (drift (round_to_strike ltp ix.step) current))
        (rebalance-Good ix st inv (round_to_strike ltp ix.step)) (quiet-Good st inv)

  follow-Good : Good st.pinned_strikes (follow ix time ltp st)
  unfolding follow drifted
  follow-Good =
      let atm = round_to_strike ltp ix.step in
      if_both (Good st.pinned_strikes) (is_none st.open_atm && leb market_open time)
        (if_both (Good st.pinned_strikes) st.eod_unsubscribed (quiet-Good st inv) (
          initial_subscribe-Good ix (record st { open_atm = some atm; current_atm = some atm }) inv
            atm))
        (drifted-Good st.current_atm)

unsubscribe_at_close-Good :
    (st : StrikeState)
    → IsPinned st
    → Good st.pinned_strikes ((unsubscribe_at_close st).0, some (unsubscribe_at_close st).1)
unfolding unsubscribe_at_close
unsubscribe_at_close-Good st inv =
    let dropped = minus st.active_strikes st.pinned_strikes in
    (
      call_of-unsubscribe st.pinned_strikes dropped
          (minus_pinned st.active_strikes st.pinned_strikes),
      (
        (unsubscribe_at_close st).1,
        refl,
        (λ z h.
            member-minus z st.active_strikes dropped
            ∙ ground (arith, inv z h, minus_pinned st.active_strikes st.pinned_strikes z h)),
        refl,
      ),
    )

-- A tick, behind the mark of the close.
abbrev decided : Index → ℕ → ℕ → StrikeState → List FeedCall × Option StrikeState
decided ix time ltp st =
    if ix.is_nse && not st.eod_unsubscribed && leb nse_close time
    then ((unsubscribe_at_close st).0, some (unsubscribe_at_close st).1)
    else if eqb ix.step 0
    then ([], none)
    else follow ix time ltp st

module _ (ix : Index) (time ltp : ℕ) (stepped : 0 < ix.step) where
  decided-Good : (st : StrikeState) → IsPinned st → Good st.pinned_strikes (decided ix time ltp st)
  decided-Good st inv =
      let some_step : eqb ix.step 0 ≡ false = ground (arith, stepped) in
      if_both (Good st.pinned_strikes) (ix.is_nse && not st.eod_unsubscribed && leb nse_close time)
        (unsubscribe_at_close-Good st inv)
        (subst (Good st.pinned_strikes)
          (sym (if_false ([], none) (follow ix time ltp st) some_step))
          (follow-Good ix time ltp st inv))

  -- A tick never asks the feeder to drop a pinned strike, whatever the time and the price; with a
  -- step above 0 it does not fail the assertion that pinned strikes are active, and keeps them so.
  pub on_strike_tick-Good :
      (st : StrikeState) → IsPinned st → Good st.pinned_strikes (on_strike_tick ix time ltp st)
  unfolding on_strike_tick
  on_strike_tick-Good st inv =
      if_both (λ m. Good st.pinned_strikes (decided ix time ltp m))
        (ix.is_nse && leb nse_close time) (decided-Good (record st { eod_unsubscribed = true }) inv)
        (decided-Good st inv)
