-- ===== src/Strikes/Counts.antt =====
-- What the open counts of data_layer/strike_cleanup.py say, and when a stream is ended.
use mathlib.Core.Path.{subst}
use option_chain_based_strat.Common.{
  ◌≡◌, refl, ap, ◌∙◌, sym, ℕ, ◌+◌, ◌-◌, Bool, not, some, ◌&&◌, List, [], ◌∷◌, ltb, if◌then◌else◌,
  arith, inl, inr, Bool-cases, All, All-append, if_true, if_false, if_both,
}
use option_chain_based_strat.Common.Int.{ℤ}
use option_chain_based_strat.Common.Dict.{lookup, insert, lookup-insert}
use option_chain_based_strat.Executor.Orders.{buy, sell}
use option_chain_based_strat.Strikes.Sets.{strike_eq, same_strike, same_strike_iff, member}
use option_chain_based_strat.Strikes.Rebalancer.{FeedCall, subscribe, unsubscribe}
use option_chain_based_strat.Strikes.Cleanup.{
  StrikeCleanup, or_zero, open_position_count, notify_opened, count_down, release, cleanup,
  CleanupEvent, on_fill, position_closed, close_position, on_cleanup_event, on_cleanup_events,
  with_state,
}

-- The open positions on a strike, by its events alone.
unfoldable pub balance : ℤ → List CleanupEvent → ℕ → ℕ
balance x [] n = n
balance x (on_fill buy s r ∷ es) n = balance x es (if same_strike s x then n + 1 else n)
balance x (on_fill sell s r ∷ es) n = balance x es (if same_strike s x then n - 1 else n)
balance x (position_closed s r ∷ es) n = balance x es (if same_strike s x then n - 1 else n)

-- A call ends the stream of one strike, on which no position is open.
abbrev pub AtZero : FeedCall × StrikeCleanup → Type 0
AtZero (subscribe strikes, c) = ⊥
AtZero (unsubscribe [], c) = ⊥
AtZero (unsubscribe (x ∷ []), c) = open_position_count x c ≡ 0
AtZero (unsubscribe (x ∷ y ∷ ys), c) = ⊥

module _ (x : ℤ) where
  count_changed :
      (s : ℤ) (f : ℕ → ℕ) (c : StrikeCleanup)
      → or_zero (lookup x (insert s (f (open_position_count s c)) c.open_counts))
        ≡ (if same_strike s x then f (open_position_count x c) else open_position_count x c)
  unfolding open_position_count
  count_changed s f c = elim (Bool-cases (same_strike s x)) [
    | inl hit ↦
        ap or_zero (
          lookup-insert s x (f (open_position_count s c)) c.open_counts
          ∙ if_true (some (f (open_position_count s c))) (lookup x c.open_counts) hit)
        ∙ ap (λ k. f (open_position_count k c)) ((same_strike_iff s x).0 hit)
        ∙ sym (if_true (f (open_position_count x c)) (open_position_count x c) hit)
    | inr miss ↦
        ap or_zero (
          lookup-insert s x (f (open_position_count s c)) c.open_counts
          ∙ if_false (some (f (open_position_count s c))) (lookup x c.open_counts) miss)
        ∙ sym (if_false (f (open_position_count x c)) (open_position_count x c) miss)
  ]

  count-cleanup :
      (r : Bool) (s : ℤ) (c : StrikeCleanup)
      → open_position_count x (cleanup r s c).1 ≡ open_position_count x c
  unfolding cleanup open_position_count
  count-cleanup r s c = if_both Kept (ltb 0 (open_position_count s c)) refl (
      if_both Kept
        (member s c.rebalancer.active_strikes && not (member s c.rebalancer.pinned_strikes)) refl
        refl)
    where
      Kept : List FeedCall × StrikeCleanup → Type 0
      Kept v = open_position_count x v.1 ≡ open_position_count x c

  abbrev moved : CleanupEvent → ℕ → ℕ
  moved (on_fill buy s r) n = if same_strike s x then n + 1 else n
  moved (on_fill sell s r) n = if same_strike s x then n - 1 else n
  moved (position_closed s r) n = if same_strike s x then n - 1 else n

  balance_cons :
      (e : CleanupEvent) (es : List CleanupEvent) (n : ℕ)
      → balance x (e ∷ es) n ≡ balance x es (moved e n)
  unfolding balance
  balance_cons (on_fill buy s r) es n = refl
  balance_cons (on_fill sell s r) es n = refl
  balance_cons (position_closed s r) es n = refl

  close_position-moved :
      (r : Bool) (s : ℤ) (c : StrikeCleanup)
      → open_position_count x (close_position r s c).1
        ≡ (if same_strike s x then open_position_count x c - 1 else open_position_count x c)
  unfolding close_position count_down open_position_count
  close_position-moved r s c = count-cleanup r s (count_down s c) ∙ count_changed s (λ n. n - 1) c

  on_cleanup_event-moved :
      (e : CleanupEvent) (c : StrikeCleanup)
      → open_position_count x (on_cleanup_event e c).1 ≡ moved e (open_position_count x c)
  unfolding on_cleanup_event notify_opened open_position_count
  on_cleanup_event-moved (on_fill buy s r) c = count_changed s (λ n. n + 1) c
  on_cleanup_event-moved (on_fill sell s r) c = close_position-moved r s c
  on_cleanup_event-moved (position_closed s r) c = close_position-moved r s c

  on_cleanup_events-balance :
      (es : List CleanupEvent) (c : StrikeCleanup)
      → open_position_count x (on_cleanup_events es c).1 ≡ balance x es (open_position_count x c)
  unfolding on_cleanup_events balance
  on_cleanup_events-balance [] c = refl
  on_cleanup_events-balance (e ∷ es) c =
      on_cleanup_events-balance es (on_cleanup_event e c).1
      ∙ ap (balance x es) (on_cleanup_event-moved e c)
      ∙ sym (balance_cons e es (open_position_count x c))

-- Every call of a list ends a stream at a count of zero.
abbrev Fair : List FeedCall × StrikeCleanup → Type 0
Fair r = All AtZero (with_state r.1 r.0)

cleanup-Fair : (r : Bool) (s : ℤ) (c : StrikeCleanup) → Fair (cleanup r s c)
unfolding cleanup open_position_count
cleanup-Fair r s c = elim (Bool-cases (ltb 0 (open_position_count s c))) [
  | inl some_open ↦ rw some_open tt
  | inr closed ↦
      let zero : open_position_count s c ≡ 0 = ground (arith, closed) in
      let shown =
        member s c.rebalancer.active_strikes && not (member s c.rebalancer.pinned_strikes) in
      let skipped = record c { cleanups_skipped = c.cleanups_skipped + 1 } in
      let ended = record c {
        cleanups_performed = (if r then c.cleanups_performed else c.cleanups_performed + 1);
        rebalancer = release s c.rebalancer;
      } in
      let rest : List FeedCall × StrikeCleanup =
        if shown then ([], skipped) else (unsubscribe (s ∷ []) ∷ [], ended) in
      subst Fair (sym (if_false ([], c) rest closed)) (if_both Fair shown tt (zero, tt))
]

on_cleanup_event-Fair : (e : CleanupEvent) (c : StrikeCleanup) → Fair (on_cleanup_event e c)
unfolding on_cleanup_event close_position
on_cleanup_event-Fair (on_fill buy s r) c = tt
on_cleanup_event-Fair (on_fill sell s r) c = cleanup-Fair r s (count_down s c)
on_cleanup_event-Fair (position_closed s r) c = cleanup-Fair r s (count_down s c)

on_cleanup_events-AtZero :
    (es : List CleanupEvent) (c : StrikeCleanup) → All AtZero (on_cleanup_events es c).0
unfolding on_cleanup_events
on_cleanup_events-AtZero [] c = tt
on_cleanup_events-AtZero (e ∷ es) c =
    All-append AtZero (with_state (on_cleanup_event e c).1 (on_cleanup_event e c).0)
      (on_cleanup_events es (on_cleanup_event e c).1).0 (on_cleanup_event-Fair e c)
      (on_cleanup_events-AtZero es (on_cleanup_event e c).1)

-- Over any sequence of fills and reported closes, the count of each strike is that of its purchases
-- less its sales and closes, never below zero at any time, and a stream is ended only one strike at
-- a time and where no position on it is counted.
pub on_cleanup_events-Fair :
    (es : List CleanupEvent) (c : StrikeCleanup)
    → All AtZero (on_cleanup_events es c).0
      × ((x : ℤ)
          → open_position_count x (on_cleanup_events es c).1
            ≡ balance x es (open_position_count x c))
on_cleanup_events-Fair es c = (on_cleanup_events-AtZero es c, λ x. on_cleanup_events-balance x es c)
