-- ===== src/Workers/Ledger.antt =====
-- That no signal is lost unseen by a worker of execution_bridge/parallel_worker_pool.py.
use mathlib.Core.Path.{subst}
use mathlib.Core.List.{append_assoc, append-nil}
use option_chain_based_strat.Common.{
  ◌≡◌, refl, ap, sym, ℕ, suc, ◌+◌, ◌≤◌, Bool, true, false, List, [], ◌∷◌, ◌++◌, leb, ltb,
  if◌then◌else◌, length, length-append, inl, inr, Bool-cases, arith,
}
use option_chain_based_strat.Workers.Circuit.{
  Worker, new_worker, SignalFate, queued, overflowed, idle, refused, done, failed, WorkerEvent,
  offer, wake, enqueue, maybe_reset_circuit, try_half_open, succeed, fail, attempt_signal, guarded,
  round, step, steps, worker_queue_size, open_after_failures, cooled, close_circuit,
}
use option_chain_based_strat.Workers.Branches.{
  maybe_reset_closed, maybe_reset_cold, maybe_reset_hot, guarded_closed, guarded_cold, guarded_hot,
  round_idle, round_taken,
}

-- How often the outcomes hold one that passes a test.
unfoldable pub count : (SignalFate → Bool) → List SignalFate → ℕ
count p [] = 0
count p (o ∷ os) = (if p o then 1 else 0) + count p os

abbrev pub is_offer : SignalFate → Bool
is_offer queued = true
is_offer overflowed = true
is_offer _ = false

abbrev pub is_drop : SignalFate → Bool
is_drop overflowed = true
is_drop refused = true
is_drop _ = false

abbrev pub is_done : SignalFate → Bool
is_done done = true
is_done _ = false

abbrev pub is_failure : SignalFate → Bool
is_failure failed = true
is_failure _ = false

counts-append :
    (p : SignalFate → Bool) (os : List SignalFate) (o : SignalFate)
    → count p (os ++ o ∷ []) ≡ (if p o then 1 else 0) + count p os
unfolding count
counts-append p [] o = omega arith
counts-append p (x ∷ os) o = omega (arith, counts-append p os o)

module _ {S : Type 0} where
  -- A worker whose counts agree with what became of the signals so far.
  pub record Agrees (os : List SignalFate) (w : Worker S) : Type 0 where
    pub accounted :
        count is_offer os ≡ length w.queue + w.dropped + count is_done os + w.total_failures
    pub drops : w.dropped ≡ count is_drop os
    pub failures : w.total_failures ≡ count is_failure os
    pub bounded : length w.queue ≤ worker_queue_size

  -- What one step adds to the counts.
  pub record Adds (o : SignalFate) (w w' : Worker S) : Type 0 where
    pub offered :
        (if is_offer o then 1 else 0) + (length w.queue + w.dropped + w.total_failures)
        ≡ length w'.queue + w'.dropped + (if is_done o then 1 else 0) + w'.total_failures
    pub dropping : w'.dropped ≡ (if is_drop o then 1 else 0) + w.dropped
    pub failing : w'.total_failures ≡ (if is_failure o then 1 else 0) + w.total_failures
    pub in_bounds : length w.queue ≤ worker_queue_size → length w'.queue ≤ worker_queue_size

  enqueue-Adds : (s : S) (w : Worker S) → Adds (enqueue s w).0 w (enqueue s w).1
  unfolding enqueue
  enqueue-Adds s w = elim (Bool-cases (ltb (length w.queue) worker_queue_size)) [
    | inl room ↦
        rw (room, enqueue)
          (record {
            offered = omega (arith, length-append w.queue (s ∷ []));
            dropping = omega arith;
            failing = omega arith;
            in_bounds = λ h. ground (arith, room, length-append w.queue (s ∷ []));
          })
    | inr full ↦
        rw (full, enqueue)
          (record {
            offered = omega arith;
            dropping = omega arith;
            failing = omega arith;
            in_bounds = λ h. h;
          })
  ]

  unchanged : (w : Worker S) → Adds idle w w
  unchanged w = record {
    offered = omega arith;
    dropping = omega arith;
    failing = omega arith;
    in_bounds = λ h. h;
  }

  maybe_reset_circuit-Adds : (now : ℕ) (w : Worker S) → Adds idle w (maybe_reset_circuit now w)
  unfolding maybe_reset_circuit
  maybe_reset_circuit-Adds now w = elim (Bool-cases w.circuit_open) [
    | inr closed ↦ subst (Adds idle w) (sym (maybe_reset_closed now w closed)) (unchanged w)
    | inl is_open ↦ elim (Bool-cases (cooled now w)) [
      | inl cold ↦ subst (Adds idle w) (sym (maybe_reset_cold now w is_open cold)) (record {
        offered = omega arith;
        dropping = omega arith;
        failing = omega arith;
        in_bounds = λ h. h;
      })
      | inr hot ↦ subst (Adds idle w) (sym (maybe_reset_hot now w is_open hot)) (unchanged w)
    ]
  ]

  -- The queue of the worker is that behind the signal which is processed.
  attempt_signal-Adds :
      (raises : S → Bool × ℕ) (s : S) (before w : Worker S)
      → length before.queue ≡ suc (length w.queue)
      → before.dropped ≡ w.dropped
      → before.total_failures ≡ w.total_failures
      → Adds (attempt_signal raises s w).0 before (attempt_signal raises s w).1
  unfolding attempt_signal succeed fail
  attempt_signal-Adds raises s before w q d f = elim (Bool-cases (raises s).0) [
    | inr succeeded ↦ rw succeeded (record {
      offered = omega (arith, q, d, f);
      dropping = omega (arith, d);
      failing = omega (arith, f);
      in_bounds = λ h. omega (arith, q, h);
    })
    | inl raised ↦ elim (Bool-cases (leb open_after_failures (w.consecutive_failures + 1))) [
      | inl many ↦
          rw (raised, many)
            (record {
              offered = omega (arith, q, d, f);
              dropping = omega (arith, d);
              failing = omega (arith, f);
              in_bounds = λ h. omega (arith, q, h);
            })
      | inr few ↦
          rw (raised, few)
            (record {
              offered = omega (arith, q, d, f);
              dropping = omega (arith, d);
              failing = omega (arith, f);
              in_bounds = λ h. omega (arith, q, h);
            })
    ]
  ]

  guarded-Adds :
      (raises : S → Bool × ℕ) (now : ℕ) (s : S) (before w : Worker S)
      → length before.queue ≡ suc (length w.queue)
      → before.dropped ≡ w.dropped
      → before.total_failures ≡ w.total_failures
      → Adds (guarded raises now s w).0 before (guarded raises now s w).1
  unfolding guarded try_half_open
  guarded-Adds raises now s before w q d f = elim (Bool-cases w.circuit_open) [
    | inr closed ↦
        subst (λ r. Adds r.0 before r.1) (sym (guarded_closed now w raises s closed))
          (attempt_signal-Adds raises s before w q d f)
    | inl is_open ↦ elim (Bool-cases (cooled now w)) [
      | inl cold ↦
          subst (λ r. Adds r.0 before r.1) (sym (guarded_cold now w raises s is_open cold))
            (attempt_signal-Adds raises s before (close_circuit w) q d f)
      | inr hot ↦
          subst (λ r. Adds r.0 before r.1) (sym (guarded_hot now w raises s is_open hot))
            (record {
              offered = omega (arith, q, d, f);
              dropping = omega (arith, d);
              failing = omega (arith, f);
              in_bounds = λ h. omega (arith, q, h);
            })
    ]
  ]

  round-Adds :
      (raises : S → Bool × ℕ) (now : ℕ) (queue : List S) (w : Worker S)
      → w.queue ≡ queue
      → Adds (round raises now w).0 w (round raises now w).1
  round-Adds raises now [] w e =
      subst (λ r. Adds r.0 w r.1) (sym (round_idle raises now w e)) (maybe_reset_circuit-Adds now w)
  round-Adds raises now (s ∷ rest) w e =
      subst (λ r. Adds r.0 w r.1) (sym (round_taken raises now w s rest e))
        (guarded-Adds raises now s w (record w { queue = rest }) (ap length e) refl refl)

  step-Adds : (e : WorkerEvent S) (w : Worker S) → Adds (step e w).0 w (step e w).1
  unfolding step
  step-Adds (offer s) w = enqueue-Adds s w
  step-Adds (wake now raises) w = round-Adds raises now w.queue w refl

  step-Agrees :
      (os : List SignalFate) (e : WorkerEvent S) (w : Worker S)
      → Agrees os w
      → Agrees (os ++ (step e w).0 ∷ []) (step e w).1
  step-Agrees os e w a =
      let b = step-Adds e w in
      let o = (step e w).0 in
      record {
        accounted = omega (
          arith,
          counts-append is_offer os o,
          counts-append is_done os o,
          a.accounted,
          b.offered,
        );
        drops = omega (arith, counts-append is_drop os o, a.drops, b.dropping);
        failures = omega (arith, counts-append is_failure os o, a.failures, b.failing);
        bounded = b.in_bounds a.bounded;
      }

  steps-from :
      (events : List (WorkerEvent S)) (os : List SignalFate) (w : Worker S)
      → Agrees os w
      → Agrees (os ++ (steps events w).0) (steps events w).1
  unfolding steps
  steps-from [] os w a = subst (λ l. Agrees l w) (sym (append-nil os)) a
  steps-from (e ∷ events) os w a =
      subst (λ l. Agrees l (steps events (step e w).1).1)
        (append_assoc os ((step e w).0 ∷ []) (steps events (step e w).1).0)
        (steps-from events (os ++ (step e w).0 ∷ []) (step e w).1 (step-Agrees os e w a))

  -- Whatever signals are put in, whenever the task runs and whatever `_process` raises, at each
  -- time every signal so far is in the queue, was dropped, or was processed with or without an
  -- exception; the counts of drops and failures are those, and the queue holds at most 100.
  pub steps-Agrees :
      (events : List (WorkerEvent S))
      → Agrees (steps events new_worker).0 (steps events new_worker).1
  unfolding count
  steps-Agrees events =
      steps-from events [] new_worker
        (record { accounted = refl; drops = refl; failures = refl; bounded = omega arith })
