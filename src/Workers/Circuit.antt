-- ===== src/Workers/Circuit.antt =====
-- The queue and the circuit breaker of ClientExecutionWorker in
-- execution_bridge/parallel_worker_pool.py. Times are milliseconds of the event loop's clock; what
-- `_process` does is a parameter here, a function that says whether it raises.
use option_chain_based_strat.Common.{
  ℕ, ◌+◌, ◌-◌, Bool, true, false, List, [], ◌∷◌, ◌++◌, leb, ltb, if◌then◌else◌, length,
}

-- _WORKER_QUEUE_SIZE
abbrev pub worker_queue_size : ℕ
worker_queue_size = 100

-- _CIRCUIT_OPEN_AFTER_FAILURES
abbrev pub open_after_failures : ℕ
open_after_failures = 5

-- _CIRCUIT_COOLDOWN_SECONDS
abbrev pub cooldown : ℕ
cooldown = 60_000

pub record Worker (S : Type 0) : Type 0 where
  pub queue : List S
  pub dropped : ℕ
  pub total_failures : ℕ
  pub consecutive_failures : ℕ
  pub circuit_open : Bool
  pub opened_at : ℕ

abbrev pub new_worker : {S : Type 0} → Worker S
new_worker = record {
  queue = [];
  dropped = 0;
  total_failures = 0;
  consecutive_failures = 0;
  circuit_open = false;
  opened_at = 0;
}

-- What becomes of a signal: put in the queue or dropped at its end; taken out and dropped at the
-- open circuit, or processed with or without an exception. `idle` is a timeout of the queue.
pub data SignalFate : Type 0 where
  queued overflowed idle refused done failed : SignalFate

module _ {S : Type 0} where
  unfoldable pub enqueue : S → Worker S → SignalFate × Worker S
  enqueue signal w =
      if ltb (length w.queue) worker_queue_size
      then (queued, record w { queue = w.queue ++ signal ∷ [] })
      else (overflowed, record w { dropped = w.dropped + 1 })

  -- Both _maybe_reset_circuit and _try_half_open close the circuit behind the cooldown.
  abbrev pub cooled : ℕ → Worker S → Bool
  cooled now w = leb cooldown (now - w.opened_at)

  abbrev pub close_circuit : Worker S → Worker S
  close_circuit w = record w { circuit_open = false; consecutive_failures = 0 }

  unfoldable pub maybe_reset_circuit : ℕ → Worker S → Worker S
  maybe_reset_circuit now w =
      if w.circuit_open then if cooled now w then close_circuit w else w else w

  unfoldable pub try_half_open : ℕ → Worker S → Bool × Worker S
  try_half_open now w = if cooled now w then (true, close_circuit w) else (false, w)

  -- Behind `_process`: it succeeded, or it raised and `now` is the time of that.
  unfoldable pub succeed : Worker S → Worker S
  succeed w = record w { consecutive_failures = 0; circuit_open = false }

  unfoldable pub fail : ℕ → Worker S → Worker S
  fail now w =
      let n = w.consecutive_failures + 1 in
      let counted = record w { consecutive_failures = n; total_failures = w.total_failures + 1 } in
      if leb open_after_failures n
      then record counted { circuit_open = true; opened_at = now }
      else counted

  -- One round of run at `now`; `raises` says whether `_process` raises on the signal and at what
  -- time it ends.
  unfoldable pub attempt_signal : (S → Bool × ℕ) → S → Worker S → SignalFate × Worker S
  unfolding succeed fail
  attempt_signal raises signal w =
      if (raises signal).0 then (failed, fail (raises signal).1 w) else (done, succeed w)

  unfoldable pub guarded : (S → Bool × ℕ) → ℕ → S → Worker S → SignalFate × Worker S
  unfolding try_half_open attempt_signal
  guarded raises now signal w =
      if w.circuit_open
      then elim (try_half_open now w).0 [
        | true ↦ attempt_signal raises signal (try_half_open now w).1
        | false ↦ (refused, record w { dropped = w.dropped + 1 })
      ]
      else attempt_signal raises signal w

  unfoldable pub round : (S → Bool × ℕ) → ℕ → Worker S → SignalFate × Worker S
  unfolding guarded maybe_reset_circuit
  round raises now w = elim w.queue [
    | [] ↦ (idle, maybe_reset_circuit now w)
    | signal ∷ rest ↦ guarded raises now signal (record w { queue = rest })
  ]

-- What happens to a worker: the router puts in a signal, or a round of its task runs.
pub data WorkerEvent (S : Type 0) : Type 0 where
  offer : S → WorkerEvent S
  wake : (now : ℕ) → (raises : S → Bool × ℕ) → WorkerEvent S

module _ {S : Type 0} where
  unfoldable pub step : WorkerEvent S → Worker S → SignalFate × Worker S
  unfolding enqueue round
  step (offer signal) w = enqueue signal w
  step (wake now raises) w = round raises now w

  unfoldable pub steps : List (WorkerEvent S) → Worker S → List SignalFate × Worker S
  unfolding step
  steps [] w = ([], w)
  steps (e ∷ es) w = let (o, w') = step e w in let (os, w'') = steps es w' in (o ∷ os, w'')
