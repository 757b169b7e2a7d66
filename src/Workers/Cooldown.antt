-- ===== src/Workers/Cooldown.antt =====
-- When the circuit of ClientExecutionWorker in execution_bridge/parallel_worker_pool.py opens, and
-- that it then keeps signals off for the cooldown.
use mathlib.Core.Path.{subst}
use mathlib.Core.Bool.{false≢true}
use option_chain_based_strat.Common.{
  ◌≡◌, refl, ap, ◌∙◌, sym, ℕ, suc, ◌+◌, ◌≤◌, ◌<◌, Bool, true, false, List, [], ◌∷◌, leb, ltb,
  length, inl, inr, Bool-cases, arith, All,
}
use option_chain_based_strat.Workers.Circuit.{
  Worker, new_worker, SignalFate, queued, overflowed, idle, refused, done, failed, WorkerEvent,
  offer, wake, enqueue, succeed, fail, attempt_signal, guarded, round, step, steps,
  worker_queue_size, open_after_failures, cooldown, cooled, close_circuit, maybe_reset_circuit,
}
use option_chain_based_strat.Workers.Branches.{
  maybe_reset_closed, maybe_reset_cold, maybe_reset_hot, guarded_closed, guarded_cold, guarded_hot,
  round_idle, round_taken,
}

-- The signals that failed since one was last processed without an exception.
unfoldable pub streak : ℕ → List SignalFate → ℕ
streak n [] = n
streak n (failed ∷ os) = streak (suc n) os
streak n (done ∷ os) = streak 0 os
streak n (_ ∷ os) = streak n os

abbrev next : ℕ → SignalFate → ℕ
next n failed = suc n
next n done = 0
next n _ = n

streak_cons :
    (n : ℕ) (o : SignalFate) (os : List SignalFate) → streak n (o ∷ os) ≡ streak (next n o) os
unfolding streak
streak_cons n queued os = refl
streak_cons n overflowed os = refl
streak_cons n idle os = refl
streak_cons n refused os = refl
streak_cons n done os = refl
streak_cons n failed os = refl

module _ {S : Type 0} where
  -- The worker counts no more failures than there were, and opens its circuit at five.
  record Tripped (n : ℕ) (w : Worker S) : Type 0 where
    counted : w.consecutive_failures ≤ n
    enough : w.circuit_open ≡ true → open_after_failures ≤ w.consecutive_failures

  close_circuit-Tripped : (n : ℕ) (w : Worker S) → Tripped n (close_circuit w)
  close_circuit-Tripped n w = record { counted = omega arith; enough = λ e. absurd (false≢true e) }

  maybe_reset-Tripped :
      (n now : ℕ) (w : Worker S) → Tripped n w → Tripped n (maybe_reset_circuit now w)
  maybe_reset-Tripped n now w t = elim (Bool-cases w.circuit_open) [
    | inr closed ↦ subst (Tripped n) (sym (maybe_reset_closed now w closed)) t
    | inl is_open ↦ elim (Bool-cases (cooled now w)) [
      | inl cold ↦
          subst (Tripped n) (sym (maybe_reset_cold now w is_open cold)) (close_circuit-Tripped n w)
      | inr hot ↦ subst (Tripped n) (sym (maybe_reset_hot now w is_open hot)) t
    ]
  ]

  abbrev Leads : ℕ → SignalFate × Worker S → Type 0
  Leads n r = Tripped (next n r.0) r.1

  fail-Tripped :
      (n now : ℕ) (w : Worker S)
      → w.circuit_open ≡ false
      → Tripped n w
      → Tripped (suc n) (fail now w)
  unfolding fail
  fail-Tripped n now w closed t =
      elim (Bool-cases (leb open_after_failures (w.consecutive_failures + 1))) [
        | inl many ↦
            rw many
              (record { counted = omega (arith, t.counted); enough = λ _. ground (arith, many) })
        | inr few ↦ rw few (record {
          counted = omega (arith, t.counted);
          enough = λ e. absurd (false≢true (sym closed ∙ e));
        })
      ]

  attempt_signal-Tripped :
      (raises : S → Bool × ℕ) (s : S) (n : ℕ) (w : Worker S)
      → w.circuit_open ≡ false
      → Tripped n w
      → Leads n (attempt_signal raises s w)
  unfolding attempt_signal succeed
  attempt_signal-Tripped raises s n w closed t = elim (Bool-cases (raises s).0) [
    | inl raised ↦ rw raised (fail-Tripped n (raises s).1 w closed t)
    | inr succeeded ↦
        rw succeeded (record { counted = omega arith; enough = λ e. absurd (false≢true e) })
  ]

  guarded-Tripped :
      (raises : S → Bool × ℕ) (now : ℕ) (s : S) (n : ℕ) (w : Worker S)
      → Tripped n w
      → Leads n (guarded raises now s w)
  guarded-Tripped raises now s n w t = elim (Bool-cases w.circuit_open) [
    | inr closed ↦
        subst (Leads n) (sym (guarded_closed now w raises s closed))
          (attempt_signal-Tripped raises s n w closed t)
    | inl is_open ↦ elim (Bool-cases (cooled now w)) [
      | inl cold ↦
          subst (Leads n) (sym (guarded_cold now w raises s is_open cold))
            (attempt_signal-Tripped raises s n (close_circuit w) refl (close_circuit-Tripped n w))
      | inr hot ↦
          subst (Leads n) (sym (guarded_hot now w raises s is_open hot))
            (record { counted = t.counted; enough = t.enough })
    ]
  ]

  round-Tripped :
      (raises : S → Bool × ℕ) (now n : ℕ) (queue : List S) (w : Worker S)
      → w.queue ≡ queue
      → Tripped n w
      → Leads n (round raises now w)
  round-Tripped raises now n [] w e t =
      subst (Leads n) (sym (round_idle raises now w e)) (maybe_reset-Tripped n now w t)
  round-Tripped raises now n (s ∷ rest) w e t =
      subst (Leads n) (sym (round_taken raises now w s rest e)) (
        guarded-Tripped raises now s n (record w { queue = rest })
          (record { counted = t.counted; enough = t.enough }))

  enqueue-Tripped : (s : S) (n : ℕ) (w : Worker S) → Tripped n w → Leads n (enqueue s w)
  unfolding enqueue
  enqueue-Tripped s n w t = elim (Bool-cases (ltb (length w.queue) worker_queue_size)) [
    | inl room ↦ rw room (record { counted = t.counted; enough = t.enough })
    | inr full ↦ rw full (record { counted = t.counted; enough = t.enough })
  ]

  step-Tripped : (e : WorkerEvent S) (n : ℕ) (w : Worker S) → Tripped n w → Leads n (step e w)
  unfolding step
  step-Tripped (offer s) n w t = enqueue-Tripped s n w t
  step-Tripped (wake now raises) n w t = round-Tripped raises now n w.queue w refl t

  steps-Tripped :
      (events : List (WorkerEvent S)) (n : ℕ) (w : Worker S)
      → Tripped n w
      → Tripped (streak n (steps events w).0) (steps events w).1
  unfolding steps streak
  steps-Tripped [] n w t = t
  steps-Tripped (e ∷ events) n w t =
      subst (λ m. Tripped m (steps events (step e w).1).1)
        (sym (streak_cons n (step e w).0 (steps events (step e w).1).0))
        (steps-Tripped events (next n (step e w).0) (step e w).1 (step-Tripped e n w t))

  -- Whatever is put in, whenever the task runs and whatever `_process` raises: where the circuit of
  -- a worker is open, the last five signals that it processed, or more, have all failed.
  pub steps-tripped :
      (events : List (WorkerEvent S))
      → (steps events (new_worker {S = S})).1.circuit_open ≡ true
      → open_after_failures ≤ streak 0 (steps events (new_worker {S = S})).0
  steps-tripped events is_open =
      let t =
        steps-Tripped events 0 new_worker
          (record { counted = omega arith; enough = λ e. absurd (false≢true e) }) in
      omega (arith, t.counted, t.enough is_open)

-- The outcomes of signals that are not processed.
abbrev pub Untouched : SignalFate → Type 0
Untouched done = ⊥
Untouched failed = ⊥
Untouched _ = Unit

module _ {S : Type 0} (t0 : ℕ) where
  -- The task runs before the cooldown is over.
  abbrev pub Early : WorkerEvent S → Type 0
  Early (offer s) = Unit
  Early (wake now raises) = now < t0 + cooldown

  abbrev Shut : Worker S → Type 0
  Shut w = (w.circuit_open ≡ true) × (w.opened_at ≡ t0)

  abbrev Waits : SignalFate × Worker S → Type 0
  Waits r = Untouched r.0 × Shut r.1

  hot : (now : ℕ) (w : Worker S) → now < t0 + cooldown → Shut w → cooled now w ≡ false
  hot now w early (is_open, at) = ground (arith, early, at)

  round-Waits :
      (raises : S → Bool × ℕ) (now : ℕ) (queue : List S) (w : Worker S)
      → w.queue ≡ queue
      → now < t0 + cooldown
      → Shut w
      → Waits (round raises now w)
  round-Waits raises now [] w e early shut =
      subst Waits
        (sym (
          round_idle raises now w e
          ∙ ap (λ v. (idle, v)) (maybe_reset_hot now w shut.0 (hot now w early shut))))
        (tt, shut)
  round-Waits raises now (s ∷ rest) w e early shut =
      subst Waits
        (sym (
          round_taken raises now w s rest e
          ∙ guarded_hot now (record w { queue = rest }) raises s shut.0 (hot now w early shut)))
        (tt, shut)

  enqueue-Waits : (s : S) (w : Worker S) → Shut w → Waits (enqueue s w)
  unfolding enqueue
  enqueue-Waits s w shut = elim (Bool-cases (ltb (length w.queue) worker_queue_size)) [
    | inl room ↦ rw room (tt, shut)
    | inr full ↦ rw full (tt, shut)
  ]

  step-Waits : (e : WorkerEvent S) (w : Worker S) → Early e → Shut w → Waits (step e w)
  unfolding step
  step-Waits (offer s) w early shut = enqueue-Waits s w shut
  step-Waits (wake now raises) w early shut = round-Waits raises now w.queue w refl early shut

  -- From the time at which its circuit opens and until the cooldown of 60 seconds is over, a worker
  -- processes no signal, whatever is put in and whenever its task runs, and the circuit stays open.
  pub steps-waits :
      (events : List (WorkerEvent S)) (w : Worker S)
      → All Early events
      → w.circuit_open ≡ true
      → w.opened_at ≡ t0
      → All Untouched (steps events w).0 × ((steps events w).1.circuit_open ≡ true)
  unfolding steps
  steps-waits [] w early is_open at = (tt, is_open)
  steps-waits (e ∷ events) w (early, later) is_open at =
      let (untouched, still) = step-Waits e w early (is_open, at) in
      let (rest, open_then) = steps-waits events (step e w).1 later still.0 still.1 in
      ((untouched, rest), open_then)
