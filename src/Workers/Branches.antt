-- ===== src/Workers/Branches.antt =====
-- The branches of a round of ClientExecutionWorker in execution_bridge/parallel_worker_pool.py.
use option_chain_based_strat.Common.{
  ◌≡◌, refl, ap, ◌∙◌, ℕ, ◌+◌, Bool, true, false, List, [], ◌∷◌, if◌then◌else◌, if_true, if_false,
}
use option_chain_based_strat.Workers.Circuit.{
  Worker, SignalFate, idle, refused, maybe_reset_circuit, try_half_open, attempt_signal, guarded,
  round, cooled, close_circuit,
}

module _ {S : Type 0} (now : ℕ) (w : Worker S) where
  pub maybe_reset_closed : w.circuit_open ≡ false → maybe_reset_circuit now w ≡ w
  unfolding maybe_reset_circuit
  maybe_reset_closed closed = if_false (if cooled now w then close_circuit w else w) w closed

  pub maybe_reset_cold :
      w.circuit_open ≡ true → cooled now w ≡ true → maybe_reset_circuit now w ≡ close_circuit w
  unfolding maybe_reset_circuit
  maybe_reset_cold is_open cold =
      if_true (if cooled now w then close_circuit w else w) w is_open
      ∙ if_true (close_circuit w) w cold

  pub maybe_reset_hot : w.circuit_open ≡ true → cooled now w ≡ false → maybe_reset_circuit now w ≡ w
  unfolding maybe_reset_circuit
  maybe_reset_hot is_open hot =
      if_true (if cooled now w then close_circuit w else w) w is_open
      ∙ if_false (close_circuit w) w hot

  module _ (raises : S → Bool × ℕ) (s : S) where
    probe : Bool × Worker S → SignalFate × Worker S
    probe r = elim r.0 [
      | true ↦ attempt_signal raises s r.1
      | false ↦ (refused, record w { dropped = w.dropped + 1 })
    ]

    pub guarded_closed : w.circuit_open ≡ false → guarded raises now s w ≡ attempt_signal raises s w
    unfolding guarded probe
    guarded_closed closed =
        if_false (probe (try_half_open now w)) (attempt_signal raises s w) closed

    pub guarded_cold :
        w.circuit_open ≡ true
        → cooled now w ≡ true
        → guarded raises now s w ≡ attempt_signal raises s (close_circuit w)
    unfolding guarded try_half_open probe
    guarded_cold is_open cold =
        if_true (probe (try_half_open now w)) (attempt_signal raises s w) is_open
        ∙ ap probe (if_true (true, close_circuit w) (false, w) cold)

    pub guarded_hot :
        w.circuit_open ≡ true
        → cooled now w ≡ false
        → guarded raises now s w ≡ (refused, record w { dropped = w.dropped + 1 })
    unfolding guarded try_half_open probe
    guarded_hot is_open hot =
        if_true (probe (try_half_open now w)) (attempt_signal raises s w) is_open
        ∙ ap probe (if_false (true, close_circuit w) (false, w) hot)

module _ {S : Type 0} (raises : S → Bool × ℕ) (now : ℕ) where
  abbrev taken : Worker S → List S → SignalFate × Worker S
  taken w [] = (idle, maybe_reset_circuit now w)
  taken w (s ∷ rest) = guarded raises now s (record w { queue = rest })

  round_by : (w : Worker S) → round raises now w ≡ taken w w.queue
  unfolding round
  round_by w = refl

  pub round_idle :
      (w : Worker S) → w.queue ≡ [] → round raises now w ≡ (idle, maybe_reset_circuit now w)
  round_idle w e = round_by w ∙ ap (taken w) e

  pub round_taken :
      (w : Worker S) (s : S) (rest : List S)
      → w.queue ≡ s ∷ rest
      → round raises now w ≡ guarded raises now s (record w { queue = rest })
  round_taken w s rest e = round_by w ∙ ap (taken w) e
