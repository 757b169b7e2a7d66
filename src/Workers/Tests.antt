-- ===== src/Workers/Tests.antt =====
-- The theorems on the workers, at concrete events and clients.
use option_chain_based_strat.Common.{
  ◌≡◌, refl, ℕ, ◌*◌, ◌≤◌, max, Bool, true, false, none, some, List, [], ◌∷◌, All, string_eq, arith,
}
use option_chain_based_strat.Common.Dict.{lookup}
use option_chain_based_strat.Workers.Circuit.{
  Worker, new_worker, WorkerEvent, offer, wake, steps, step, enqueue, round, guarded,
  attempt_signal, succeed, fail, open_after_failures,
}
use option_chain_based_strat.Workers.Ledger.{Agrees, steps-Agrees}
use option_chain_based_strat.Workers.Cooldown.{streak, steps-tripped, Untouched, steps-waits}
use option_chain_based_strat.Workers.Orders.{
  TradingClient, current_week, Registry, Signal, Handle, Calls, Request, risk_per_lot, compute_lots,
  process,
}
use option_chain_based_strat.Workers.Sizing.{compute_lots-bounds, process-apart}

-- Every signal raises, and ends at 1000.
abbrev raising : ℕ → Bool × ℕ
raising n = (true, 1_000)

abbrev five_failures : List (WorkerEvent ℕ)
five_failures =
    offer 1
    ∷ offer 2
    ∷ offer 3
    ∷ offer 4
    ∷ offer 5
    ∷ wake 10 raising
    ∷ wake 20 raising
    ∷ wake 30 raising
    ∷ wake 40 raising
    ∷ wake 50 raising
    ∷ []

steps-Agrees_example : Agrees (steps five_failures new_worker).0 (steps five_failures new_worker).1
steps-Agrees_example = steps-Agrees five_failures

tripped : (steps five_failures (new_worker {S = ℕ})).1.circuit_open ≡ true
unfolding steps step enqueue round guarded attempt_signal succeed fail
tripped = refl

steps-tripped_example : open_after_failures ≤ streak 0 (steps five_failures (new_worker {S = ℕ})).0
steps-tripped_example = steps-tripped five_failures tripped

abbrev shut_worker : Worker ℕ
shut_worker = record {
  queue = 7 ∷ [];
  dropped = 0;
  total_failures = 5;
  consecutive_failures = 5;
  circuit_open = true;
  opened_at = 1_000;
}

abbrev quiet : List (WorkerEvent ℕ)
quiet = offer 8 ∷ wake 2_000 raising ∷ wake 60_999 raising ∷ []

steps-waits_example :
    All Untouched (steps quiet shut_worker).0 × ((steps quiet shut_worker).1.circuit_open ≡ true)
steps-waits_example =
    steps-waits 1_000 quiet shut_worker (tt, (omega arith, (omega arith, tt))) refl refl

-- 500000 rupees at one percent, and doubled lots.
abbrev client : TradingClient
client = record {
  enabled_strategies = "A" ∷ "B" ∷ [];
  expiry_preference = current_week;
  providers = [];
  capital = 50_000_000;
  max_risk_per_trade_pct = 100;
  size_multiplier = 200;
}

four_lots : compute_lots client 50 ≡ 4
unfolding compute_lots
four_lots = refl

compute_lots-bounds_example :
    (1 ≤ compute_lots client 50)
    × (compute_lots client 50 ≤ 10)
    × (compute_lots client 50 * (1_000_000 * risk_per_lot 50)
        ≤ max (1_000_000 * risk_per_lot 50) 1_000_000_000_000)
compute_lots-bounds_example = compute_lots-bounds client 50 (omega arith)

-- Brokers that keep their requests; the second one raises on every order.
abbrev calls : Calls (Bool × List Request) ℕ
calls = record {
  acquire = λ b. b;
  place_order = λ req b. (elim b.0 [ true ↦ none | false ↦ some "id" ], (b.0, req ∷ b.1));
  get_order_status = λ oid b. (some 1, b);
}

abbrev registry : Registry
registry = record {
  is_loaded = λ _. false;
  all_expiries = λ _. [];
  get_broker_symbol = λ u e s o p. some "NIFTY24000CE";
}

abbrev breakout : Signal
breakout = record {
  source = "OI_Zone_Breakout";
  underlying = "NIFTY";
  target_strike = 24_000;
  option_type = "CE";
}

abbrev good_broker : Handle (Bool × List Request)
good_broker = record { trading_mode = "live"; state = (false, []) }

abbrev bad_broker : Handle (Bool × List Request)
bad_broker = record { trading_mode = "live"; state = (true, []) }

process-apart_example :
    lookup "b1"
      (process calls registry client 0 [] breakout
        (λ s. s)
        (λ s. s)
        (("b0", bad_broker) ∷ ("b1", good_broker) ∷ [])).1
    ≡ lookup "b1"
        (process calls registry client 0 [] breakout (λ s. s) (λ s. s) (("b1", good_broker) ∷ [])).1
process-apart_example =
    process-apart calls registry client 0 [] breakout (λ s. s) (λ s. s) "b1"
      (("b0", bad_broker) ∷ ("b1", good_broker) ∷ []) (("b1", good_broker) ∷ []) refl
