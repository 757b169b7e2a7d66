-- ===== src/Limiter/Tests.antt =====
-- A bucket of two tokens.
use option_chain_based_strat.Common.{ℕ, ◌+◌, ◌*◌, ◌≤◌, ◌≡◌, true, List, [], ◌∷◌, arith}
use option_chain_based_strat.Limiter.Bucket.{token, Bucket, refill, attempt, acquire, serve}
use option_chain_based_strat.Limiter.Bounds.{serve-le, acquire-waited}

abbrev two : Bucket
two = record {
  rate = 10_000;
  burst = 2;
  tokens = 2_000_000_000;
  last_refill = 0;
  total_waits = 0;
  total_acquired = 0;
}

-- Four rounds of tasks that share it.
abbrev busy : List (ℕ × ℕ)
busy = (1_000, 1) ∷ (1_000, 1) ∷ (2_000, 1) ∷ (101_000, 1) ∷ []

serve-le_example :
    (serve busy two).0 * token + (serve busy two).1.tokens + two.last_refill * two.rate
    ≤ two.tokens + (serve busy two).1.last_refill * two.rate
serve-le_example = serve-le busy two (omega arith, (omega arith, (omega arith, (omega arith, tt))))

abbrev empty : Bucket
empty = record two { tokens = 0; last_refill = 1_000 }

acquire-waited_example : (acquire 1 (1_000 ∷ 101_000 ∷ []) empty).0 ≡ true
unfolding attempt refill
acquire-waited_example =
    acquire-waited 1_000 101_000 0 100_000 empty (omega arith) (omega arith) (omega arith)
      (omega arith)
