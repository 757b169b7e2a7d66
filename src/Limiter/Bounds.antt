-- ===== src/Limiter/Bounds.antt =====
-- How many tokens a bucket gives out, and how long a task waits.
use option_chain_based_strat.Common.{
  ℕ, suc, ◌+◌, ◌-◌, ◌*◌, ◌≤◌, ◌<◌, ◌≡◌, sym, ap, ◌∙◌, inl, inr, true, false, List, [], ◌∷◌, arith,
  leb, eqb, if◌then◌else◌, Bool-cases,
}
use mathlib.Core.Path.{subst}
use native.Mathlib.Nat.{mul-le-mul_right}
use option_chain_based_strat.Limiter.Bucket.{
  token, Bucket, refill, attempt, deficit, acquire, serve,
}

-- The rounds run at times that do not fall, from the last refill on.
abbrev pub Rising : ℕ → List (ℕ × ℕ) → Type 0
Rising last [] = Unit
Rising last ((now, n) ∷ rounds) = (last ≤ now) × Rising now rounds

refill-le :
    (now : ℕ) (b : Bucket)
    → b.last_refill ≤ now
    → (refill now b).tokens + b.last_refill * b.rate ≤ b.tokens + now * b.rate
unfolding refill
refill-le now b h = elim (Bool-cases (eqb b.last_refill 0)) [
  | inl fresh ↦
      (let start : b.last_refill ≡ 0 = ground (arith, fresh) in
        let still : now - now ≡ 0 = omega arith in rw (fresh, refill, still, start) (omega arith))
  | inr going ↦
      (let whole : (now - b.last_refill) + b.last_refill ≡ now = omega arith in
        rw (going, refill) (omega (arith, ap (λ (t : ℕ). t * b.rate) whole)))
]

attempt-last : (now n : ℕ) (b : Bucket) → (attempt now n b).1.last_refill ≡ now
unfolding attempt refill
attempt-last now n b = elim (Bool-cases (leb (n * token) (refill now b).tokens)) [
  | inl enough ↦ rw (enough, attempt)
  | inr short ↦ rw (short, attempt)
]

attempt-rate : (now n : ℕ) (b : Bucket) → (attempt now n b).1.rate ≡ b.rate
unfolding attempt refill
attempt-rate now n b = elim (Bool-cases (leb (n * token) (refill now b).tokens)) [
  | inl enough ↦ rw (enough, attempt)
  | inr short ↦ rw (short, attempt)
]

attempt-le :
    (now n : ℕ) (b : Bucket)
    → b.last_refill ≤ now
    → (if (attempt now n b).0 then n else 0) * token
        + (attempt now n b).1.tokens
        + b.last_refill * b.rate
      ≤ b.tokens + now * b.rate
attempt-le now n b h =
    let base = refill-le now b h in
    elim (Bool-cases (leb (n * token) (refill now b).tokens)) [
      | inl enough ↦ unfold attempt in rw (enough, attempt) (ground (arith, base, enough))
      | inr short ↦ unfold attempt in rw (short, attempt) (omega (arith, base))
    ]

-- However many tasks share a bucket, and in whatever order their rounds run: the tokens that are
-- taken, with those that are left, come to no more than the tokens there were and the refill at the
-- bucket's rate since then.
pub serve-le :
    (rounds : List (ℕ × ℕ)) (b : Bucket)
    → Rising b.last_refill rounds
    → let (taken, b') = serve rounds b in
      taken * token + b'.tokens + b.last_refill * b.rate ≤ b.tokens + b'.last_refill * b.rate
unfolding serve
serve-le [] b h = omega arith
serve-le ((now, n) ∷ rounds) b (h, hs) =
    let b' = (attempt now n b).1 in
    let later = serve-le rounds b' (subst (λ t. Rising t rounds) (sym (attempt-last now n b)) hs) in
    omega (arith, attempt-le now n b h, rw (attempt-last now n b, attempt-rate now n b) at later)

attempt-burst : (now n : ℕ) (b : Bucket) → (attempt now n b).1.burst ≡ b.burst
unfolding attempt refill
attempt-burst now n b = elim (Bool-cases (leb (n * token) (refill now b).tokens)) [
  | inl enough ↦ rw (enough, attempt)
  | inr short ↦ rw (short, attempt)
]

attempt-waited :
    (now n d : ℕ) (b : Bucket)
    → 0 < b.last_refill
    → n ≤ b.burst
    → deficit n b ≤ d * b.rate
    → b.last_refill + d ≤ now
    → (attempt now n b).0 ≡ true
attempt-waited now n d b set fits slept passed =
    let going : eqb b.last_refill 0 ≡ false = ground arith in
    let grown : d * b.rate ≤ (now - b.last_refill) * b.rate =
      mul-le-mul_right b.rate (omega arith) in
    let enough : leb (n * token) (refill now b).tokens ≡ true =
      unfold refill in rw (going, refill) (ground (arith, grown, slept, fits)) in
    unfold attempt in rw (enough, attempt)

acquire-taken :
    (now n : ℕ) (times : List ℕ) (b : Bucket)
    → (attempt now (suc n) b).0 ≡ true
    → (acquire (suc n) (now ∷ times) b).0 ≡ true
unfolding acquire
acquire-taken now n times b h = rw (h, acquire)

acquire-next :
    (now n : ℕ) (times : List ℕ) (b : Bucket)
    → (attempt now (suc n) b).0 ≡ false
    → acquire (suc n) (now ∷ times) b ≡ acquire (suc n) times (attempt now (suc n) b).1
unfolding acquire
acquire-next now n times b h = rw (h, acquire)

-- A task that asks for no more than the burst gets its tokens in the second round at the latest, if
-- no other task takes any in between: its sleep, of the missing tokens over the rate, suffices.
pub acquire-waited :
    (now later n d : ℕ) (b : Bucket)
    → 0 < now
    → suc n ≤ b.burst
    → deficit (suc n) (attempt now (suc n) b).1 ≤ d * b.rate
    → now + d ≤ later
    → (acquire (suc n) (now ∷ later ∷ []) b).0 ≡ true
acquire-waited now later n d b set fits slept passed = elim (Bool-cases (attempt now (suc n) b).0) [
  | inl at_once ↦ acquire-taken now n (later ∷ []) b at_once
  | inr short ↦
      (let b' = (attempt now (suc n) b).1 in
        let second : (attempt later (suc n) b').0 ≡ true =
          attempt-waited later (suc n) d b' (rw (attempt-last now (suc n) b) set)
            (rw (attempt-burst now (suc n) b) fits) (rw (attempt-rate now (suc n) b) slept)
            (rw (attempt-last now (suc n) b) passed) in
        ap (λ r. r.0) (acquire-next now n (later ∷ []) b short)
        ∙ acquire-taken later n [] b' second)
]
