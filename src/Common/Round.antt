-- ===== src/Common/Round.antt =====
-- Python's `round` on exact quotients.
use option_chain_based_strat.Common.{
  ℕ, suc, ◌*◌, ◌/◌, ◌%◌, ◌≤◌, ◌<◌, ◌≡◌, ap, arith, ltb, eqb, if◌then◌else◌,
}
use native.Mathlib.Decide.{dec_lt}
use native.Mathlib.Nat.{div-le_of_le-mul, div-add-mod'}

-- Python's `round` of n / d: to the nearest whole, and to the even one of two as near.
unfoldable pub round_div : ℕ → ℕ → ℕ
round_div n d =
    let q = n / d in
    let r = n % d in
    if ltb (2 * r) d then q else if ltb d (2 * r) then suc q else if eqb (q % 2) 0 then q else suc q

pub round_div-ge : (n d k : ℕ) → 0 < d → k * d ≤ n → k ≤ round_div n d
unfolding round_div
round_div-ge n d k h le = let q : k ≤ n / d = grind arith in ground arith

pub round_div-le : (n d k : ℕ) → 0 < d → n ≤ k * d → round_div n d ≤ k
unfolding round_div
round_div-le n d k h le = elim (dec_lt (n / d) k) [
  | yes below ↦ ground arith
  | no full ↦
      let q : n / d ≡ k = omega (arith, div-le_of_le-mul d {m = n} {n = k} (omega arith)) in
      let r : n % d ≡ 0 = omega (arith, div-add-mod' n d, ap (λ (t : ℕ). t * d) q) in ground arith
]
