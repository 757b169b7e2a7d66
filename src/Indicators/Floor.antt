-- ===== src/Indicators/Floor.antt =====
-- Division that rounds down, for the minutes of strategies/pool_indicator_engine.py.
use native.Mathlib.Nat.{le-div_iff_mul-le, div-lt_iff_lt-mul}
use option_chain_based_strat.Common.{
  ◌≡◌, ◌↔◌, ◌==◌, refl, ℕ, zero, suc, ◌+◌, ◌*◌, ◌/◌, ◌<◌, Bool, eqb, leb, ltb, ◌&&◌, arith,
}
use option_chain_based_strat.Common.Int.{
  ℤ, pos, negsuc, ◌+ℤ◌, ◌-ℤ◌, ◌*ℤ◌, leb_ℤ, -ℤ_parts, *ℤ_parts,
}
use option_chain_based_strat.Indicators.Groups.{floor_div}
use option_chain_based_strat.Strikes.Sets.{strike_eq}

div_iff : (m t g : ℕ) → 0 < t → eqb (m / t) g ≡ (leb (g * t) m && ltb m (g * t + t))
div_iff m t g h =
    let below : (m / t < suc g) ↔ (m < g * t + t) = (
      λ k. omega (arith, (div-lt_iff_lt-mul {k = t} {x = m} {y = suc g} h).0 k),
      λ k. (div-lt_iff_lt-mul {k = t} {x = m} {y = suc g} h).1 (omega (arith, k)),
    ) in
    ground (arith, le-div_iff_mul-le {k = t} {x = g} {y = m} h, below)

next-pos : (g : ℕ) → pos g +ℤ pos 1 ≡ pos (suc g)
unfolding ◌+ℤ◌
next-pos g = ground arith

next-zero : negsuc 0 +ℤ pos 1 ≡ pos 0
unfolding ◌+ℤ◌
next-zero = refl

next-negsuc : (g : ℕ) → negsuc (suc g) +ℤ pos 1 ≡ negsuc g
unfolding ◌+ℤ◌
next-negsuc g = ground arith

-- The last minute of a group.
abbrev pub last_minute : ℕ → ℤ → ℤ
last_minute tf g = (g +ℤ pos 1) *ℤ pos tf -ℤ pos 1

-- Whether a minute is within a group, from its first minute to its last.
abbrev pub in_window : ℕ → ℤ → ℤ → Bool
in_window tf g m = leb_ℤ (g *ℤ pos tf) m && leb_ℤ m (last_minute tf g)

pub floor_div_iff : (tf : ℕ) (m g : ℤ) → 0 < tf → (floor_div m tf == g) ≡ in_window tf g m
floor_div_iff tf (pos m) (pos g) h = rw (next-pos g) (
    ground (
      arith,
      div_iff m tf g h,
      *ℤ_parts (pos g) (pos tf),
      *ℤ_parts (pos (suc g)) (pos tf),
      -ℤ_parts (pos (suc g) *ℤ pos tf) (pos 1),
    ))
floor_div_iff tf (pos m) (negsuc zero) h = rw (next-zero) (
    ground (
      arith,
      *ℤ_parts (negsuc zero) (pos tf),
      *ℤ_parts (pos 0) (pos tf),
      -ℤ_parts (pos 0 *ℤ pos tf) (pos 1),
    ))
floor_div_iff tf (pos m) (negsuc (suc g)) h = rw (next-negsuc g) (
    ground (
      arith,
      *ℤ_parts (negsuc (suc g)) (pos tf),
      *ℤ_parts (negsuc g) (pos tf),
      -ℤ_parts (negsuc g *ℤ pos tf) (pos 1),
    ))
floor_div_iff tf (negsuc m) (pos g) h = rw (next-pos g) (
    ground (
      arith,
      *ℤ_parts (pos g) (pos tf),
      *ℤ_parts (pos (suc g)) (pos tf),
      -ℤ_parts (pos (suc g) *ℤ pos tf) (pos 1),
    ))
floor_div_iff tf (negsuc m) (negsuc zero) h = rw (next-zero) (
    ground (
      arith,
      div_iff m tf 0 h,
      *ℤ_parts (negsuc zero) (pos tf),
      *ℤ_parts (pos 0) (pos tf),
      -ℤ_parts (pos 0 *ℤ pos tf) (pos 1),
    ))
floor_div_iff tf (negsuc m) (negsuc (suc g)) h = rw (next-negsuc g) (
    ground (
      arith,
      div_iff m tf (suc g) h,
      *ℤ_parts (negsuc (suc g)) (pos tf),
      *ℤ_parts (negsuc g) (pos tf),
      -ℤ_parts (negsuc g *ℤ pos tf) (pos 1),
    ))
