-- ===== src/Risk/Amount.antt =====
-- Signed amounts of money as exact quotients, in place of the floats of management/risk_manager.py.
use option_chain_based_strat.Common.{ℕ, ◌*◌, Bool, List, [], ◌∷◌}
use option_chain_based_strat.Common.Int.{ℤ, pos, ◌+ℤ◌, ◌-ℤ◌, ◌*ℤ◌, ltb_ℤ}

-- `num / den`, with `den` above 0.
pub record Amount : Type 0 where
  pub num : ℤ
  pub den : ℕ

abbrev pub whole : ℕ → Amount
whole n = record { num = pos n; den = 1 }

abbrev pub nothing : Amount
nothing = whole 0

unfoldable pub add : Amount → Amount → Amount
add a b = record { num = (a.num *ℤ pos b.den) +ℤ (b.num *ℤ pos a.den); den = a.den * b.den }

unfoldable pub sub : Amount → Amount → Amount
sub a b = record { num = (a.num *ℤ pos b.den) -ℤ (b.num *ℤ pos a.den); den = a.den * b.den }

-- Times a count.
unfoldable pub times : Amount → ℕ → Amount
times a n = record { num = a.num *ℤ pos n; den = a.den }

-- Through a count above 0.
unfoldable pub over : Amount → ℕ → Amount
over a n = record { num = a.num; den = a.den * n }

unfoldable pub less : Amount → Amount → Bool
less a b = ltb_ℤ (a.num *ℤ pos b.den) (b.num *ℤ pos a.den)

unfoldable pub sum_of : List Amount → Amount
unfolding add
sum_of [] = nothing
sum_of (a ∷ rest) = add a (sum_of rest)
