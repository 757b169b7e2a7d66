-- ===== src/Straddle/Theta.antt =====
-- The time value of the entry rules against that of the exit rules.
use option_chain_based_strat.Common.{ℕ, ◌≤◌, ◌<◌, ◌≡◌, ◌⊎◌, arith}
use option_chain_based_strat.Straddle.Chain.{
  Side, ce, pe, intrinsic_value, by_theta, strip_intrinsic, leg_entry_value, time_value,
}

-- The value by which straddle_selection.py chooses an option for entry is no more than the time value
-- by which theta_calc.py follows its decay for the exit, each with its own intrinsic value, and is
-- the same unless the option trades below its intrinsic value.
pub leg_entry_value-time_value :
    (side : Side) (strike ltp spot : ℕ)
    → (leg_entry_value side strike ltp spot by_theta ≤ time_value side strike spot ltp)
      × ((ltp < intrinsic_value side strike spot)
          ⊎ (leg_entry_value side strike ltp spot by_theta ≡ time_value side strike spot ltp))
unfolding leg_entry_value strip_intrinsic time_value
leg_entry_value-time_value ce strike ltp spot = (ground arith, ground arith)
leg_entry_value-time_value pe strike ltp spot = (ground arith, ground arith)
