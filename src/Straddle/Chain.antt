-- ===== src/Straddle/Chain.antt =====
-- The option chain of strategies/straddle_selection.py, its values and indicators, and the time value
-- of strategies/theta_calc.py. Spot, strikes, steps and prices are whole numbers of one unit.
use mathlib.Core.Logic.{◌↔◌}
use option_chain_based_strat.Common.{
  ℕ, ◌+◌, ◌-◌, ◌*◌, ◌≡◌, Bool, true, false, ◌&&◌, ◌||◌, Option, none, some, Eq, arith, eqb, ltb,
  if◌then◌else◌,
}
use option_chain_based_strat.Common.Int.{ℤ, pos, pos_part, neg_part, sub_ℕ, ◌-ℤ◌, ◌*ℤ◌}
use option_chain_based_strat.Common.Dict.{Dict, lookup}
use option_chain_based_strat.Common.Round.{round_div}

-- "CE" or "PE".
pub data Side : Type 0 where
  ce pe : Side

abbrev pub same_side : Side → Side → Bool
same_side ce ce = true
same_side pe pe = true
same_side _ _ = false

abbrev pub Key : Type 0
Key = ℕ × Side

abbrev pub same_key : Key → Key → Bool
same_key (j, a) (k, b) = eqb j k && same_side a b

pub same_key_iff : (a b : Key) → (same_key a b ≡ true) ↔ (a ≡ b)
same_key_iff (j, ce) (k, ce) = ground arith
same_key_iff (j, ce) (k, pe) = ground arith
same_key_iff (j, pe) (k, ce) = ground arith
same_key_iff (j, pe) (k, pe) = ground arith

instance abbrev pub key_eq : Eq Key
key_eq = record { same = same_key; same_iff = same_key_iff }

-- The latest and the average traded price of an option.
pub record Quote : Type 0 where
  pub ltp : ℕ
  pub atp : ℕ

abbrev pub Chain : Type 0
Chain = Dict Key Quote

-- `entry_basis`: "theta", or anything else.
pub data Basis : Type 0 where
  by_ltp by_theta : Basis

-- `round(spot / step) * step`, for a step above 0.
abbrev pub nearest_strike : ℕ → ℕ → ℕ
nearest_strike spot step = round_div spot step * step

-- compute_atm of strategies/strike_utils.py, which straddle_selection.py writes out; `none` where it
-- raises a ZeroDivisionError.
abbrev pub compute_atm : ℕ → ℕ → Option ℕ
compute_atm spot step = if eqb step 0 then none else some (nearest_strike spot step)

-- A call that raises exactly under a condition, and else gives what satisfies `P`.
abbrev pub UnlessRaised : {A : Type 0} → Bool → (A → Type 0) → Option A → Type 0
UnlessRaised raises P none = raises ≡ true
UnlessRaised raises P (some a) = (raises ≡ false) × P a

-- intrinsic_value of theta_calc.py.
abbrev pub intrinsic_value : Side → ℕ → ℕ → ℕ
intrinsic_value ce strike spot = spot - strike
intrinsic_value pe strike spot = strike - spot

-- It takes the intrinsic value by its own test of the side, not by theta_calc.py.
unfoldable pub strip_intrinsic : ℕ → Side → ℕ → ℕ → ℤ
strip_intrinsic ltp side strike spot =
    sub_ℕ ltp (if same_side side ce then spot - strike else strike - spot)

-- `max(0.0, …)` of a signed amount is its positive part.
unfoldable pub leg_entry_value : Side → ℕ → ℕ → ℕ → Basis → ℕ
unfolding strip_intrinsic
leg_entry_value side strike ltp spot by_theta = pos_part (strip_intrinsic ltp side strike spot)
leg_entry_value side strike ltp spot by_ltp = ltp

-- `abs(premium - intrinsic)`
unfoldable pub time_value : Side → ℕ → ℕ → ℕ → ℕ
time_value side strike spot premium =
    let d = sub_ℕ premium (intrinsic_value side strike spot) in pos_part d + neg_part d

unfoldable pub combined_time_value : ℕ → ℕ → ℕ → ℕ → ℕ → ℕ
unfolding time_value
combined_time_value ce_strike pe_strike spot ce_premium pe_premium =
    time_value ce ce_strike spot ce_premium + time_value pe pe_strike spot pe_premium

-- A percentage as a quotient over the entry's time value, and 0 over 1 where that is 0.
unfoldable pub theta_decay_pct : ℕ → ℕ → ℤ × ℕ
theta_decay_pct entry current =
    if eqb entry 0 then (pos 0, 1) else ((pos entry -ℤ pos current) *ℤ pos 100, entry)

-- The dict that pair_indicators returns.
pub record Indicators : Type 0 where
  pub close : ℕ
  pub vwap : ℕ
  pub slope : Option ℤ

-- The previous values count where both are there and above 0.
abbrev pub slope_of : Option ℕ → Option ℕ → ℕ → Option ℤ
slope_of (some c) (some p) vwap = if ltb 0 c && ltb 0 p then some (sub_ℕ vwap (c + p)) else none
slope_of _ _ vwap = none

abbrev pub indicators_of : Option Quote → Option Quote → Option ℕ → Option ℕ → Option Indicators
indicators_of (some c) (some p) c_prev p_prev =
    if (eqb c.ltp 0 || eqb p.ltp 0) || (eqb c.atp 0 || eqb p.atp 0)
    then none
    else some (record {
      close = c.ltp + p.ltp;
      vwap = c.atp + p.atp;
      slope = slope_of c_prev p_prev (c.atp + p.atp);
    })
indicators_of _ _ c_prev p_prev = none

unfoldable pub pair_indicators : Chain → Dict Key ℕ → ℕ → ℕ → Option Indicators
pair_indicators prem prev ce_strike pe_strike =
    indicators_of (lookup (ce_strike, ce) prem) (lookup (pe_strike, pe) prem)
      (lookup (ce_strike, ce) prev) (lookup (pe_strike, pe) prev)
