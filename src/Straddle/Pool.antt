-- ===== src/Straddle/Pool.antt =====
-- scan_pool and classify_roll of strategies/straddle_selection.py.
use option_chain_based_strat.Common.{
  ℕ, ◌+◌, ◌*◌, Bool, true, false, not, ◌&&◌, Option, none, some, List, [], ◌∷◌, ltb, if◌then◌else◌,
}
use option_chain_based_strat.Common.Int.{ltb_ℤ}
use option_chain_based_strat.Common.Dict.{lookup}
use option_chain_based_strat.Straddle.Chain.{
  ce, pe, key_eq, Quote, Chain, compute_atm, strip_intrinsic,
}
use option_chain_based_strat.Straddle.Best.{gather, best_of}
use option_chain_based_strat.Straddle.Select.{dist, Terms, worth, Pair, strikes}

-- The call that is stronger has to be the cheaper leg, and else the put.
abbrev pub weaker_cheaper : Bool → ℕ → ℕ → Bool
weaker_cheaper true ce_ltp pe_ltp = ltb ce_ltp pe_ltp
weaker_cheaper false ce_ltp pe_ltp = ltb pe_ltp ce_ltp

-- The candidate of two legs that are quoted.
unfoldable pub pool_pair : (ℕ → ℕ → Bool) → Terms → Bool → ℕ → ℕ → ℕ → ℕ → List Pair
pool_pair rule_pass t ce_stronger s_ce c s_pe p =
    if (ltb 0 c && ltb 0 p)
      && ((worth t ce s_ce c && worth t pe s_pe p)
          && (weaker_cheaper ce_stronger c p && rule_pass s_ce s_pe))
    then record { ce_strike = s_ce; pe_strike = s_pe; ce_ltp = c; pe_ltp = p } ∷ []
    else []

-- The body of the two loops.
unfoldable pub pool_at : Chain → (ℕ → ℕ → Bool) → Terms → Bool → ℕ → ℕ → List Pair
unfolding pool_pair
pool_at prem rule_pass t ce_stronger s_ce s_pe = elim (lookup (s_ce, ce) prem) [
  | none ↦ []
  | some c ↦ elim (lookup (s_pe, pe) prem) [
    | none ↦ []
    | some p ↦ pool_pair rule_pass t ce_stronger s_ce c.ltp s_pe p.ltp
  ]
]

-- The numerator and the denominator of `score`, 999 for a pair without a price.
abbrev pub score : Pair → ℕ × ℕ
score p =
    if ltb 0 (p.ce_ltp + p.pe_ltp) then (dist p.ce_ltp p.pe_ltp, p.ce_ltp + p.pe_ltp) else (999, 1)

-- `score < best[0]`, multiplied out.
abbrev pub lower_score : Pair → Pair → Bool
lower_score a b = ltb ((score a).0 * (score b).1) ((score b).0 * (score a).1)

unfoldable pub pool_from : Chain → (ℕ → ℕ → Bool) → Terms → Bool → List ℕ → Option Pair
unfolding pool_at
pool_from prem rule_pass t ce_stronger ss =
    best_of lower_score none
      (gather (λ s_ce. gather (pool_at prem rule_pass t ce_stronger s_ce) ss) ss)

abbrev pub pool_atm : Chain → (ℕ → ℕ → Bool) → Terms → ℕ → Option Quote → Option Quote → Option Pair
pool_atm prem rule_pass t atm (some c) (some p) =
    pool_from prem rule_pass t
      (ltb_ℤ (strip_intrinsic p.ltp pe atm t.spot) (strip_intrinsic c.ltp ce atm t.spot))
      (strikes atm t.step t.offset)
pool_atm prem rule_pass t atm _ _ = none

-- `none` where it raises.
unfoldable pub scan_pool : Chain → (ℕ → ℕ → Bool) → Terms → Option (Option Pair)
unfolding pool_from
scan_pool prem rule_pass t = elim (compute_atm t.spot t.step) [
  | none ↦ none
  | some atm ↦ some (pool_atm prem rule_pass t atm (lookup (atm, ce) prem) (lookup (atm, pe) prem))
]

-- The text that classify_roll returns.
pub data RollKind : Type 0 where
  full_exit virtual partial_pe partial_ce physical : RollKind

unfoldable pub classify_roll : Bool → Bool → Bool → RollKind
classify_roll ce_same pe_same has_candidates =
    if not has_candidates
    then full_exit
    else if ce_same && pe_same
    then virtual
    else if ce_same && not pe_same
    then partial_pe
    else if pe_same && not ce_same
    then partial_ce
    else physical
