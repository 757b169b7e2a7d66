-- ===== src/Straddle/Scored.antt =====
-- What scan_pool chooses.
use option_chain_based_strat.Common.{
  ℕ, ◌*◌, ◌≤◌, ◌≡◌, ◌&&◌, Bool, true, Option, none, some, List, [], ltb, All, Elem,
}
use option_chain_based_strat.Common.Int.{ltb_ℤ}
use option_chain_based_strat.Common.Dict.{lookup}
use option_chain_based_strat.Straddle.Chain.{ce, pe, key_eq, Quote, Chain, strip_intrinsic}
use option_chain_based_strat.Straddle.Best.{gather}
use option_chain_based_strat.Straddle.Select.{Terms, worth, Pair, strikes}
use option_chain_based_strat.Straddle.Pool.{weaker_cheaper, pool_at, score}

module _ (prem : Chain) (rule_pass : ℕ → ℕ → Bool) (t : Terms) (stronger : Bool) where
  -- Both legs are quoted and worth the floor, the leg that has to be cheaper is, and the rule passes.
  abbrev pub Suits : Pair → Type 0
  Suits r =
      (c : Quote) × (p : Quote) × (lookup (r.ce_strike, ce) prem ≡ some c)
      × (lookup (r.pe_strike, pe) prem ≡ some p)
      × (r.ce_ltp ≡ c.ltp)
      × (r.pe_ltp ≡ p.ltp)
      × (worth t ce r.ce_strike r.ce_ltp ≡ true)
      × (worth t pe r.pe_strike r.pe_ltp ≡ true)
      × (weaker_cheaper stronger r.ce_ltp r.pe_ltp ≡ true)
      × (rule_pass r.ce_strike r.pe_strike ≡ true)

  abbrev Sound : ℕ → ℕ → Pair → Type 0
  Sound s_ce s_pe r = (r.ce_strike ≡ s_ce) × (r.pe_strike ≡ s_pe) × Suits r

  abbrev passes : ℕ → ℕ → ℕ → ℕ → Bool
  passes s_ce c s_pe p =
      (ltb 0 c && ltb 0 p)
      && ((worth t ce s_ce c && worth t pe s_pe p)
          && (weaker_cheaper stronger c p && rule_pass s_ce s_pe))

  -- No lower score, with the denominators multiplied out.
  abbrev pub NoLower : Pair → Pair → Type 0
  NoLower r y = (score r).0 * (score y).1 ≤ (score y).0 * (score r).1

  abbrev pub Pooled : List ℕ → Option Pair → Type 0
  Pooled ss none = All (λ c. All (λ p. pool_at prem rule_pass t stronger c p ≡ []) ss) ss
  Pooled ss (some r) =
      Elem r.ce_strike ss
      × Elem r.pe_strike ss
      × Suits r
      × All (λ c. All (λ p. All (NoLower r) (pool_at prem rule_pass t stronger c p)) ss) ss

  row : List ℕ → ℕ → List Pair
  row ss c = gather (pool_at prem rule_pass t stronger c) ss

module _ (prem : Chain) (rule_pass : ℕ → ℕ → Bool) (t : Terms) where
  abbrev pub ce_stronger : ℕ → Quote → Quote → Bool
  ce_stronger atm c p =
      ltb_ℤ (strip_intrinsic p.ltp pe atm t.spot) (strip_intrinsic c.ltp ce atm t.spot)

  abbrev pub PoolSelection : ℕ → Option Quote → Option Quote → Option Pair → Type 0
  PoolSelection atm (some c) (some p) o =
      Pooled prem rule_pass t (ce_stronger atm c p) (strikes atm t.step t.offset) o
  PoolSelection atm _ _ o = o ≡ none
