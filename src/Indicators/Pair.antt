-- ===== src/Indicators/Pair.antt =====
-- pair_indicators of PoolIndicatorEngine in strategies/pool_indicator_engine.py: the values of a
-- call and a put together.
use option_chain_based_strat.Common.{
  ℕ, zero, suc, ◌+◌, ◌-◌, ◌*◌, Bool, not, Option, none, some, List, [], ◌∷◌, min, leb, eqb,
  if◌then◌else◌, length, get_elem?, drop,
}
use option_chain_based_strat.Common.Int.{ℤ, sub_ℕ}
use option_chain_based_strat.Common.Dict.{lookup}
use option_chain_based_strat.Straddle.Chain.{ce, pe, key_eq}
use option_chain_based_strat.Indicators.Engine.{
  PoolEngine, Track, track_at, pair_atp_fresh, live_atps, last_pair,
}

-- The dict of indicators; a key that is left out is `none`. The slope stands with the vwap before
-- it, and the rate of change is a quotient in percent.
pub record PairValues (R : Type 0) : Type 0 where
  pub close : ℕ
  pub vwap : ℕ
  pub stale_atp : Option Bool
  pub slope : Option (ℤ × ℕ)
  pub rsi : Option R
  pub roc : Option (ℤ × ℕ)

unfoldable pub sum_series : List ℕ → List ℕ → List ℕ
sum_series [] bs = []
sum_series (a ∷ as_) [] = []
sum_series (a ∷ as_) (b ∷ bs) = (a + b) ∷ sum_series as_ bs

-- The closes of both legs, as far back as both go.
unfoldable pub combined_closes : Track → Track → List ℕ
unfolding sum_series
combined_closes c p =
    let n = min (length c.closes) (length p.closes) in
    sum_series (drop (length c.closes - n) c.closes) (drop (length p.closes - n) p.closes)

-- `a[-i]`, for an index from 1.
abbrev pub from_end : ℕ → List ℕ → Option ℕ
from_end i xs = get_elem? xs (length xs - i)

unfoldable pub pair_slope : Track → Track → Option (ℤ × ℕ)
unfolding live_atps last_pair
pair_slope c p = elim (last_pair (live_atps c.atps c.mins)) [
  | none ↦ none
  | some (c_curr, c_prev) ↦ elim (last_pair (live_atps p.atps p.mins)) [
    | none ↦ none
    | some (p_curr, p_prev) ↦ some (sub_ℕ (c_curr + p_curr) (c_prev + p_prev), c_prev + p_prev)
  ]
]

unfoldable pub roc_of : ℕ → List ℕ → Option (ℤ × ℕ)
roc_of roc_len closes =
    if leb (roc_len + 1) (length closes)
    then elim (from_end (roc_len + 1) closes) [
      | none ↦ none
      | some zero ↦ none
      | some (suc r) ↦ elim (from_end 1 closes) [
        | none ↦ none
        | some last ↦ some (sub_ℕ (100 * last) (100 * suc r), suc r)
      ]
    ]
    else none

module _ {R : Type 0} (rsi_of : List ℕ → R) where
  abbrev pub values_of : Bool → ℕ × ℕ → ℕ × ℕ → Track → Track → PoolEngine → PairValues R
  values_of fresh (c_ltp, c_atp) (p_ltp, p_atp) c p e =
      let closes = combined_closes c p in
      record {
        close = c_ltp + p_ltp;
        vwap = c_atp + p_atp;
        stale_atp = some (not fresh);
        slope = pair_slope c p;
        rsi = if leb (e.rsi_len + 1) (length closes) then some (rsi_of closes) else none;
        roc = roc_of e.roc_len closes;
      }

  unfoldable pub engine_indicators : ℕ → ℕ → ℕ → ℕ → PoolEngine → Option (PairValues R)
  unfolding pair_atp_fresh pair_slope roc_of combined_closes
  engine_indicators now ce_strike pe_strike stale_ms e = elim (lookup (ce_strike, ce) e.latest) [
    | none ↦ none
    | some c ↦ elim (lookup (pe_strike, pe) e.latest) [
      | none ↦ none
      | some p ↦
          if eqb (min (min c.0 p.0) (min c.1 p.1)) 0
          then none
          else some (
              values_of (pair_atp_fresh now ce_strike pe_strike stale_ms e) c p
                (track_at (ce_strike, ce) e) (track_at (pe_strike, pe) e) e)
    ]
  ]
