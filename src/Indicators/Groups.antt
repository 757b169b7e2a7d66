-- ===== src/Indicators/Groups.antt =====
-- _tf_groups, warm_tf and pair_indicators_tf of PoolIndicatorEngine in
-- strategies/pool_indicator_engine.py: the minute series resampled to candles of `tf` minutes.
use option_chain_based_strat.Common.{
  ℕ, ◌+◌, ◌/◌, max, Bool, not, Option, none, some, List, [], ◌∷◌, map, leb, eqb, if◌then◌else◌,
  length, keep, get_last?,
}
use option_chain_based_strat.Common.Int.{
  ℤ, pos, negsuc, ◌+ℤ◌, ◌-ℤ◌, ◌*ℤ◌, ltb_ℤ, leb_ℤ, max_ℤ, sub_ℕ,
}
use option_chain_based_strat.Common.Dict.{Dict, lookup, insert, contains, keys}
use option_chain_based_strat.Strikes.Sets.{strike_eq}
use option_chain_based_strat.Straddle.Chain.{ce, pe, key_eq}
use option_chain_based_strat.Indicators.Engine.{PoolEngine, Track, track_at, or_zeros, last_pair}
use option_chain_based_strat.Indicators.Pair.{PairValues, roc_of, engine_indicators}

-- `m // tf`, which rounds down below zero too.
abbrev pub floor_div : ℤ → ℕ → ℤ
floor_div (pos m) tf = pos (m / tf)
floor_div (negsuc m) tf = negsuc (m / tf)

-- The loop over the bars of an option; the last bar of a group wins.
unfoldable pub group_bars : ℕ → List ℕ → List ℕ → List ℤ → Dict ℤ (ℕ × ℕ) → Dict ℤ (ℕ × ℕ)
group_bars tf (c ∷ cs) (a ∷ as_) (m ∷ ms) groups =
    group_bars tf cs as_ ms (insert (floor_div m tf) (c, a) groups)
group_bars tf _ _ _ groups = groups

unfoldable pub max_of : ℤ → List ℤ → ℤ
max_of best [] = best
max_of best (m ∷ ms) = max_of (max_ℤ best m) ms

-- Whether the last minute of the group is committed.
unfoldable pub is_committed : ℕ → ℤ → ℤ → Bool
is_committed tf m_max g = leb_ℤ ((g +ℤ pos 1) *ℤ pos tf -ℤ pos 1) m_max

abbrev pub complete_entry : ℕ → ℤ → ℤ × (ℕ × ℕ) → Bool
complete_entry tf m_max (g, v) = is_committed tf m_max g

unfoldable pub resampled : ℕ → List ℕ → List ℕ → List ℤ → Dict ℤ (ℕ × ℕ)
unfolding group_bars max_of
resampled tf closes atps [] = []
resampled tf closes atps (m ∷ ms) =
    keep (complete_entry tf (max_of m ms)) (group_bars tf closes atps (m ∷ ms) [])

unfoldable pub tf_groups : ℕ → Track → Dict ℤ (ℕ × ℕ)
unfolding resampled
tf_groups tf t = resampled tf t.closes t.atps t.mins

unfoldable pub insert_sorted : ℤ → List ℤ → List ℤ
insert_sorted g [] = g ∷ []
insert_sorted g (h ∷ hs) = if leb_ℤ g h then g ∷ h ∷ hs else h ∷ insert_sorted g hs

unfoldable pub sorted_groups : List ℤ → List ℤ
unfolding insert_sorted
sorted_groups [] = []
sorted_groups (g ∷ gs) = insert_sorted g (sorted_groups gs)

-- The groups that both legs have, in ascending order.
unfoldable pub common_groups : Dict ℤ (ℕ × ℕ) → Dict ℤ (ℕ × ℕ) → List ℤ
unfolding sorted_groups
common_groups cg pg = sorted_groups (keep (λ g. contains g pg) (keys cg))

unfoldable pub warm_tf : ℕ → ℕ → ℕ → PoolEngine → Bool
unfolding tf_groups common_groups
warm_tf ce_strike pe_strike tf e =
    let cg = tf_groups (max tf 1) (track_at (ce_strike, ce) e) in
    let pg = tf_groups (max tf 1) (track_at (pe_strike, pe) e) in
    leb (e.rsi_len + 1) (length (common_groups cg pg))

-- The close and the atp of both legs in a group that both have.
abbrev pub both_at : Dict ℤ (ℕ × ℕ) → Dict ℤ (ℕ × ℕ) → ℤ → ℕ × ℕ
both_at cg pg g =
    let c = or_zeros (lookup g cg) in let p = or_zeros (lookup g pg) in (c.0 + p.0, c.1 + p.1)

unfoldable pub tf_slope : List ℕ → Option (ℤ × ℕ)
unfolding last_pair
tf_slope vwaps = elim (last_pair vwaps) [
  | none ↦ none
  | some (curr, prev) ↦ some (sub_ℕ curr prev, prev)
]

module _ {R : Type 0} (rsi_of : List ℕ → R) where
  -- Without a common group there is none from today, so that both early returns are one.
  unfoldable pub groups_values :
      Dict ℤ (ℕ × ℕ) → Dict ℤ (ℕ × ℕ) → PoolEngine → Option (PairValues R)
  unfolding common_groups tf_slope roc_of
  groups_values cg pg e =
      let common = common_groups cg pg in
      let live = keep (λ g. not (ltb_ℤ g (pos 0))) common in
      let closes = map (λ g. (both_at cg pg g).0) common in
      elim (get_last? live) [
        | none ↦ none
        | some g ↦
            let (close, vwap) = both_at cg pg g in
            if eqb close 0
            then none
            else if eqb vwap 0
            then none
            else some (record {
              close = close;
              vwap = vwap;
              stale_atp = none;
              slope = tf_slope (map (λ h. (both_at cg pg h).1) live);
              rsi = if leb (e.rsi_len + 1) (length closes) then some (rsi_of closes) else none;
              roc = roc_of e.roc_len closes;
            })
      ]

  unfoldable pub indicators_tf : ℕ → ℕ → ℕ → ℕ → PoolEngine → Option (PairValues R)
  unfolding groups_values tf_groups engine_indicators
  indicators_tf now ce_strike pe_strike tf e =
      if leb tf 1
      then engine_indicators rsi_of now ce_strike pe_strike 0 e
      else groups_values (tf_groups tf (track_at (ce_strike, ce) e))
          (tf_groups tf (track_at (pe_strike, pe) e)) e
