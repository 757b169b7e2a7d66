-- ===== src/Straddle/Select.antt =====
-- The selections of strategies/straddle_selection.py. The lines that only write the trace are left
-- out. A strike under 0 is a key of no chain, so that the loops over strikes pass it over.
use Prim.Native.String.{String}
use option_chain_based_strat.Common.{
  ℕ, zero, suc, ◌+◌, ◌-◌, ◌*◌, Bool, false, not, ◌&&◌, ◌||◌, Option, none, some, List, [], ◌∷◌, ltb,
  leb, eqb, if◌then◌else◌,
}
use option_chain_based_strat.Common.Int.{ltb_ℤ}
use option_chain_based_strat.Common.Dict.{lookup}
use option_chain_based_strat.Straddle.Chain.{
  Side, ce, pe, same_side, Key, key_eq, Quote, Chain, Basis, by_ltp, by_theta, compute_atm,
  nearest_strike, strip_intrinsic, leg_entry_value,
}
use option_chain_based_strat.Straddle.Best.{gather, best_of}

-- A strike with its price.
pub record Pick : Type 0 where
  pub strike : ℕ
  pub ltp : ℕ

-- `abs(a - b)`
abbrev pub dist : ℕ → ℕ → ℕ
dist a b = (a - b) + (b - a)

-- The arguments of select_partner_for.
pub record Roll : Type 0 where
  pub roll_side : Side
  pub kept_strike : ℕ
  pub kept_ltp : ℕ
  pub spot : ℕ
  pub step : ℕ
  pub offset : ℕ
  pub ltp_target : ℕ
  pub max_itm_steps : Option ℕ

-- `atm and abs(strike - atm) > offset * step`; `atm` is 0 where the spot is.
abbrev pub off_band : Roll → ℕ → Bool
off_band r strike =
    let atm = if ltb 0 r.spot then nearest_strike r.spot r.step else 0 in
    ltb 0 atm && ltb (r.offset * r.step) (dist strike atm)

-- How far in the money the strike lies.
abbrev pub itm_pts : Side → ℕ → ℕ → ℕ
itm_pts ce strike spot = spot - strike
itm_pts pe strike spot = strike - spot

abbrev pub too_deep : Roll → Option ℕ → ℕ → Bool
too_deep r none strike = false
too_deep r (some cap) strike =
    ltb 0 r.spot && ltb 0 r.step && ltb (cap * r.step) (itm_pts r.roll_side strike r.spot)

abbrev pub rolled_pair : Side → ℕ → ℕ → ℕ × ℕ
rolled_pair pe kept strike = (kept, strike)
rolled_pair ce kept strike = (strike, kept)

-- None of the `continue`s of the loop is taken.
unfoldable pub rollable : (ℕ → ℕ → Bool) → Roll → Key → Quote → Bool
rollable rule_pass r (strike, side) v =
    let (ce_s, pe_s) = rolled_pair r.roll_side r.kept_strike strike in
    same_side side r.roll_side
    && (not (off_band r strike)
        && (not (too_deep r r.max_itm_steps strike)
            && (not (ltb v.ltp r.ltp_target)
                && (not (ltb 0 r.kept_ltp && ltb r.kept_ltp v.ltp) && rule_pass ce_s pe_s))))

-- The candidate that an item of the chain gives.
unfoldable pub partner_at : (ℕ → ℕ → Bool) → Roll → Key × Quote → List Pick
unfolding rollable
partner_at rule_pass r (key, v) =
    if rollable rule_pass r key v then record { strike = key.0; ltp = v.ltp } ∷ [] else []

-- `diff < best[0]`
abbrev pub nearer : ℕ → Pick → Pick → Bool
nearer kept a b = ltb (dist a.ltp kept) (dist b.ltp kept)

-- `round(spot / step)` at its start raises where the step is 0.
abbrev pub no_step : Roll → Bool
no_step r = ltb 0 r.spot && eqb r.step 0

-- `none` where it raises.
unfoldable pub select_partner_for : (ℕ → ℕ → Bool) → Roll → Chain → Option (Option Pick)
unfolding partner_at
select_partner_for rule_pass r prem =
    if no_step r
    then none
    else some (best_of (nearer r.kept_ltp) none (gather (partner_at rule_pass r) prem))

-- `range(-offset, offset + 1)` over the strikes: `n` of them from `atm + i * step - low` on.
unfoldable pub strikes_from : ℕ → ℕ → ℕ → ℕ → ℕ → List ℕ
strikes_from atm step low i zero = []
strikes_from atm step low i (suc n) =
    let rest = strikes_from atm step low (suc i) n in
    if leb low (atm + i * step) then (atm + i * step - low) ∷ rest else rest

unfoldable pub strikes : ℕ → ℕ → ℕ → List ℕ
unfolding strikes_from
strikes atm step offset = strikes_from atm step (offset * step) 0 (2 * offset + 1)

-- The arguments of select_balanced_pair and scan_pool.
pub record Terms : Type 0 where
  pub spot : ℕ
  pub step : ℕ
  pub offset : ℕ
  pub ltp_target : ℕ
  pub entry_basis : Basis
  pub theta_target : ℕ

abbrev pub floor_of : Terms → Basis → ℕ
floor_of t by_theta = t.theta_target
floor_of t by_ltp = t.ltp_target

-- The value of a leg is at least the floor.
abbrev pub worth : Terms → Side → ℕ → ℕ → Bool
worth t side strike ltp =
    leb (floor_of t t.entry_basis) (leg_entry_value side strike ltp t.spot t.entry_basis)

-- The candidate that a strike gives in the loop of select_balanced_pair.
unfoldable pub under_anchor : Chain → Terms → Side → ℕ → ℕ → List Pick
under_anchor prem t side anchor s = elim (lookup (s, side) prem) [
  | none ↦ []
  | some leg ↦
      if worth t side s leg.ltp && ltb leg.ltp anchor
      then record { strike = s; ltp = leg.ltp } ∷ []
      else []
]

-- `ltp > best[0]`
abbrev pub richer : Pick → Pick → Bool
richer a b = ltb b.ltp a.ltp

-- The result: the two strikes and their prices.
pub record Pair : Type 0 where
  pub ce_strike : ℕ
  pub pe_strike : ℕ
  pub ce_ltp : ℕ
  pub pe_ltp : ℕ

abbrev pub other_side : Side → Side
other_side ce = pe
other_side pe = ce

abbrev pub pair_with : Side → Pick → Pick → Pair
pair_with ce anchor partner = record {
  ce_strike = anchor.strike;
  pe_strike = partner.strike;
  ce_ltp = anchor.ltp;
  pe_ltp = partner.ltp;
}
pair_with pe anchor partner = record {
  ce_strike = partner.strike;
  pe_strike = anchor.strike;
  ce_ltp = partner.ltp;
  pe_ltp = anchor.ltp;
}

-- The ATM leg of the side with the lower time value; on a tie, the put.
abbrev pub anchor_side : ℕ → ℕ → ℕ → ℕ → Side
anchor_side atm spot ce_ltp pe_ltp =
    if ltb_ℤ (strip_intrinsic ce_ltp ce atm spot) (strip_intrinsic pe_ltp pe atm spot)
    then ce
    else pe

abbrev pub anchor_ltp : Side → ℕ → ℕ → ℕ
anchor_ltp ce ce_ltp pe_ltp = ce_ltp
anchor_ltp pe ce_ltp pe_ltp = pe_ltp

abbrev pub with_partner : Side → Pick → Option Pick → Option Pair
with_partner side anchor none = none
with_partner side anchor (some partner) = some (pair_with side anchor partner)

-- From the anchor on.
unfoldable pub balance : Chain → Terms → Side → Pick → Option Pair
unfolding under_anchor strikes
balance prem t side anchor =
    if worth t side anchor.strike anchor.ltp
    then with_partner side anchor (
        best_of richer none (
          gather (under_anchor prem t (other_side side) anchor.ltp)
            (strikes anchor.strike t.step t.offset)))
    else none

abbrev pub balance_atm : Chain → Terms → ℕ → Option Quote → Option Quote → Option Pair
balance_atm prem t atm (some c) (some p) =
    if eqb c.ltp 0 || eqb p.ltp 0
    then none
    else (let side = anchor_side atm t.spot c.ltp p.ltp in
        balance prem t side (record { strike = atm; ltp = anchor_ltp side c.ltp p.ltp }))
balance_atm prem t atm _ _ = none

-- `none` where it raises.
unfoldable pub select_balanced_pair : Chain → Terms → Option (Option Pair)
unfolding balance
select_balanced_pair prem t = elim (compute_atm t.spot t.step) [
  | none ↦ none
  | some atm ↦ some (balance_atm prem t atm (lookup (atm, ce) prem) (lookup (atm, pe) prem))
]

-- The dicts that reentry_block_reason returns.
pub data Block : Type 0 where
  no_pair : Block
  passed : Pair → String → Block
  blocked : Pair → String → Block

abbrev pub judged : (ℕ → ℕ → Bool × String) → Option Pair → Block
judged rule_eval none = no_pair
judged rule_eval (some p) =
    let (ok, why) = rule_eval p.ce_strike p.pe_strike in if ok then passed p why else blocked p why

-- It calls the selection with the default basis.
unfoldable pub reentry_block_reason : Chain → Terms → (ℕ → ℕ → Bool × String) → Option Block
unfolding select_balanced_pair
reentry_block_reason prem t rule_eval =
    elim (select_balanced_pair prem (record t { entry_basis = by_ltp; theta_target = 0 })) [
      | none ↦ none
      | some o ↦ some (judged rule_eval o)
    ]
