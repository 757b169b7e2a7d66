-- ===== src/Straddle/Balance.antt =====
-- What select_balanced_pair chooses.
use mathlib.Core.Path.{subst}
use option_chain_based_strat.Common.{
  ℕ, ◌≤◌, ◌<◌, ◌≡◌, refl, sym, ◌⊎◌, ◌&&◌, ◌||◌, inl, inr, true, false, Option, none, some, List, [],
  ◌∷◌, arith, ltb, eqb, Bool-cases, Option-cases, All, All-map, Elem,
}
use option_chain_based_strat.Common.Dict.{lookup}
use option_chain_based_strat.Straddle.Chain.{
  Side, ce, pe, key_eq, Quote, Chain, nearest_strike, UnlessRaised,
}
use option_chain_based_strat.Straddle.Best.{Picks, best_of-Picks}
use option_chain_based_strat.Straddle.Select.{
  Pick, Terms, worth, strikes, under_anchor, richer, Pair, pair_with, other_side, anchor_side,
  anchor_ltp, with_partner, balance, balance_atm, select_balanced_pair,
}

module _ (prem : Chain) (t : Terms) where
  -- A quoted leg that is worth the floor and costs less than the anchor.
  abbrev pub Under : Side → ℕ → Pick → Type 0
  Under side anchor q =
      (leg : Quote) × (lookup (q.strike, side) prem ≡ some leg)
      × (q.ltp ≡ leg.ltp)
      × (worth t side q.strike q.ltp ≡ true)
      × (q.ltp < anchor)

  under_anchor-Under :
      (side : Side) (anchor s : ℕ) (q : Pick)
      → Elem q (under_anchor prem t side anchor s)
      → (q.strike ≡ s) × Under side anchor q
  under_anchor-Under side anchor s q m = elim (Option-cases (lookup (s, side) prem)) [
    | inl missing ↦
        (let gone : under_anchor prem t side anchor s ≡ [] =
            unfold under_anchor in rw (missing, under_anchor) in
          absurd (subst (Elem q) gone m))
    | inr (leg, there) ↦ elim (Bool-cases (worth t side s leg.ltp && ltb leg.ltp anchor)) [
      | inl pass ↦
          (let one : under_anchor prem t side anchor s ≡ record { strike = s; ltp = leg.ltp } ∷ [] =
              unfold under_anchor in rw (there, pass, under_anchor) in
            elim (subst (Elem q) one m) [
              | inl same ↦
                  rw (← same) (refl, (leg, there, refl, ground (arith, pass), ground (arith, pass)))
              | inr nothing ↦ absurd nothing
            ])
      | inr fail ↦
          (let gone : under_anchor prem t side anchor s ≡ [] =
              unfold under_anchor in rw (there, fail, under_anchor) in
            absurd (subst (Elem q) gone m))
    ]
  ]

  -- The range of strikes around the anchor.
  abbrev pub around : Pick → List ℕ
  around anchor = strikes anchor.strike t.step t.offset

  abbrev pub Partnered : Side → Pick → Option Pair → Type 0
  Partnered side anchor none =
      (worth t side anchor.strike anchor.ltp ≡ false)
      ⊎ All (λ s. under_anchor prem t (other_side side) anchor.ltp s ≡ []) (around anchor)
  Partnered side anchor (some p) =
      (q : Pick) × (p ≡ pair_with side anchor q)
      × (worth t side anchor.strike anchor.ltp ≡ true)
      × Elem q.strike (around anchor)
      × Under (other_side side) anchor.ltp q
      × All (λ s. All (λ y. y.ltp ≤ q.ltp) (under_anchor prem t (other_side side) anchor.ltp s))
          (around anchor)

  abbrev pub Selection : ℕ → Option Quote → Option Quote → Option Pair → Type 0
  Selection atm (some c) (some p) o =
      (((c.ltp ≡ 0) ⊎ (p.ltp ≡ 0)) × (o ≡ none))
      ⊎ ((0 < c.ltp)
          × (0 < p.ltp)
          × (let side = anchor_side atm t.spot c.ltp p.ltp in
              Partnered side (record { strike = atm; ltp = anchor_ltp side c.ltp p.ltp }) o))
  Selection atm _ _ o = o ≡ none

  partnered :
      (side : Side) (anchor : Pick) (o : Option Pick)
      → worth t side anchor.strike anchor.ltp ≡ true
      → Picks richer (under_anchor prem t (other_side side) anchor.ltp) (around anchor) o
      → Partnered side anchor (with_partner side anchor o)
  partnered side anchor none pass h = inr h
  partnered side anchor (some q) pass ((s, m, k), best) =
      let (same, under) = under_anchor-Under (other_side side) anchor.ltp s q k in
      (
        q,
        refl,
        pass,
        subst (λ n. Elem n (around anchor)) (sym same) m,
        under,
        All-map _ _ (around anchor)
            (λ n h.
              All-map _ _ (under_anchor prem t (other_side side) anchor.ltp n)
                (λ y k. ground (arith, k)) h)
            best,
      )

  balance-Partnered :
      (side : Side) (anchor : Pick) → Partnered side anchor (balance prem t side anchor)
  balance-Partnered side anchor = elim (Bool-cases (worth t side anchor.strike anchor.ltp)) [
    | inr fail ↦ unfold balance in rw (fail, balance) (inl fail)
    | inl pass ↦
        unfold balance in
        rw (pass, balance)
          (partnered side anchor _ pass (
            best_of-Picks richer (under_anchor prem t (other_side side) anchor.ltp)
              (λ y. ground arith) (λ x y z a b. ground arith) (around anchor)))
  ]

  balance_atm-Selection :
      (atm : ℕ) (c p : Option Quote) → Selection atm c p (balance_atm prem t atm c p)
  balance_atm-Selection atm none p = refl
  balance_atm-Selection atm (some c) none = refl
  balance_atm-Selection atm (some c) (some p) = elim (Bool-cases (eqb c.ltp 0 || eqb p.ltp 0)) [
    | inl unpriced ↦ rw unpriced (inl (ground (arith, unpriced), refl))
    | inr priced ↦
        rw priced (inr (ground (arith, priced), ground (arith, priced), balance-Partnered _ _))
  ]

  -- Where both ATM options have a price, select_balanced_pair anchors the one with the lower time
  -- value; it returns none exactly where that one is under the floor or no strike around ATM has a
  -- cheaper option of the other side over the floor, and else the anchor with such an option of the
  -- highest price. Without a price of both it returns none. It raises exactly with a step of 0.
  pub select_balanced_pair-Selection :
      let atm = nearest_strike t.spot t.step in
      UnlessRaised
        (eqb t.step 0)
        (Selection atm (lookup (atm, ce) prem) (lookup (atm, pe) prem))
        (select_balanced_pair prem t)
  unfolding select_balanced_pair
  select_balanced_pair-Selection = elim (Bool-cases (eqb t.step 0)) [
    | inl zero_step ↦ rw (zero_step, select_balanced_pair) refl
    | inr stepped ↦ rw (stepped, select_balanced_pair) (refl, balance_atm-Selection _ _ _)
  ]
