-- ===== src/Straddle/Partner.antt =====
-- What select_partner_for chooses.
use mathlib.Core.Path.{subst}
use option_chain_based_strat.Common.{
  ℕ, ◌≤◌, ◌≡◌, refl, sym, ap, ◌⊎◌, inl, inr, Bool, true, false, Option, none, some, [], ◌∷◌, arith,
  Bool-cases, All, All-map, Elem,
}
use option_chain_based_strat.Straddle.Chain.{UnlessRaised, Key, Quote, Chain}
use option_chain_based_strat.Straddle.Best.{Picks, best_of-Picks}
use option_chain_based_strat.Straddle.Select.{
  Pick, dist, Roll, rollable, partner_at, nearer, select_partner_for, no_step,
}

module _ (rule_pass : ℕ → ℕ → Bool) (r : Roll) where
  partner_at-yes :
      (key : Key) (v : Quote)
      → rollable rule_pass r key v ≡ true
      → partner_at rule_pass r (key, v) ≡ record { strike = key.0; ltp = v.ltp } ∷ []
  unfolding partner_at
  partner_at-yes key v h = rw h

  partner_at-no :
      (key : Key) (v : Quote)
      → rollable rule_pass r key v ≡ false
      → partner_at rule_pass r (key, v) ≡ []
  unfolding partner_at
  partner_at-no key v h = rw h

  -- The item of the chain that a choice stands for.
  abbrev pub Stands : Chain → Pick → Type 0
  Stands prem p =
      (key : Key) × (v : Quote) × Elem (key, v) prem
      × (rollable rule_pass r key v ≡ true)
      × (p.strike ≡ key.0)
      × (p.ltp ≡ v.ltp)

  abbrev pub Nearest : Pick → Key × Quote → Type 0
  Nearest p (key, v) =
      (rollable rule_pass r key v ≡ false) ⊎ (dist p.ltp r.kept_ltp ≤ dist v.ltp r.kept_ltp)

  abbrev pub Partner : Chain → Option Pick → Type 0
  Partner prem none = All (λ e. rollable rule_pass r e.0 e.1 ≡ false) prem
  Partner prem (some p) = Stands prem p × All (Nearest p) prem

  none_of : (e : Key × Quote) → partner_at rule_pass r e ≡ [] → rollable rule_pass r e.0 e.1 ≡ false
  none_of (key, v) h = elim (Bool-cases (rollable rule_pass r key v)) [
    | inl pass ↦ absurd (cc (partner_at-yes key v pass))
    | inr fail ↦ fail
  ]

  stands :
      (prem : Chain) (p : Pick) (key : Key) (v : Quote)
      → Elem (key, v) prem
      → Elem p (partner_at rule_pass r (key, v))
      → Stands prem p
  stands prem p key v m h = elim (Bool-cases (rollable rule_pass r key v)) [
    | inl pass ↦ elim (subst (Elem p) (partner_at-yes key v pass) h) [
      | inl same ↦ (key, v, m, pass, ap (λ q. q.strike) (sym same), ap (λ q. q.ltp) (sym same))
      | inr nothing ↦ absurd nothing
    ]
    | inr fail ↦ absurd (subst (Elem p) (partner_at-no key v fail) h)
  ]

  nearest :
      (p : Pick) (e : Key × Quote)
      → All (λ y. nearer r.kept_ltp y p ≡ false) (partner_at rule_pass r e)
      → Nearest p e
  nearest p (key, v) h = elim (Bool-cases (rollable rule_pass r key v)) [
    | inl pass ↦
        (let k = subst (All λ y. nearer r.kept_ltp y p ≡ false) (partner_at-yes key v pass) h in
          inr (ground (arith, k.0)))
    | inr fail ↦ inl fail
  ]

  Partner-Picks :
      (prem : Chain) (o : Option Pick)
      → Picks (nearer r.kept_ltp) (partner_at rule_pass r) prem o
      → Partner prem o
  Partner-Picks prem none h = All-map _ _ prem none_of h
  Partner-Picks prem (some p) ((e, m, k), best) =
      (stands prem p e.0 e.1 m k, All-map _ _ prem (nearest p) best)

  -- select_partner_for returns none exactly where no item of the chain passes its tests, and else
  -- an item that passes them and whose price is nearest to that of the leg that is kept. It raises
  -- exactly with a step of 0 and a spot above 0.
  pub select_partner_for-Partner :
      (prem : Chain) → UnlessRaised (no_step r) (Partner prem) (select_partner_for rule_pass r prem)
  unfolding select_partner_for
  select_partner_for-Partner prem = elim (Bool-cases (no_step r)) [
    | inl zero_step ↦ rw (zero_step, select_partner_for) refl
    | inr stepped ↦
        rw (stepped, select_partner_for)
          (
            refl,
            Partner-Picks prem _ (
                best_of-Picks (nearer r.kept_ltp) (partner_at rule_pass r) (λ y. ground arith)
                  (λ x y z a b. ground arith) prem),
          )
  ]
