-- ===== src/Executor/Chase.antt =====
-- The loop over the attempts of execute_leg: what every attempt keeps, the chase keeps.
use mathlib.Core.Path.{subst}
use option_chain_based_strat.Common.{
  ℕ, zero, suc, ◌+◌, ◌-◌, ◌≤◌, ◌<◌, inl, inr, arith, ltb, Bool-cases, Option-cases,
}
use option_chain_based_strat.Executor.Orders.{OrderSide, Broker}
use option_chain_based_strat.Executor.Leg.{Settings, Leg, place_limit, quoted, chase}
use option_chain_based_strat.Executor.Fills.{Given}

module _ (br : Broker) (s : Settings) (side : OrderSide) (tick qty : ℕ) (P : ℕ → Leg br → Type 0)
    (weaken : (k n : ℕ) (l : Leg br) → k ≤ n → P k l → P n l)
    (step : (k price : ℕ) (l : Leg br) (w : br.World)
      → 0 < price
      → P k l
      → Given (P (suc k)) (place_limit br s side tick (qty - l.filled_qty) price l w).0) where
  -- An invariant of the attempts, which may count them, holds after the chase.
  pub chase-Given :
      (left k n : ℕ) (l : Leg br) (w : br.World)
      → left + k ≤ n
      → P k l
      → Given (P n) (chase br s side tick left k qty l w).0
  unfolding chase
  chase-Given zero k n l w h p = weaken k n l (omega arith) p
  chase-Given (suc left) k n l w h p = elim (Bool-cases (ltb l.filled_qty qty)) [
    | inr full ↦ rw (full, chase) (weaken k n l (omega arith) p)
    | inl open_ ↦
        let (q, w') = br.get_quote w in
        let price = quoted br s side tick q k in
        elim (Bool-cases (ltb 0 price)) [
          | inr unquoted ↦ rw (open_, unquoted, chase) (weaken k n l (omega arith) p)
          | inl priced ↦
              let r = place_limit br s side tick (qty - l.filled_qty) price l w' in
              elim (Option-cases r.0) [
                | inl failed ↦ rw (open_, priced, failed, chase) tt
                | inr (l', e) ↦
                    rw (open_, priced, e, chase)
                      (chase-Given left (suc k) n l' r.1 (omega arith)
                        (subst (Given (P (suc k))) e (step k price l w' (ground arith) p)))
              ]
        ]
  ]
