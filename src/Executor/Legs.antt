-- ===== src/Executor/Legs.antt =====
-- What execute_leg fills and what it sends.
use native.Mathlib.Nat.{le_refl}
use mathlib.Core.Logic.{◌↔◌}
use mathlib.Core.Path.{subst}
use mathlib.Core.Option.{some-injective}
use option_chain_based_strat.Common.{
  ℕ, suc, ◌+◌, ◌-◌, ◌≤◌, ◌<◌, ◌≡◌, refl, sym, ◌∙◌, ◌⊎◌, inl, inr, Bool, true, false, Option, none,
  some, List, [], ◌∷◌, ◌++◌, arith, ltb, Bool-cases, Option-cases, All, All-append, length,
  length-append,
}
use option_chain_based_strat.Executor.Orders.{OrderSide, limit, OrderRequest, OrderFill, Broker}
use option_chain_based_strat.Executor.Leg.{
  Settings, await_fill, Leg, book, note, market_order, ioc_order, market_fill, attempt_fill,
  place_market, place_limit, chase, start, mop_up, run_leg, LegFill, leg_fill, execute_leg,
}
use option_chain_based_strat.Executor.Fills.{
  KeepsToOrders, Given, Within, place_market-Within, place_limit-Within,
}
use option_chain_based_strat.Executor.Chase.{chase-Given}

module _ (br : Broker) (s : Settings) (side : OrderSide) (tick : ℕ) (use_limit : Bool) (qty : ℕ)
    (w : br.World) where
  execute_leg-none :
      (run_leg br s side tick use_limit qty w).0 ≡ none
      → (execute_leg br s side tick use_limit qty w).0 ≡ none
  unfolding execute_leg
  execute_leg-none h = rw (h, execute_leg)

  execute_leg-some :
      (l : Leg br)
      → (run_leg br s side tick use_limit qty w).0 ≡ some l
      → (execute_leg br s side tick use_limit qty w).0 ≡ some (leg_fill br qty l)
  unfolding execute_leg
  execute_leg-some l h = rw (h, execute_leg)

module _ (br : Broker) (asked : br.OrderId → br.World → ℕ) (keeps : KeepsToOrders br asked) where
  module _ (s : Settings) (side : OrderSide) (tick qty : ℕ) where
    run_leg-Within :
        (use_limit : Bool) (w : br.World)
        → Given (Within br qty) (run_leg br s side tick use_limit qty w).0
    run_leg-Within false w =
        unfold run_leg in
        place_market-Within br asked keeps s side tick qty qty (start br s side tick) w
          (omega arith)
    run_leg-Within true w =
        let r = chase br s side tick (suc s.chases) 0 qty (start br s side tick) w in
        let chased : Given (Within br qty) r.0 =
          chase-Given br s side tick qty (λ _. Within br qty) (λ k n l le h. h)
            (λ k price l w' _ h. place_limit-Within br asked keeps s side tick qty price l w' h)
            (suc s.chases) 0 (suc s.chases + 0) (start br s side tick) w (le_refl _)
            (omega arith) in
        elim (Option-cases r.0) [
          | inl failed ↦ unfold run_leg in rw (failed, run_leg) tt
          | inr (l, e) ↦ unfold run_leg in rw (e, run_leg) (finish l r.1 (subst (Given _) e chased))
        ]
      where
        finish :
            (l : Leg br) (w' : br.World)
            → l.filled_qty ≤ qty
            → Given (Within br qty) (mop_up br s side tick qty l w').0
        finish l w' h = elim (Bool-cases (ltb l.filled_qty qty)) [
          | inl open_ ↦
              unfold mop_up in
              rw (open_, mop_up)
                (place_market-Within br asked keeps s side tick qty (qty - l.filled_qty) l w'
                  (omega arith))
          | inr full ↦ unfold mop_up in rw (full, mop_up) h
        ]

  -- With a broker that keeps the quantity of each order that it took, over sleeping and queries, and
  -- never reports more filled on it, a leg never fills more than its quantity, however the orders
  -- are priced, missed, filled in part or reported late; and it is completed exactly when it fills
  -- all of it.
  pub execute_leg-le :
      (s : Settings) (side : OrderSide) (tick : ℕ) (use_limit : Bool) (qty : ℕ) (w : br.World)
      (r : LegFill br)
      → (execute_leg br s side tick use_limit qty w).0 ≡ some r
      → (r.filled_qty ≤ qty) × ((r.completed ≡ true) ↔ (r.filled_qty ≡ qty))
  execute_leg-le s side tick use_limit qty w r e =
      elim (Option-cases (run_leg br s side tick use_limit qty w).0) [
        | inl failed ↦ absurd (cc (execute_leg-none br s side tick use_limit qty w failed))
        | inr (l, f) ↦
            let within : Given (Within br qty) (some l) =
              subst (Given (Within br qty)) f (run_leg-Within s side tick qty use_limit w) in
            let same : leg_fill br qty l ≡ r =
              some-injective _ _ (sym (execute_leg-some br s side tick use_limit qty w l f) ∙ e) in
            rw (← same) (within, ground arith)
      ]

-- Every limit order is immediate-or-cancel, so that none rests on the book.
abbrev pub IocOnly : (br : Broker) → OrderSide → List (OrderRequest × br.OrderId) → Type 0
IocOnly br side =
    All λ p. (p.0.order_type ≡ limit) × (p.0.is_ioc ≡ true) × (p.0.side ≡ side) × (0 < p.0.price)

-- At most `k` attempts, each of them such an order.
abbrev pub Attempts : (br : Broker) → OrderSide → ℕ → Leg br → Type 0
Attempts br side k l = IocOnly br side l.placed × (length l.placed ≤ k)

-- The orders of a finished leg, where `chased` is what the attempts leave: those of the attempts,
-- and behind them nothing if the leg is completed, or one market order for just the quantity that
-- they left open.
abbrev pub Finishes : (br : Broker) → Option (Leg br) → OrderSide → ℕ → ℕ → LegFill br → Type 0
Finishes br chased side chases qty r =
    (l : Leg br) × (chased ≡ some l)
    × Attempts br side (chases + 1) l
    × (((r.order_ids ≡ l.placed) × (r.completed ≡ true) × (r.filled_qty ≡ l.filled_qty))
        ⊎ ((i : br.OrderId) × (r.order_ids
              ≡ l.placed ++ (market_order br side (qty - l.filled_qty), i) ∷ [])
            × (l.filled_qty < qty)))

module _ (br : Broker) (s : Settings) (side : OrderSide) (tick qty : ℕ) where
  book-placed : (f : OrderFill) (l : Leg br) → (book br f l).placed ≡ l.placed
  unfolding book
  book-placed f l = ground arith

  abbrev Appends : OrderRequest → Leg br → Leg br → Type 0
  Appends req l l' = (i : br.OrderId) × (l'.placed ≡ l.placed ++ (req, i) ∷ [])

  place_limit-Appends :
      (q price : ℕ) (l : Leg br) (w : br.World)
      → Given (Appends (ioc_order br side q price) l) (place_limit br s side tick q price l w).0
  place_limit-Appends q price l w =
      elim (Option-cases (br.place_order (ioc_order br side q price) w).0) [
        | inl failed ↦ unfold place_limit in rw (failed, place_limit) tt
        | inr (i, e) ↦
            let f = await_fill br s i (br.place_order (ioc_order br side q price) w).1 in
            let g = attempt_fill br f.0 (br.get_order_status i f.1).0 in
            unfold place_limit in
            rw (e, place_limit) (i, book-placed g (note br (ioc_order br side q price) i l))
      ]

  place_market-Appends :
      (q : ℕ) (l : Leg br) (w : br.World)
      → Given (Appends (market_order br side q) l) (place_market br s side tick q l w).0
  place_market-Appends q l w = elim (Option-cases (br.place_order (market_order br side q) w).0) [
    | inl failed ↦ unfold place_market in rw (failed, place_market) tt
    | inr (i, e) ↦
        let w' = (br.place_order (market_order br side q) w).1 in
        let f = await_fill br s i w' in
        elim (Option-cases (market_fill br i f.0 f.1).0) [
          | inl failed ↦ unfold place_market in rw (e, failed, place_market) tt
          | inr (g, m) ↦
              unfold place_market in
              rw (e, m, place_market) (i, book-placed g (note br (market_order br side q) i l))
        ]
  ]

  place_limit-Attempts :
      (k price : ℕ) (l : Leg br) (w : br.World)
      → 0 < price
      → Attempts br side k l
      → Given
          (Attempts br side (suc k))
          (place_limit br s side tick (qty - l.filled_qty) price l w).0
  place_limit-Attempts k price l w h (ioc, few) =
      go (place_limit br s side tick (qty - l.filled_qty) price l w).0
        (place_limit-Appends (qty - l.filled_qty) price l w)
    where
      go :
          (o : Option (Leg br))
          → Given (Appends (ioc_order br side (qty - l.filled_qty) price) l) o
          → Given (Attempts br side (suc k)) o
      go none _ = tt
      go (some l') (i, e) = rw e (
        All-append _ l.placed _ ioc ((refl, refl, refl, h), tt),
        omega (
          arith,
          length-append {0} l.placed ((ioc_order br side (qty - l.filled_qty) price, i) ∷ []),
        ),
      )

  chased :
      (w : br.World)
      → Given
          (Attempts br side (suc s.chases))
          (chase br s side tick (suc s.chases) 0 qty (start br s side tick) w).0
  chased w =
      chase-Given br s side tick qty (Attempts br side) (λ k n l le h. (h.0, omega (arith, h.1)))
        place_limit-Attempts (suc s.chases) 0 (suc s.chases) (start br s side tick) w (omega arith)
        (tt, omega arith)

  Finishes-market :
      (o : Option (Leg br)) (l : Leg br) (w : br.World)
      → o ≡ some l
      → Attempts br side (suc s.chases) l
      → l.filled_qty < qty
      → Given
          (λ l'. Finishes br o side s.chases qty (leg_fill br qty l'))
          (place_market br s side tick (qty - l.filled_qty) l w).0
  Finishes-market o l w left (ioc, few) open_ =
      go (place_market br s side tick (qty - l.filled_qty) l w).0
        (place_market-Appends (qty - l.filled_qty) l w)
    where
      go :
          (x : Option (Leg br))
          → Given (Appends (market_order br side (qty - l.filled_qty)) l) x
          → Given (λ l'. Finishes br o side s.chases qty (leg_fill br qty l')) x
      go none _ = tt
      go (some l') (i, e) = (l, left, (ioc, omega arith), inr (i, e, open_))

  mop_up-Finishes :
      (o : Option (Leg br)) (l : Leg br) (w : br.World)
      → o ≡ some l
      → Attempts br side (suc s.chases) l
      → Given
          (λ l'. Finishes br o side s.chases qty (leg_fill br qty l'))
          (mop_up br s side tick qty l w).0
  mop_up-Finishes o l w left (ioc, few) = elim (Bool-cases (ltb l.filled_qty qty)) [
    | inl open_ ↦
        unfold mop_up in rw (open_, mop_up) (Finishes-market o l w left (ioc, few) (ground arith))
    | inr full ↦
        unfold mop_up in
        rw (full, mop_up) (l, left, (ioc, omega arith), inl (refl, ground arith, refl))
  ]

  -- What the attempts leave.
  abbrev pub chased_leg : br.World → Option (Leg br)
  chased_leg w = (chase br s side tick (suc s.chases) 0 qty (start br s side tick) w).0

  run_leg-Finishes :
      (w : br.World)
      → Given
          (λ l. Finishes br (chased_leg w) side s.chases qty (leg_fill br qty l))
          (run_leg br s side tick true qty w).0
  run_leg-Finishes w =
      let r = chase br s side tick (suc s.chases) 0 qty (start br s side tick) w in
      elim (Option-cases r.0) [
        | inl failed ↦ unfold run_leg in rw (failed, run_leg) tt
        | inr (l, e) ↦
            unfold run_leg in
            rw (e, run_leg)
              (mop_up-Finishes (some l) l r.1 refl
                (subst (Given (Attempts br side (suc s.chases))) e (chased w)))
      ]

  -- A leg that is executed by limit orders sends at most `chases + 1` of them, each one
  -- immediate-or-cancel, on its own side and at a price above zero, so that none rests on the book.
  -- Either it sends nothing else and is completed by what the attempts filled, or what the loop over
  -- the attempts filled is less than the quantity and the leg sends one market order for just the
  -- rest.
  pub execute_leg-Finishes :
      (w : br.World) (r : LegFill br)
      → (execute_leg br s side tick true qty w).0 ≡ some r
      → Finishes br (chased_leg w) side s.chases qty r
  execute_leg-Finishes w r e = elim (Option-cases (run_leg br s side tick true qty w).0) [
    | inl failed ↦ absurd (cc (execute_leg-none br s side tick true qty w failed))
    | inr (l, f) ↦
        let same : leg_fill br qty l ≡ r =
          some-injective _ _ (sym (execute_leg-some br s side tick true qty w l f) ∙ e) in
        subst (Finishes br (chased_leg w) side s.chases qty) same (
          subst (Given (λ l. Finishes br (chased_leg w) side s.chases qty (leg_fill br qty l))) f
            (run_leg-Finishes w))
  ]
