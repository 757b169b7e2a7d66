-- ===== src/Executor/Fills.antt =====
-- What execute_leg books and what it sends, over a broker that keeps to its orders.
use mathlib.Core.Option.{some-injective}
use option_chain_based_strat.Common.{
  ℕ, zero, suc, ◌+◌, ◌-◌, ◌≤◌, ◌≡◌, ◌∙◌, inl, inr, ◌&&◌, Option, none, some, arith, ltb, Bool-cases,
  Option-cases,
}
use option_chain_based_strat.Executor.Orders.{
  OrderSide, OrderRequest, OrderFill, unknown, Broker, is_complete, is_dead,
}
use option_chain_based_strat.Executor.Leg.{
  Settings, fill, await_from, await_fill, Leg, book, note, market_order, ioc_order, market_fill,
  attempt_fill, place_market, place_limit,
}

-- A broker that keeps the quantity that each of its orders was placed for, `asked` in a state of the
-- world, over sleeping and queries, and never reports more filled on an order than that.
pub record KeepsToOrders (br : Broker) (asked : br.OrderId → br.World → ℕ) : Type 0 where
  pub placed :
      (req : OrderRequest) (w : br.World) (i : br.OrderId)
      → (br.place_order req w).0 ≡ some i
      → asked i (br.place_order req w).1 ≡ req.qty
  pub slept : (i : br.OrderId) (d : ℕ) (w : br.World) → asked i (br.sleep d w) ≡ asked i w
  pub queried : (i : br.OrderId) (w : br.World) → asked i (br.get_order_status i w).1 ≡ asked i w
  pub capped :
      (i : br.OrderId) (w : br.World) (f : OrderFill)
      → (br.get_order_status i w).0 ≡ some f
      → f.qty ≤ asked i w

-- A result that is there satisfies `P`.
abbrev pub Given {ℓ} : {A : Type ℓ} → (A → Type 0) → Option A → Type 0
Given P none = Unit
Given P (some a) = P a

abbrev pub Within : (br : Broker) → ℕ → Leg br → Type 0
Within br qty l = l.filled_qty ≤ qty

-- What a polling loop leaves: at most `n` filled, and an order that still asks for `n`.
abbrev pub Capped :
    (br : Broker) → (br.OrderId → br.World → ℕ) → ℕ → br.OrderId → OrderFill × br.World → Type 0
Capped br asked n i r = (r.0.qty ≤ n) × (asked i r.1 ≡ n)

module _ (br : Broker) (asked : br.OrderId → br.World → ℕ) (keeps : KeepsToOrders br asked) where
  open br use {World, OrderId, now, sleep, place_order, get_order_status, get_quote}

  await_from-Capped :
      (poll fuel deadline n : ℕ) (i : OrderId) (last : OrderFill) (w : World)
      → last.qty ≤ n
      → asked i w ≡ n
      → Capped br asked n i (await_from br poll fuel deadline i last w)
  unfolding await_from
  await_from-Capped poll zero deadline n i last w h a = (ground arith, a)
  await_from-Capped poll (suc fuel) deadline n i last w h a =
      let a' : asked i (get_order_status i w).1 ≡ n = keeps.queried i w ∙ a in
      let a'' : asked i (sleep poll (get_order_status i w).1) ≡ n =
        keeps.slept i poll (get_order_status i w).1 ∙ a' in
      elim (Bool-cases (ltb (now w) deadline)) [
        | inr over ↦ rw (over, await_from) (ground arith, a)
        | inl on ↦ elim (Option-cases (get_order_status i w).0) [
          | inl failed ↦
              rw (on, failed, await_from) (await_from-Capped poll fuel deadline n i last _ h a'')
          | inr (f, seen) ↦
              let le : f.qty ≤ n = omega (arith, keeps.capped i w f seen, a) in
              elim (Bool-cases (is_complete f.status && ltb 0 f.avg_price)) [
                | inl done ↦ rw (on, seen, done, await_from) (le, a')
                | inr open_ ↦ elim (Bool-cases (is_dead f.status)) [
                  | inl dead ↦ rw (on, seen, open_, dead, await_from) (omega arith, a')
                  | inr live ↦
                      rw (on, seen, open_, live, await_from)
                        (await_from-Capped poll fuel deadline n i f _ le a'')
                ]
              ]
        ]
      ]

  await_fill-Capped :
      (s : Settings) (n : ℕ) (i : OrderId) (w : World)
      → asked i w ≡ n
      → Capped br asked n i (await_fill br s i w)
  unfolding await_fill
  await_fill-Capped s n i w a =
      await_from-Capped s.poll (suc s.timeout) (now w + s.timeout) n i (fill 0 0 unknown) w
        (omega arith) a

  book-le : (f : OrderFill) (l : Leg br) → (book br f l).filled_qty ≤ l.filled_qty + f.qty
  unfolding book
  book-le f l = ground arith

  market_fill-le :
      (n : ℕ) (i : OrderId) (r : OrderFill × World) (g : OrderFill)
      → Capped br asked n i r
      → (market_fill br i r.0 r.1).0 ≡ some g
      → g.qty ≤ n
  market_fill-le n i (f, w) g (h, a) e = elim (Bool-cases (ltb 0 f.qty && ltb 0 f.avg_price)) [
    | inl got ↦ rw (← some-injective f g (rw (got, market_fill) at e)) h
    | inr empty ↦ (let k = keeps.capped i w g (rw (empty, market_fill) at e) in omega (arith, k, a))
  ]

  attempt_fill-le :
      (n : ℕ) (i : OrderId) (r : OrderFill × World)
      → Capped br asked n i r
      → (attempt_fill br r.0 (get_order_status i r.1).0).qty ≤ n
  attempt_fill-le n i (f, w) (h, a) = elim (Option-cases (get_order_status i w).0) [
    | inl failed ↦ rw failed (ground arith)
    | inr (g, seen) ↦ (let k = keeps.capped i w g seen in rw seen (ground (arith, k, a)))
  ]

  module _ (s : Settings) (side : OrderSide) (tick qty : ℕ) where
    pub place_market-Within :
        (q : ℕ) (l : Leg br) (w : World)
        → l.filled_qty + q ≤ qty
        → Given (Within br qty) (place_market br s side tick q l w).0
    place_market-Within q l w h = elim (Option-cases (place_order req w).0) [
      | inl failed ↦ unfold place_market in rw (failed, place_market) tt
      | inr (i, e) ↦
          let w' = (place_order req w).1 in
          let f = await_fill br s i w' in
          elim (Option-cases (market_fill br i f.0 f.1).0) [
            | inl failed ↦ unfold place_market in rw (e, failed, place_market) tt
            | inr (g, m) ↦
                let capped =
                  market_fill-le q i f g (await_fill-Capped s q i w' (keeps.placed req w i e)) m in
                unfold place_market in
                rw (e, m, place_market) (omega (arith, capped, book-le g (note br req i l)))
          ]
    ]
      where
        req : OrderRequest
        req = market_order br side q

    pub place_limit-Within :
        (price : ℕ) (l : Leg br) (w : World)
        → Within br qty l
        → Given (Within br qty) (place_limit br s side tick (qty - l.filled_qty) price l w).0
    place_limit-Within price l w h = elim (Option-cases (place_order req w).0) [
      | inl failed ↦ unfold place_limit in rw (failed, place_limit) tt
      | inr (i, e) ↦
          let w' = (place_order req w).1 in
          let f = await_fill br s i w' in
          let g = attempt_fill br f.0 (get_order_status i f.1).0 in
          let capped =
            attempt_fill-le q i f (await_fill-Capped s q i w' (keeps.placed req w i e)) in
          unfold place_limit in
          rw (e, place_limit) (omega (arith, capped, book-le g (note br req i l)))
    ]
      where
        q : ℕ
        q = qty - l.filled_qty

        req : OrderRequest
        req = ioc_order br side q price
