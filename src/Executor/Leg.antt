-- ===== src/Executor/Leg.antt =====
-- SmartOrderExecutor of execution_bridge/smart_executor.py over any broker. Logging is left out.
use option_chain_based_strat.Common.{
  ℕ, zero, suc, ◌+◌, ◌-◌, ◌*◌, Bool, true, false, ◌&&◌, ◌||◌, Option, none, some, List, [], ◌∷◌,
  ◌++◌, ltb, leb, eqb, if◌then◌else◌,
}
use option_chain_based_strat.Executor.Orders.{
  OrderSide, market, limit, OrderStatus, unknown, OrderRequest, OrderFill, Broker, is_complete,
  is_dead,
}
use option_chain_based_strat.Common.Round.{round_div}
use option_chain_based_strat.Executor.Pricing.{limit_price}

-- The constructor's arguments.
pub record Settings : Type 0 where
  pub timeout : ℕ
  pub chases : ℕ
  pub poll : ℕ
  pub settle : ℕ

abbrev pub fill : ℕ → ℕ → OrderStatus → OrderFill
fill q avg st = record { qty = q; avg_price = avg; status = st }

-- `last[0] if last[2] == COMPLETE else 0, last[1], last[2]`
abbrev pub timed_out : OrderFill → OrderFill
timed_out f = if is_complete f.status then f else fill 0 f.avg_price f.status

module _ (br : Broker) where
  open br use {World, OrderId, now, sleep, place_order, get_order_status, cancel_order, get_quote}

  -- The loop of `_await_fill`, on fuel. A status call that raises is skipped.
  unfoldable pub await_from : ℕ → ℕ → ℕ → OrderId → OrderFill → World → OrderFill × World
  await_from poll zero deadline order last w = (timed_out last, w)
  await_from poll (suc fuel) deadline order last w = elim (ltb (now w) deadline) [
    | false ↦ (timed_out last, w)
    | true ↦ elim ((get_order_status order w).0) [
      | none ↦ await_from poll fuel deadline order last (sleep poll (get_order_status order w).1)
      | some f ↦ elim (is_complete f.status && ltb 0 f.avg_price) [
        | true ↦ (f, (get_order_status order w).1)
        | false ↦ elim (is_dead f.status) [
          | true ↦ (fill 0 0 f.status, (get_order_status order w).1)
          | false ↦ await_from poll fuel deadline order f (sleep poll (get_order_status order w).1)
        ]
      ]
    ]
  ]

  -- `_await_fill`. Each round sleeps at least a millisecond, so `timeout` rounds and one more
  -- reach the deadline.
  unfoldable pub await_fill : Settings → OrderId → World → OrderFill × World
  unfolding await_from
  await_fill s order w =
      await_from s.poll (suc s.timeout) (now w + s.timeout) order (fill 0 0 unknown) w

  -- The loop of `_cancel_and_settle`: the last fill seen, and whether the order is terminal.
  unfoldable pub settle_from : ℕ → ℕ → ℕ → OrderId → OrderFill → World → (OrderFill × Bool) × World
  settle_from poll zero deadline order last w = ((last, false), w)
  settle_from poll (suc fuel) deadline order last w = elim (ltb (now w) deadline) [
    | false ↦ ((last, false), w)
    | true ↦ elim ((get_order_status order w).0) [
      | none ↦ settle_from poll fuel deadline order last (sleep poll (get_order_status order w).1)
      | some f ↦ elim (is_dead f.status || is_complete f.status) [
        | true ↦ ((f, true), (get_order_status order w).1)
        | false ↦ settle_from poll fuel deadline order f (sleep poll (get_order_status order w).1)
      ]
    ]
  ]

  unfoldable pub cancel_and_settle : Settings → OrderId → World → (OrderFill × Bool) × World
  unfolding settle_from
  cancel_and_settle s order w =
      let w' = cancel_order order w in
      settle_from s.poll (suc s.settle) (now w' + s.settle) order (fill 0 0 unknown) w'

  -- The variables of execute_leg, with every request that was placed beside its identifier.
  pub record Leg : Type 0 where
    pub placed : List (OrderRequest × OrderId)
    pub filled_qty : ℕ
    pub notional : ℕ

  -- `if q > 0 and avg > 0: filled_qty += q; notional += avg * q`
  unfoldable pub book : OrderFill → Leg → Leg
  book f l =
      if ltb 0 f.qty && ltb 0 f.avg_price
      then record l {
        filled_qty = l.filled_qty + f.qty;
        notional = l.notional + f.avg_price * f.qty;
      }
      else l

  abbrev pub note : OrderRequest → OrderId → Leg → Leg
  note req order l = record l { placed = l.placed ++ (req, order) ∷ [] }

  abbrev pub market_order : OrderSide → ℕ → OrderRequest
  market_order side q = record {
    side = side;
    qty = q;
    order_type = market;
    price = 0;
    is_ioc = false;
  }

  abbrev pub ioc_order : OrderSide → ℕ → ℕ → OrderRequest
  ioc_order side q price = record {
    side = side;
    qty = q;
    order_type = limit;
    price = price;
    is_ioc = true;
  }

  -- What `_market` books: the awaited fill, or the status once more, which may raise.
  abbrev pub market_fill : OrderId → OrderFill → World → Option OrderFill × World
  market_fill order f w =
      if ltb 0 f.qty && ltb 0 f.avg_price then (some f, w) else get_order_status order w

  -- What an attempt books: the status once more, and the awaited fill where that is missing or
  -- empty.
  abbrev pub attempt_fill : OrderFill → Option OrderFill → OrderFill
  attempt_fill awaited none = if ltb 0 awaited.qty then awaited else fill 0 0 unknown
  attempt_fill awaited (some f) =
      if ltb 0 f.qty then f else if ltb 0 awaited.qty then awaited else f

  module _ (s : Settings) (side : OrderSide) (tick : ℕ) where
    -- `_market`; `none` where a call of the broker raises.
    unfoldable pub place_market : ℕ → Leg → World → Option Leg × World
    unfolding await_fill book
    place_market remaining l w =
        let req = market_order side remaining in
        let (o, w') = place_order req w in
        elim o [
          | none ↦ (none, w')
          | some order ↦
              (let (f, w'') = await_fill s order w' in
                let (g, w''') = market_fill order f w'' in
                elim g [ none ↦ (none, w''') | some h ↦ (some (book h (note req order l)), w''') ])
        ]

    -- One attempt at a price, with the remaining quantity.
    unfoldable pub place_limit : ℕ → ℕ → Leg → World → Option Leg × World
    unfolding await_fill book
    place_limit remaining price l w =
        let req = ioc_order side remaining price in
        let (o, w') = place_order req w in
        elim o [
          | none ↦ (none, w')
          | some order ↦
              (let (f, w'') = await_fill s order w' in
                let (g, w''') = get_order_status order w'' in
                (some (book (attempt_fill f g) (note req order l)), w'''))
        ]

    -- The price of an attempt; 0 stands for the `break` where there is no quote.
    abbrev pub quoted : Option (ℕ × ℕ) → ℕ → ℕ
    quoted none attempt = 0
    quoted (some (bid, ask)) attempt =
        if ltb 0 bid && ltb 0 ask then limit_price side bid ask attempt s.chases tick else 0

    -- `for attempt in range(self._chases + 1)`, with the attempts left.
    unfoldable pub chase : ℕ → ℕ → ℕ → Leg → World → Option Leg × World
    unfolding place_limit
    chase zero attempt qty l w = (some l, w)
    chase (suc left) attempt qty l w = elim (ltb l.filled_qty qty) [
      | false ↦ (some l, w)
      | true ↦ elim (ltb 0 (quoted (get_quote w).0 attempt)) [
        | false ↦ (some l, (get_quote w).1)
        | true ↦
            elim ((place_limit (qty - l.filled_qty) (quoted (get_quote w).0 attempt) l
              (get_quote w).1).0) [
                | none ↦ (
                  none,
                  (place_limit (qty - l.filled_qty) (quoted (get_quote w).0 attempt) l
                      (get_quote w).1).1,
                )
                | some l' ↦
                    chase left (suc attempt) qty l'
                      (place_limit (qty - l.filled_qty) (quoted (get_quote w).0 attempt) l
                        (get_quote w).1).1
              ]
      ]
    ]

    abbrev pub start : Leg
    start = record { placed = []; filled_qty = 0; notional = 0 }

    -- The market order that completes the leg.
    unfoldable pub mop_up : ℕ → Leg → World → Option Leg × World
    unfolding place_market
    mop_up qty l w =
        if ltb l.filled_qty qty then place_market (qty - l.filled_qty) l w else (some l, w)

    unfoldable pub run_leg : Bool → ℕ → World → Option Leg × World
    unfolding chase mop_up
    run_leg false qty w = place_market qty start w
    run_leg true qty w =
        let (o, w') = chase (suc s.chases) 0 qty start w in
        elim o [ none ↦ (none, w') | some l ↦ mop_up qty l w' ]

  pub record LegFill : Type 0 where
    pub filled_qty : ℕ
    pub avg_price : ℕ
    pub order_ids : List (OrderRequest × OrderId)
    pub completed : Bool

  abbrev pub leg_fill : ℕ → Leg → LegFill
  leg_fill qty l = record {
    filled_qty = l.filled_qty;
    avg_price = if eqb l.filled_qty 0 then 0 else round_div l.notional l.filled_qty;
    order_ids = l.placed;
    completed = leb qty l.filled_qty;
  }

  -- execute_leg; `none` where it raises.
  unfoldable pub execute_leg : Settings → OrderSide → ℕ → Bool → ℕ → World → Option LegFill × World
  unfolding run_leg
  execute_leg s side tick use_limit qty w =
      let (o, w') = run_leg s side tick use_limit qty w in
      elim o [ none ↦ (none, w') | some l ↦ (some (leg_fill qty l), w') ]
