-- ===== src/Executor/Paper.antt =====
-- What a leg comes to over the mock broker of execution_bridge/base_broker.py.
use option_chain_based_strat.Common.{
  ◌≡◌, refl, ap, ◌∙◌, ℕ, suc, ◌+◌, ◌-◌, ◌*◌, ◌<◌, Bool, true, false, none, some, [], ◌∷◌, arith,
  ltb, leb, eqb, ◌&&◌, nat_eq, if_true,
}
use option_chain_based_strat.Common.Dict.{lookup, insert, lookup-insert, beq_refl, Dict}
use option_chain_based_strat.Common.Round.{round_div, round_div-le, round_div-ge}
use option_chain_based_strat.Executor.Orders.{
  Broker, OrderRequest, OrderSide, buy, sell, complete, OrderFill,
}
use option_chain_based_strat.Executor.Leg.{
  Settings, fill, market_fill, await_from, await_fill, Leg, note, book, start, market_order,
  place_market, chase, mop_up, run_leg, execute_leg, leg_fill,
}
use option_chain_based_strat.Executor.Mock.{
  MockBroker, mock_broker, mock_place, mock_status, mock_price, charge, or_unknown,
}

-- The price of a paper fill, 100.00.
abbrev paper_price : ℕ
paper_price = 10_000_000_000

lookup-insert_same :
    (k : ℕ) (f : OrderFill) (d : Dict ℕ OrderFill) → lookup k (insert k f d) ≡ some f
lookup-insert_same k f d = lookup-insert k k f d ∙ if_true (some f) (lookup k d) (beq_refl k)

orders-charge :
    (side : OrderSide) (cost : ℕ) (b : MockBroker) → (charge side cost b).orders ≡ b.orders
unfolding charge
orders-charge buy cost b = refl
orders-charge sell cost b = refl

-- An order that was placed is filled at its price.
pub mock_status-mock_place :
    (req : OrderRequest) (b : MockBroker)
    → mock_status (mock_place req b).0 (mock_place req b).1 ≡ fill req.qty (mock_price req) complete
unfolding mock_place
mock_status-mock_place req b =
    let f = fill req.qty (mock_price req) complete in
    ap (λ d. or_unknown (lookup (suc b.counter) d)) (orders-charge req.side _ _)
    ∙ ap or_unknown (lookup-insert_same (suc b.counter) f b.orders)

paper_status :
    (side : OrderSide) (qty : ℕ) (b : MockBroker)
    → mock_status
        (mock_place (market_order mock_broker side qty) b).0
        (mock_place (market_order mock_broker side qty) b).1
      ≡ fill qty paper_price complete
unfolding mock_price
paper_status side qty b = mock_status-mock_place (market_order mock_broker side qty) b

await_fill-complete :
    (s : Settings) (i qty price t : ℕ) (b : MockBroker)
    → 0 < s.timeout
    → 0 < price
    → mock_status i b ≡ fill qty price complete
    → await_fill mock_broker s i (t, b) ≡ (fill qty price complete, (t, b))
unfolding await_fill await_from
await_fill-complete s i qty price t b h p e =
    let on : ltb t (t + s.timeout) ≡ true = ground arith in
    let priced : ltb 0 price ≡ true = ground arith in
    rw (on, e, priced, await_from) (ap (λ f. (f, (t, b))) e)

-- A market order that its awaited fill books.
place_market-filled :
    (br : Broker) (s : Settings) (side : OrderSide) (tick q : ℕ) (l : Leg br) (w w' : br.World)
    (i : br.OrderId) (f : OrderFill)
    → (br.place_order (market_order br side q) w).0 ≡ some i
    → await_fill br s i (br.place_order (market_order br side q) w).1 ≡ (f, w')
    → (ltb 0 f.qty && ltb 0 f.avg_price) ≡ true
    → place_market br s side tick q l w
      ≡ (some (book br f (note br (market_order br side q) i l)), w')
unfolding place_market
place_market-filled br s side tick q l w w' i f e a ok =
    let A = await_fill br s i (br.place_order (market_order br side q) w).1 in
    let m : market_fill br i A.0 A.1 ≡ (some f, w') =
      ap (λ r. market_fill br i r.0 r.1) a ∙ if_true (some f, w') (br.get_order_status i w') ok in
    rw (e, m, place_market)
      (ap (λ r. (some (book br f (note br (market_order br side q) i l)), r.1)) m)

-- The limit orders, and then the market order for the rest.
run_leg-limit :
    (br : Broker) (s : Settings) (side : OrderSide) (tick qty : ℕ) (l : Leg br) (w w' : br.World)
    → chase br s side tick (suc s.chases) 0 qty (start br s side tick) w ≡ (some l, w')
    → run_leg br s side tick true qty w ≡ mop_up br s side tick qty l w'
unfolding run_leg
run_leg-limit br s side tick qty l w w' e =
    ap (λ r. elim r.0 [ none ↦ (none, r.1) | some l ↦ mop_up br s side tick qty l r.1 ]) e

execute_leg-filled :
    (br : Broker) (s : Settings) (side : OrderSide) (tick qty : ℕ) (use_limit : Bool) (l : Leg br)
    (w w' : br.World)
    → run_leg br s side tick use_limit qty w ≡ (some l, w')
    → execute_leg br s side tick use_limit qty w ≡ (some (leg_fill br qty l), w')
unfolding execute_leg
execute_leg-filled br s side tick qty use_limit l w w' e =
    ap (λ r. elim r.0 [ none ↦ (none, r.1) | some l ↦ (some (leg_fill br qty l), r.1) ]) e

-- A leg that one market order fills at 100.00.
abbrev paper_leg : OrderSide → ℕ → ℕ → Leg mock_broker
paper_leg side qty i = record {
  placed = (market_order mock_broker side qty, i) ∷ [];
  filled_qty = qty;
  notional = paper_price * qty;
}

module _ (s : Settings) (timed : 0 < s.timeout) (side : OrderSide) (tick qty t : ℕ)
    (some_qty : 0 < qty) (b : MockBroker) where
  abbrev traded : ℕ × MockBroker
  traded = mock_place (market_order mock_broker side qty) b

  wanted : ltb 0 qty ≡ true
  wanted = ground arith

  booked :
      book mock_broker (fill qty paper_price complete) (
        note mock_broker
          (market_order mock_broker side qty)
          traded.0
          (start mock_broker s side tick))
      ≡ paper_leg side qty traded.0
  unfolding book
  booked = grind (arith, wanted)

  place_market-mock :
      place_market mock_broker s side tick qty (start mock_broker s side tick) (t, b)
      ≡ (some (paper_leg side qty traded.0), (t, traded.1))
  place_market-mock =
      place_market-filled mock_broker s side tick qty (start mock_broker s side tick) (t, b)
        (t, traded.1) traded.0 (fill qty paper_price complete) refl
        (await_fill-complete s traded.0 qty paper_price t traded.1 timed (omega arith)
          (paper_status side qty b))
        (ground arith)
      ∙ ap (λ l. (some l, (t, traded.1))) booked

  -- There is no quote.
  chase-mock :
      chase mock_broker s side tick (suc s.chases) 0 qty (start mock_broker s side tick) (t, b)
      ≡ (some (start mock_broker s side tick), (t, b))
  unfolding chase
  chase-mock = rw (wanted, chase)

  mop_up-mock :
      mop_up mock_broker s side tick qty (start mock_broker s side tick) (t, b)
      ≡ (some (paper_leg side qty traded.0), (t, traded.1))
  mop_up-mock =
      let all : qty - 0 ≡ qty = omega arith in
      unfold mop_up in rw (wanted, mop_up, all) place_market-mock

  run_leg-mock :
      (use_limit : Bool)
      → run_leg mock_broker s side tick use_limit qty (t, b)
        ≡ (some (paper_leg side qty traded.0), (t, traded.1))
  run_leg-mock false = unfold run_leg in place_market-mock
  run_leg-mock true =
      run_leg-limit mock_broker s side tick qty (start mock_broker s side tick) (t, b) (t, b)
        chase-mock
      ∙ mop_up-mock

  average : round_div (paper_price * qty) qty ≡ paper_price
  average = omega (
    arith,
    round_div-le (paper_price * qty) qty paper_price some_qty (omega arith),
    round_div-ge (paper_price * qty) qty paper_price some_qty (omega arith),
  )

  leg_fill-paper :
      (i : ℕ)
      → leg_fill mock_broker qty (paper_leg side qty i) ≡ record {
        filled_qty = qty;
        avg_price = paper_price;
        order_ids = (market_order mock_broker side qty, i) ∷ [];
        completed = true;
      }
  leg_fill-paper i =
      let full : leb qty qty ≡ true = ground arith in
      let traded_some : eqb qty 0 ≡ false = ground arith in
      rw (traded_some, average, full, leg_fill)

  -- Over the mock broker a leg of at least one unit, with a timeout above 0, by limit orders or at
  -- the market, is completed by one market order for all of it, at 100.00 whatever the option
  -- costs, and the funds are charged for that.
  pub execute_leg-mock :
      (use_limit : Bool)
      → execute_leg mock_broker s side tick use_limit qty (t, b) ≡ (
        some (record {
          filled_qty = qty;
          avg_price = paper_price;
          order_ids = (market_order mock_broker side qty, suc b.counter) ∷ [];
          completed = true;
        }),
        (
          t,
          charge side (paper_price * qty) (record b {
            counter = suc b.counter;
            orders = insert (suc b.counter) (fill qty paper_price complete) b.orders;
          }),
        ),
      )
  unfolding execute_leg mock_place mock_price
  execute_leg-mock use_limit =
      execute_leg-filled mock_broker s side tick qty use_limit (paper_leg side qty traded.0) (t, b)
        (t, traded.1) (run_leg-mock use_limit)
      ∙ ap (λ r. (some r, (t, traded.1))) (leg_fill-paper traded.0)
