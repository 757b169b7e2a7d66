-- ===== src/Executor/Tests.antt =====
-- The executor against a broker that fills half of every limit order and all of a market order.
use option_chain_based_strat.Common.{
  ℕ, ◌+◌, ◌*◌, ◌/◌, ◌≤◌, ◌≡◌, refl, ap, Option, none, some, List, ◌++◌, length, get_elem?,
  get_elem?-append_end, [], ◌∷◌, true, arith,
}
use mathlib.Core.Logic.{◌↔◌}
use mathlib.Core.Path.{subst}
use mathlib.Core.Option.{some-injective}
use native.Mathlib.Nat.{le_refl}
use option_chain_based_strat.Common.Round.{round_div}
use option_chain_based_strat.Executor.Orders.{
  sell, buy, OrderType, market, limit, sl_m, sl_l, complete, cancelled, unknown, OrderRequest,
  OrderFill, Broker,
}
use option_chain_based_strat.Executor.Pricing.{limit_price, ladder, round_tick, limit_price_bounds}
use option_chain_based_strat.Executor.Leg.{
  Settings, fill, await_from, await_fill, book, market_order, ioc_order, place_market, place_limit,
  chase, mop_up, run_leg, execute_leg, LegFill,
}
use option_chain_based_strat.Executor.Polling.{IsClock, await_fill-fuel}
use option_chain_based_strat.Common.Int.{pos}
use option_chain_based_strat.Executor.Mock.{
  MockBroker, new_mock, mock_broker, charge, mock_status, mock_place,
}
use option_chain_based_strat.Executor.Paper.{execute_leg-mock, mock_status-mock_place}
use option_chain_based_strat.Executor.Fills.{KeepsToOrders}
use option_chain_based_strat.Executor.Legs.{
  Finishes, execute_leg-le, execute_leg-Finishes, chased_leg,
}

abbrev filled_as : OrderType → OrderRequest → OrderFill
filled_as limit req = fill (req.qty / 2) req.price cancelled
filled_as _ req = fill req.qty 9_995_000_000 complete

-- The state of the world is the time and the orders so far; an order is known by its place.
abbrev World : Type 0
World = ℕ × List OrderRequest

abbrev report : Option OrderRequest → OrderFill
report none = fill 0 0 unknown
report (some req) = filled_as req.order_type req

abbrev size : Option OrderRequest → ℕ
size none = 0
size (some req) = req.qty

abbrev half_broker : Broker
half_broker = record {
  World = World;
  OrderId = ℕ;
  now = λ w. w.0;
  sleep = λ d w. (w.0 + d, w.1);
  place_order = λ req w. (some (length w.1), (w.0, w.1 ++ req ∷ []));
  get_order_status = λ i w. (some (report (get_elem? w.1 i)), w);
  cancel_order = λ i w. w;
  get_quote = λ w. (some (10_000_000_000, 10_010_000_000), w);
}

abbrev opening : World
opening = (0, [])

abbrev quick : Settings
quick = record { timeout = 300; chases = 1; poll = 100; settle = 200 }

abbrev tick : ℕ
tick = 5_000_000

filled_as-le : (t : OrderType) (req : OrderRequest) → (filled_as t req).qty ≤ req.qty
filled_as-le market req = omega arith
filled_as-le limit req = omega arith
filled_as-le sl_m req = omega arith
filled_as-le sl_l req = omega arith

report-le : (o : Option OrderRequest) → (report o).qty ≤ size o
report-le none = omega arith
report-le (some req) = filled_as-le req.order_type req

half_broker-KeepsToOrders : KeepsToOrders half_broker (λ i w. size (get_elem? w.1 i))
half_broker-KeepsToOrders = record {
  placed = λ req w i e.
      subst (λ j. size (get_elem? (w.1 ++ req ∷ []) j) ≡ req.qty) (some-injective _ _ e)
        (ap size (get_elem?-append_end w.1 req));
  slept = λ i d w. refl;
  queried = λ i w. refl;
  capped = λ i w f e.
      subst (λ g. g.qty ≤ size (get_elem? w.1 i)) (some-injective _ _ e)
        (report-le (get_elem? w.1 i));
}

-- The repository's own mock broker keeps to its orders too.
mock_broker-KeepsToOrders : KeepsToOrders mock_broker (λ i w. (mock_status i w.1).qty)
mock_broker-KeepsToOrders = record {
  placed = λ req w i e.
      subst (λ j. (mock_status j (mock_place req w.1).1).qty ≡ req.qty) (some-injective _ _ e)
        (ap (λ f. f.qty) (mock_status-mock_place req w.1));
  slept = λ i d w. refl;
  queried = λ i w. refl;
  capped = λ i w f e.
      subst (λ g. g.qty ≤ (mock_status i w.1).qty) (some-injective _ _ e)
        (le_refl (mock_status i w.1).qty);
}

half_broker-IsClock : IsClock half_broker
half_broker-IsClock = record { sleeps = λ d w. le_refl (w.0 + d); asks = λ i w. le_refl w.0 }

-- Of 8 lots, 4 and 2 are filled by the two attempts, and 2 at the market.
abbrev sold : LegFill half_broker
sold = record {
  filled_qty = 8;
  avg_price = 10_001_250_000;
  order_ids =
      (ioc_order half_broker sell 8 10_005_000_000, 0)
      ∷ (ioc_order half_broker sell 4 10_000_000_000, 1)
      ∷ (market_order half_broker sell 2, 2)
      ∷ [];
  completed = true;
}

execute_leg-sold : (execute_leg half_broker quick sell tick true 8 opening).0 ≡ some sold
unfolding execute_leg run_leg mop_up chase place_limit place_market book await_fill await_from
    limit_price ladder round_tick round_div
execute_leg-sold = refl

execute_leg-le_example : (sold.filled_qty ≤ 8) × ((sold.completed ≡ true) ↔ (sold.filled_qty ≡ 8))
execute_leg-le_example =
    execute_leg-le half_broker (λ i w. size (get_elem? w.1 i)) half_broker-KeepsToOrders quick sell
      tick true 8 opening sold execute_leg-sold

execute_leg-Finishes_example :
    Finishes half_broker (chased_leg half_broker quick sell tick 8 opening) sell 1 8 sold
execute_leg-Finishes_example =
    execute_leg-Finishes half_broker quick sell tick 8 opening sold execute_leg-sold

-- An order for 5 stands at place 0.
abbrev five_bought : World
five_bought = (0, market_order half_broker buy 5 ∷ [])

await_fill-fuel_example :
    await_from half_broker 100 1_000 300 0 (fill 0 0 unknown) five_bought
    ≡ await_fill half_broker quick 0 five_bought
await_fill-fuel_example =
    await_fill-fuel half_broker half_broker-IsClock quick 0 five_bought 1_000 (omega arith)
      (omega arith)

-- A straddle's leg of 75 units, sold on paper by a fresh broker with 5 lakh.
abbrev paper_funds : MockBroker
paper_funds = new_mock (pos 50_000_000_000_000)

execute_leg-mock_example : execute_leg mock_broker quick sell tick true 75 (0, paper_funds) ≡ (
  some (record {
    filled_qty = 75;
    avg_price = 10_000_000_000;
    order_ids = (market_order mock_broker sell 75, 1) ∷ [];
    completed = true;
  }),
  (
    0,
    charge sell
        (10_000_000_000 * 75)
        (record paper_funds { counter = 1; orders = (1, fill 75 10_000_000_000 complete) ∷ [] }),
  ),
)
execute_leg-mock_example =
    execute_leg-mock quick (omega arith) sell tick 75 0 (omega arith) paper_funds true

limit_price_bounds_example :
    (100 * 5 ≤ limit_price buy (100 * 5) (103 * 5) 1 2 5)
    × (limit_price buy (100 * 5) (103 * 5) 1 2 5 ≤ 103 * 5)
limit_price_bounds_example =
    limit_price_bounds buy 100 103 5 1 2 (omega arith) (omega arith) (omega arith)
