-- ===== src/Executor/Mock.antt =====
-- MockBroker of execution_bridge/base_broker.py as a broker of the executor. An order's identifier
-- is the number of the counter in its text; the funds are multiples of 1e-8. It has no get_quote,
-- so that the executor's call raises.
use option_chain_based_strat.Common.{
  ℕ, suc, ◌+◌, ◌*◌, Bool, true, false, Option, none, some, [], if◌then◌else◌, eqb, nat_eq,
}
use option_chain_based_strat.Common.Int.{ℤ, pos, ◌+ℤ◌, ◌-ℤ◌, max_ℤ}
use option_chain_based_strat.Common.Dict.{Dict, lookup, insert}
use option_chain_based_strat.Executor.Orders.{
  OrderSide, buy, sell, limit, complete, cancelled, unknown, OrderRequest, OrderFill, Broker,
}
use option_chain_based_strat.Executor.Leg.{fill}

pub record MockBroker : Type 0 where
  pub authenticated : Bool
  pub counter : ℕ
  pub orders : Dict ℕ OrderFill
  pub available : ℤ
  pub used : ℤ

-- A fresh one with its capital.
abbrev pub new_mock : ℤ → MockBroker
new_mock capital = record {
  authenticated = false;
  counter = 0;
  orders = [];
  available = capital;
  used = pos 0;
}

abbrev pub authenticate : MockBroker → MockBroker
authenticate b = record b { authenticated = true }

abbrev pub logout : MockBroker → MockBroker
logout b = record b { authenticated = false }

-- `req.price or 100.0`, but for a limit order.
unfoldable pub mock_price : OrderRequest → ℕ
mock_price req = elim req.order_type [
  | limit ↦ req.price
  | _ ↦ if eqb req.price 0 then 10_000_000_000 else req.price
]

unfoldable pub charge : OrderSide → ℕ → MockBroker → MockBroker
charge buy cost b = record b { available = b.available -ℤ pos cost; used = b.used +ℤ pos cost }
charge sell cost b = record b {
  available = b.available +ℤ pos cost;
  used = max_ℤ (pos 0) (b.used -ℤ pos cost);
}

unfoldable pub mock_place : OrderRequest → MockBroker → ℕ × MockBroker
unfolding mock_price charge
mock_place req b =
    let order = suc b.counter in
    let price = mock_price req in
    (
      order,
      charge req.side (price * req.qty) (record b {
        counter = order;
        orders = insert order (fill req.qty price complete) b.orders;
      }),
    )

abbrev pub or_unknown : Option OrderFill → OrderFill
or_unknown none = fill 0 0 unknown
or_unknown (some f) = f

abbrev pub mock_status : ℕ → MockBroker → OrderFill
mock_status order b = or_unknown (lookup order b.orders)

-- `cancel_order`, with what it returns.
unfoldable pub mock_cancel : ℕ → MockBroker → Bool × MockBroker
mock_cancel order b = elim (lookup order b.orders) [
  | none ↦ (false, b)
  | some f ↦ (true, record b { orders = insert order (record f { status = cancelled }) b.orders })
]

-- Over the clock of the event loop, which stands beside it.
abbrev pub mock_broker : Broker
mock_broker = record {
  World = ℕ × MockBroker;
  OrderId = ℕ;
  now = λ w. w.0;
  sleep = λ d w. (w.0 + d, w.1);
  place_order = λ req w. let r = mock_place req w.1 in (some r.0, (w.0, r.1));
  get_order_status = λ i w. (some (mock_status i w.1), w);
  cancel_order = λ i w. (w.0, (mock_cancel i w.1).1);
  get_quote = λ w. (none, w);
}
