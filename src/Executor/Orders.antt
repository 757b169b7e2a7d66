-- ===== src/Executor/Orders.antt =====
-- The orders of execution_bridge/base_broker.py, and a broker with the clock of the event loop as
-- smart_executor.py sees them. The fields of a request that the executor only passes through (the
-- symbol, exchange, product, tag and client) are left out. Times are milliseconds, prices are
-- multiples of 1e-8, the precision to which the executor rounds, and quantities are counts.
use option_chain_based_strat.Common.{ℕ, Option, Bool, true, false}

pub data OrderSide : Type 0 where
  buy sell : OrderSide

pub data OrderType : Type 0 where
  market limit sl_m sl_l : OrderType

pub data OrderStatus : Type 0 where
  pending open_order complete cancelled rejected unknown : OrderStatus

pub record OrderRequest : Type 0 where
  pub side : OrderSide
  pub qty : ℕ
  pub order_type : OrderType
  pub price : ℕ
  pub is_ioc : Bool

-- The fields of an OrderFill that the executor reads.
pub record OrderFill : Type 0 where
  pub qty : ℕ
  pub avg_price : ℕ
  pub status : OrderStatus

-- A broker and the clock, over the state of the world that they share. A call that raises gives
-- `none`.
pub record Broker : Type 1 where
  pub World : Type 0
  pub OrderId : Type 0
  pub now : World → ℕ
  pub sleep : ℕ → World → World
  pub place_order : OrderRequest → World → Option OrderId × World
  pub get_order_status : OrderId → World → Option OrderFill × World
  pub cancel_order : OrderId → World → World
  pub get_quote : World → Option (ℕ × ℕ) × World

abbrev pub is_complete : OrderStatus → Bool
is_complete complete = true
is_complete _ = false

-- `st in (CANCELLED, REJECTED)`
abbrev pub is_dead : OrderStatus → Bool
is_dead cancelled = true
is_dead rejected = true
is_dead _ = false
