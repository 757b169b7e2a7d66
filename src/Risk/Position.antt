-- ===== src/Risk/Position.antt =====
-- _PositionRecord of management/risk_manager.py.
pub mod Net
use Prim.Native.String.{String}
use option_chain_based_strat.Common.{
  ℕ, ◌+◌, ◌-◌, ◌≤◌, ◌<◌, ◌≡◌, refl, inl, inr, ◌⊎◌, Bool, true, false, Option, none, some, List, [],
  ◌∷◌, arith, ltb, eqb, if◌then◌else◌, min, Bool-cases,
}
use option_chain_based_strat.Common.Int.{ℤ, pos, sub_ℕ, ◌+ℤ◌, int_laws, pos_part, neg_part}
use option_chain_based_strat.Executor.Orders.{OrderSide, buy, sell, OrderStatus}
use option_chain_based_strat.Risk.Amount.{Amount, nothing, add, sub, times, over}

-- The fields of an OrderFill that the manager reads.
pub record Fill : Type 0 where
  pub client_id : String
  pub symbol : String
  pub side : OrderSide
  pub qty : ℕ
  pub avg_price : Amount
  pub status : OrderStatus
  pub tag : String

-- The side of a flat position is `""`.
pub record Position : Type 0 where
  pub qty : ℕ
  pub avg_entry : Amount
  pub side : Option OrderSide
  pub last_price : Amount
  pub unrealised_pnl : Amount
  pub realised_pnl : Amount

abbrev pub new_position : Position
new_position = record {
  qty = 0;
  avg_entry = nothing;
  side = none;
  last_price = nothing;
  unrealised_pnl = nothing;
  realised_pnl = nothing;
}

abbrev pub is_buy : Option OrderSide → Bool
is_buy (some buy) = true
is_buy _ = false

abbrev pub same_side : OrderSide → Option OrderSide → Bool
same_side buy (some buy) = true
same_side sell (some sell) = true
same_side _ _ = false

-- The first branch, and that of a reversal: a new position.
abbrev pub opened : OrderSide → ℕ → Amount → Position → Position
opened side qty price p = record p { qty = qty; avg_entry = price; side = some side }

unfoldable pub extended : ℕ → Amount → Position → Position
extended qty price p =
    let total_cost = add (times p.avg_entry p.qty) (times price qty) in
    let all = p.qty + qty in
    record p { qty = all; avg_entry = if eqb all 0 then nothing else over total_cost all }

-- What closing `n` units adds to the realised profit.
abbrev pub closed_gain : Position → Amount → ℕ → Amount
closed_gain p price n =
    times (if is_buy p.side then sub price p.avg_entry else sub p.avg_entry price) n

abbrev pub flattened : Position → Position
flattened p = if eqb p.qty 0 then record p { avg_entry = nothing; side = none } else p

unfoldable pub reduced : OrderSide → ℕ → Amount → Position → Position
reduced side qty price p =
    let close_qty = min qty p.qty in
    let rest = flattened (record p {
      qty = p.qty - close_qty;
      realised_pnl = add p.realised_pnl (closed_gain p price close_qty);
    }) in
    if ltb close_qty qty then opened side (qty - close_qty) price rest else rest

-- `_compute_unrealised`
unfoldable pub compute_unrealised : Position → Amount
compute_unrealised p =
    if eqb p.qty 0
    then nothing
    else if is_buy p.side
    then times (sub p.last_price p.avg_entry) p.qty
    else times (sub p.avg_entry p.last_price) p.qty

unfoldable pub update_mark : Amount → Position → Position
unfolding compute_unrealised
update_mark price p =
    let q : Position = record p { last_price = price } in
    record q { unrealised_pnl = compute_unrealised q }

unfoldable pub filled : OrderSide → ℕ → Amount → Position → Position
unfolding extended reduced
filled side qty price p =
    if eqb p.qty 0
    then opened side qty price p
    else if same_side side p.side
    then extended qty price p
    else reduced side qty price p

unfoldable pub apply_fill : Fill → Position → Position
unfolding filled update_mark
apply_fill f p = update_mark f.avg_price (filled f.side f.qty f.avg_price p)

unfoldable pub apply_fills : List Fill → Position → Position
unfolding apply_fill
apply_fills [] p = p
apply_fills (f ∷ fs) p = apply_fills fs (apply_fill f p)
