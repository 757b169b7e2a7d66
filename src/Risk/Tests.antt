-- ===== src/Risk/Tests.antt =====
-- Positions and the kill switch on small cases.
use option_chain_based_strat.Common.{
  string_eq, some, ℕ, ◌≡◌, refl, true, false, List, [], ◌∷◌, arith,
}
use option_chain_based_strat.Common.Int.{pos, ◌+ℤ◌}
use option_chain_based_strat.Executor.Orders.{OrderSide, buy, sell, complete}
use option_chain_based_strat.Risk.Amount.{whole}
use option_chain_based_strat.Risk.Position.{Fill, new_position, apply_fills}
use option_chain_based_strat.Risk.Position.Net.{Sided, net, total, apply_fills-net}
use option_chain_based_strat.Risk.Client.{new_state}
use option_chain_based_strat.Risk.Manager.{Client, Manager, kill_all, handle_fill}
use option_chain_based_strat.Risk.Apart.{handle_fill-apart}
use option_chain_based_strat.Common.Dict.{lookup}
use option_chain_based_strat.Risk.Kill.{Halted, kill_all-Halted}

abbrev fill_of : OrderSide → ℕ → Fill
fill_of side n = record {
  client_id = "C1";
  symbol = "NIFTY";
  side = side;
  qty = n;
  avg_price = whole 100;
  status = complete;
  tag = "";
}

-- Bought 2, then sold 5: a reversal.
abbrev turned : List Fill
turned = fill_of buy 2 ∷ fill_of sell 5 ∷ []

apply_fills-net_example :
    let r = apply_fills turned new_position in
    Sided r.qty r.side × (net r ≡ net new_position +ℤ total turned)
apply_fills-net_example = apply_fills-net turned new_position refl (omega arith, (omega arith, tt))

abbrev trader : Client
trader = record {
  active = true;
  halted = false;
  daily_pnl = pos 0;
  capital = 1_000;
  max_daily_loss_pct = 500;
}

abbrev desk : Manager
desk = record {
  registry = ("C1", trader) ∷ ("C2", trader) ∷ [];
  states = [];
  pending = [];
  published = [];
  kill_all_active = false;
}

kill_all-Halted_example : Halted (kill_all desk).1.registry "C2"
kill_all-Halted_example = kill_all-Halted desk "C2" trader refl (λ i. refl) refl refl

abbrev booked : Manager
booked = record desk { states = ("C2", new_state 7) ∷ [] }

handle_fill-apart_example :
    lookup "C2" (handle_fill (fill_of buy 2) booked).states ≡ some (new_state 7)
handle_fill-apart_example = handle_fill-apart (fill_of buy 2) booked "C2" (new_state 7) refl refl
