-- ===== src/Risk/Client.antt =====
-- _ClientRiskState of management/risk_manager.py.
use Prim.Native.String.{String}
use option_chain_based_strat.Common.{
  ℕ, ◌+◌, ◌-◌, ◌*◌, Bool, false, Option, none, some, List, [], ◌∷◌, ◌++◌, string_eq, ltb, eqb,
  if◌then◌else◌, length, drop, map,
}
use option_chain_based_strat.Common.Int.{pos_part}
use option_chain_based_strat.Common.Dict.{Dict, lookup, insert, values}
use option_chain_based_strat.Common.Round.{round_div}
use option_chain_based_strat.Risk.Amount.{Amount, whole, add, sub, less, sum_of}
use option_chain_based_strat.Risk.Position.{Position, new_position}

-- `drawdown_pct` is counted in thousandths of a percent, to which the source rounds it.
pub record ClientState : Type 0 where
  pub capital : ℕ
  pub positions : Dict String Position
  pub peak_equity : Amount
  pub drawdown_pct : ℕ
  pub slippage : List (String × Amount)
  pub liquidating : Bool

abbrev pub new_state : ℕ → ClientState
new_state capital = record {
  capital = capital;
  positions = [];
  peak_equity = whole capital;
  drawdown_pct = 0;
  slippage = [];
  liquidating = false;
}

abbrev pub or_new : Option Position → Position
or_new none = new_position
or_new (some p) = p

-- `self.position(symbol)`, and what becomes of it.
unfoldable pub on_position : String → (Position → Position) → ClientState → ClientState
on_position symbol f s = record s {
  positions = insert symbol (f (or_new (lookup symbol s.positions))) s.positions;
}

unfoldable pub net_mtm : ClientState → Amount
unfolding sum_of
net_mtm s = sum_of (map (λ p. add p.unrealised_pnl p.realised_pnl) (values s.positions))

unfoldable pub current_equity : ClientState → Amount
unfolding net_mtm
current_equity s = add (whole s.capital) (net_mtm s)

-- `round(max((peak - eq) / capital * 100, 0), 3)`, and 0 without capital.
unfoldable pub drawdown_of : Amount → Amount → ℕ → ℕ
unfolding round_div
drawdown_of peak eq capital =
    let d = sub peak eq in
    if eqb capital 0 then 0 else round_div (pos_part d.num * 100_000) (d.den * capital)

unfoldable pub update_drawdown : ClientState → ClientState
unfolding drawdown_of
update_drawdown s =
    let eq = current_equity s in
    let peak = if less s.peak_equity eq then eq else s.peak_equity in
    record s { peak_equity = peak; drawdown_pct = drawdown_of peak eq s.capital }

-- The last 500 are kept.
unfoldable pub record_slippage : String → Amount → ClientState → ClientState
record_slippage provider points s =
    let all = s.slippage ++ (provider, points) ∷ [] in
    record s { slippage = if ltb 500 (length all) then drop (length all - 500) all else all }

abbrev pub open_lots : List Position → ℕ
open_lots [] = 0
open_lots (p ∷ ps) = p.qty + open_lots ps

unfoldable pub total_open_lots : ClientState → ℕ
total_open_lots s = open_lots (values s.positions)
