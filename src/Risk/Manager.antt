-- ===== src/Risk/Manager.antt =====
-- RiskManager of management/risk_manager.py, with the clients of config/client_profiles.py that it
-- reads. The queues, the loops around the handlers and the worker pool are left out; a publication
-- is an entry of `published`.
use Prim.Native.String.{String}
use option_chain_based_strat.Common.{
  ℕ, zero, suc, ◌+◌, ◌*◌, Bool, true, false, not, ◌&&◌, ◌||◌, Option, none, some, List, [], ◌∷◌,
  ◌++◌, ◌==◌, string_eq, ltb, eqb, if◌then◌else◌, length, sort_by,
}
use option_chain_based_strat.Common.Int.{ℤ, pos, ◌*ℤ◌, leb_ℤ, ◌-ℤ◌, pos_part, neg_part}
use option_chain_based_strat.Common.Dict.{Dict, lookup, contains, insert, erase, keys}
use option_chain_based_strat.Executor.Orders.{OrderSide, buy, sell, is_complete}
use option_chain_based_strat.Risk.Amount.{Amount, sub}
use option_chain_based_strat.Risk.Position.{Fill, apply_fill, update_mark}
use option_chain_based_strat.Risk.Client.{
  ClientState, new_state, on_position, update_drawdown, record_slippage,
}

-- A ClientProfile: `active`, `_halted`, `_daily_pnl`, and the capital and `max_daily_loss_pct` of its
-- risk settings, the last in hundredths of a percent.
pub record Client : Type 0 where
  pub active : Bool
  pub halted : Bool
  pub daily_pnl : ℤ
  pub capital : ℕ
  pub max_daily_loss_pct : ℕ

pub data SystemEvent : Type 0 where
  client_risk_halt : String → SystemEvent
  kill_switch : List String → SystemEvent

-- A buffered signal: the provider, the price and the time.
abbrev pub Pending : Type 0
Pending = String × Amount × ℕ

pub record Manager : Type 0 where
  pub registry : Dict String Client
  pub states : Dict String ClientState
  pub pending : Dict String Pending
  pub published : List SystemEvent
  pub kill_all_active : Bool

-- `self._registry.all_active()`, the identifiers of the active clients.
unfoldable pub all_active : Dict String Client → List String
all_active [] = []
all_active ((i, c) ∷ reg) = let rest = all_active reg in if c.active then i ∷ rest else rest

-- `_sync_registry`
unfoldable pub sync_registry :
    Dict String Client → Dict String ClientState → Dict String ClientState
sync_registry [] states = states
sync_registry ((i, c) ∷ reg) states =
    sync_registry reg (
      if c.active && not (contains i states) then insert i (new_state c.capital) states else states)

-- What the price of a fill lost against that of its signal.
abbrev pub slip : OrderSide → Amount → Amount → Amount
slip buy paid wanted = sub paid wanted
slip sell paid wanted = sub wanted paid

-- The part of `_handle_fill` behind the position: the slippage, for a tag that is buffered.
abbrev pub slipped : Fill → Option Pending → ClientState → ClientState
slipped f none s = s
slipped f (some (provider, price, ts)) s =
    record_slippage provider (slip f.side f.avg_price price) s

abbrev pub pending_of : Fill → Dict String Pending → Option Pending
pending_of f pending = if f.tag == "" then none else lookup f.tag pending

abbrev pub filled_state : Fill → Dict String Pending → ClientState → ClientState
filled_state f pending s =
    update_drawdown (slipped f (pending_of f pending) (on_position f.symbol (apply_fill f) s))

unfoldable pub handle_fill : Fill → Manager → Manager
unfolding sync_registry
handle_fill f m =
    let states = sync_registry m.registry m.states in
    elim (is_complete f.status) [
      | false ↦ m
      | true ↦ elim (lookup f.client_id states) [
        | none ↦ record m { states = states }
        | some s ↦ record m {
          states = insert f.client_id (filled_state f m.pending s) states;
          pending = if f.tag == "" then m.pending else erase f.tag m.pending;
        }
      ]
    ]

abbrev pub take : {A : Type 0} → ℕ → List A → List A
take zero xs = []
take (suc n) [] = []
take (suc n) (x ∷ xs) = x ∷ take n xs

unfoldable pub drop_keys : List (String × Pending) → Dict String Pending → Dict String Pending
drop_keys [] d = d
drop_keys ((k, v) ∷ ks) d = drop_keys ks (erase k d)

-- `_record_signal`, for a signal with an identifier and a price: past 200 the 50 oldest go.
unfoldable pub record_signal : String → Pending → Dict String Pending → Dict String Pending
unfolding drop_keys
record_signal sig_id entry pending =
    let all = insert sig_id entry pending in
    if ltb 200 (length all) then drop_keys (take 50 (sort_by (λ e. e.1.2) all)) all else all

abbrev pub set_liquidating : Bool → String → Dict String ClientState → Dict String ClientState
set_liquidating b i states = elim (lookup i states) [
  | none ↦ states
  | some s ↦ insert i (record s { liquidating = b }) states
]

abbrev pub is_liquidating : Option ClientState → Bool
is_liquidating none = false
is_liquidating (some s) = s.liquidating

-- `_liquidate_client`
unfoldable pub liquidate_client : String → Manager → Manager
liquidate_client i m = elim (is_liquidating (lookup i m.states)) [
  | true ↦ m
  | false ↦ elim (lookup i m.registry) [
    | none ↦ record m { states = set_liquidating true i m.states }
    | some c ↦ record m {
      registry = insert i (record c { halted = true }) m.registry;
      states = set_liquidating false i (set_liquidating true i m.states);
      published = m.published ++ client_risk_halt i ∷ [];
    }
  ]
]

unfoldable pub liquidate_all : List String → Manager → Manager
unfolding liquidate_client
liquidate_all [] m = m
liquidate_all (i ∷ is) m = liquidate_all is (liquidate_client i m)

-- `kill_all`, with what it returns: none for "already_running", else the clients.
unfoldable pub kill_all : Manager → Option (List String) × Manager
unfolding liquidate_all all_active
kill_all m =
    let ids = all_active m.registry in
    let m' = liquidate_all ids (record m { kill_all_active = true }) in
    if m.kill_all_active then (none, m) else (
      some ids,
      record m' { published = m'.published ++ kill_switch ids ∷ []; kill_all_active = false },
    )

-- `daily_loss_pct >= max_daily_loss_pct`, multiplied out; without capital the loss is 0 percent.
abbrev pub breached : Client → Bool
breached c =
    if eqb c.capital 0
    then eqb c.max_daily_loss_pct 0
    else leb_ℤ (pos (c.max_daily_loss_pct * c.capital)) ((pos 0 -ℤ c.daily_pnl) *ℤ pos 10_000)

abbrev pub touched : String → ClientState → Manager → Manager
touched i s m = record m { states = insert i (update_drawdown s) m.states }

-- One round of the loop of `_check_all_clients`.
unfoldable pub check_client : String → Manager → Manager
unfolding liquidate_client
check_client i m = elim (lookup i m.registry) [
  | none ↦ m
  | some c ↦ elim (lookup i m.states) [
    | none ↦ m
    | some s ↦
        (let m' = touched i s m in
          if breached c && not s.liquidating then liquidate_client i m' else m')
  ]
]

unfoldable pub check_each : List String → Manager → Manager
unfolding check_client
check_each [] m = m
check_each (i ∷ is) m = check_each is (check_client i m)

unfoldable pub check_all_clients : Manager → Manager
unfolding check_each
check_all_clients m =
    let synced = record m { states = sync_registry m.registry m.states } in
    check_each (keys synced.states) synced

abbrev pub is_zero : Amount → Bool
is_zero a = eqb (pos_part a.num + neg_part a.num) 0

-- A position that a broker reports: its symbol, and its mark price as `ltp or mark_price`. One
-- without a symbol or a mark price is passed over.
unfoldable pub reconcile_positions : List (String × Amount) → ClientState → ClientState
reconcile_positions [] s = s
reconcile_positions ((symbol, mark) ∷ ps) s =
    reconcile_positions ps
      (if symbol == "" || is_zero mark then s else on_position symbol (update_mark mark) s)
