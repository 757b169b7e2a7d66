-- ===== src/Strikes/Rebalancer.antt =====
-- StrikeRebalancer of data_layer/strike_rebalancer.py, for one monitored index; a call for an index
-- that is not monitored does nothing. Prices and steps are in paise. The feeder gets the strikes,
-- which _strikes_to_tokens turns into its tokens; its calls are taken not to raise.
use option_chain_based_strat.Common.{
  ℕ, zero, suc, ◌+◌, ◌-◌, ◌*◌, Bool, true, false, not, ◌&&◌, Option, none, some, List, [], ◌∷◌,
  ◌++◌, leb, eqb, is_none, if◌then◌else◌,
}
use option_chain_based_strat.Common.Int.{ℤ, sub_ℕ}
use option_chain_based_strat.Common.Round.{round_div}
use option_chain_based_strat.Strikes.Sets.{add_to, discard, minus, union, subset}

-- Times of a day in seconds: _MARKET_OPEN and _NSE_CLOSE.
abbrev pub market_open : ℕ
market_open = 33_300

abbrev pub nse_close : ℕ
nse_close = 55_800

-- _REBALANCE_THRESHOLD
abbrev pub rebalance_threshold : ℕ
rebalance_threshold = 3

-- What the settings say of the index.
pub record Index : Type 0 where
  pub is_nse : Bool
  pub step : ℕ
  pub depth : ℕ

-- _UnderlyingState
pub record StrikeState : Type 0 where
  pub open_atm : Option ℕ
  pub current_atm : Option ℕ
  pub active_strikes : List ℤ
  pub pinned_strikes : List ℤ
  pub rebalance_count : ℕ
  pub eod_unsubscribed : Bool
  pub chain_enabled : Bool

abbrev pub new_state_of_strikes : StrikeState
new_state_of_strikes = record {
  open_atm = none;
  current_atm = none;
  active_strikes = [];
  pinned_strikes = [];
  rebalance_count = 0;
  eod_unsubscribed = false;
  chain_enabled = false;
}

-- What the feeder is asked for.
pub data FeedCall : Type 0 where
  subscribe unsubscribe : (strikes : List ℤ) → FeedCall

unfoldable pub enable_chain : StrikeState → StrikeState
enable_chain st = record st { chain_enabled = true }

-- pin_strike, which a fill calls too.
unfoldable pub pin_strike : ℤ → StrikeState → StrikeState
pin_strike strike st = record st {
  pinned_strikes = add_to strike st.pinned_strikes;
  active_strikes = add_to strike st.active_strikes;
}

unfoldable pub unpin_strike : ℤ → StrikeState → StrikeState
unpin_strike strike st = record st { pinned_strikes = discard strike st.pinned_strikes }

-- The event of a live feed.
unfoldable pub reset_anchors : StrikeState → StrikeState
reset_anchors st = record st { open_atm = none; current_atm = none }

unfoldable pub round_to_strike : ℕ → ℕ → ℕ
unfolding round_div
round_to_strike price step = round_div price step * step

-- The strikes from `depth` steps below to as many above.
abbrev pub window_up : ℕ → ℕ → ℕ → ℕ → List ℤ
window_up atm step depth zero = []
window_up atm step depth (suc n) =
    sub_ℕ (atm + (2 * depth - n) * step) (depth * step) ∷ window_up atm step depth n

unfoldable pub strike_window : ℕ → ℕ → ℕ → List ℤ
strike_window atm step depth = window_up atm step depth (2 * depth + 1)

-- A call with no strikes is not made.
abbrev pub call_of : (List ℤ → FeedCall) → List ℤ → List FeedCall
call_of call [] = []
call_of call (x ∷ xs) = call (x ∷ xs) ∷ []

unfoldable pub initial_subscribe : Index → ℕ → StrikeState → List FeedCall × StrikeState
unfolding strike_window
initial_subscribe ix atm st =
    let window = if st.chain_enabled then strike_window atm ix.step ix.depth else [] in
    let active = union window st.pinned_strikes in
    (call_of subscribe active, record st { active_strikes = active })

-- The strikes that a rebalance drops and adds.
abbrev pub to_unsub : Index → ℕ → StrikeState → List ℤ
to_unsub ix atm st =
    minus (minus st.active_strikes (strike_window atm ix.step ix.depth)) st.pinned_strikes

abbrev pub to_sub : Index → ℕ → StrikeState → List ℤ
to_sub ix atm st = minus (strike_window atm ix.step ix.depth) st.active_strikes

-- `_rebalance`; where the assertion at its end fails, `none`.
unfoldable pub rebalance : Index → ℕ → StrikeState → List FeedCall × Option StrikeState
unfolding strike_window
rebalance ix atm st =
    let dropped = to_unsub ix atm st in
    let added = to_sub ix atm st in
    let active = union (minus st.active_strikes dropped) added in
    (
      call_of unsubscribe dropped ++ call_of subscribe added,
      (if subset st.pinned_strikes active
          then some (record st {
            active_strikes = active;
            current_atm = some atm;
            rebalance_count = st.rebalance_count + 1;
          })
          else none),
    )

-- The cleanup at the close.
unfoldable pub unsubscribe_at_close : StrikeState → List FeedCall × StrikeState
unsubscribe_at_close st =
    let dropped = minus st.active_strikes st.pinned_strikes in
    (
      call_of unsubscribe dropped,
      record st { active_strikes = minus st.active_strikes dropped; eod_unsubscribed = true },
    )

abbrev pub drift : ℕ → ℕ → ℕ
drift a b = (a - b) + (b - a)

-- The part of `_on_tick` behind the close.
unfoldable pub follow : Index → ℕ → ℕ → StrikeState → List FeedCall × Option StrikeState
unfolding round_to_strike initial_subscribe rebalance
follow ix time ltp st =
    let atm = round_to_strike ltp ix.step in
    let first =
      initial_subscribe ix atm (record st { open_atm = some atm; current_atm = some atm }) in
    if is_none st.open_atm && leb market_open time
    then (if st.eod_unsubscribed then ([], some st) else (first.0, some first.1))
    else elim st.current_atm [
      | none ↦ ([], some st)
      | some current ↦
          if leb (rebalance_threshold * ix.step) (drift atm current)
          then rebalance ix atm st
          else ([], some st)
    ]

-- The first block of `_on_tick`.
abbrev pub mark_close : Index → ℕ → StrikeState → StrikeState
mark_close ix time st =
    if ix.is_nse && leb nse_close time then record st { eod_unsubscribed = true } else st

-- `_on_tick`; a step of 0 raises, as does the assertion of a rebalance.
unfoldable pub on_strike_tick : Index → ℕ → ℕ → StrikeState → List FeedCall × Option StrikeState
unfolding follow unsubscribe_at_close
on_strike_tick ix time ltp st =
    let marked = mark_close ix time st in
    if ix.is_nse && not marked.eod_unsubscribed && leb nse_close time
    then ((unsubscribe_at_close marked).0, some (unsubscribe_at_close marked).1)
    else if eqb ix.step 0
    then ([], none)
    else follow ix time ltp marked
