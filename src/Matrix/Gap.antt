-- ===== src/Matrix/Gap.antt =====
-- GapHandler of matrix_engine/gap_handler.py. A spot price is in paise; whether the drift is over
-- the threshold of one percent is decided exactly.
pub mod Outcome
pub mod Once
pub mod Restored
use Prim.Native.String.{String}
use option_chain_based_strat.Common.{
  ℕ, zero, suc, ◌+◌, ◌-◌, ◌*◌, Bool, true, false, not, ◌&&◌, Option, none, some, List, [], ◌∷◌,
  ◌++◌, string_eq, if◌then◌else◌, ltb, leb, is_none, is_some,
}
use option_chain_based_strat.Common.Dict.{Dict, lookup, insert}
use option_chain_based_strat.Matrix.Candle.{Stamp, Tick, CandleBucket}
use option_chain_based_strat.Matrix.Cache.{SeriesKey, Cache, load_into, reset_symbol}

-- The time of a day, in microseconds.
abbrev pub micros : ℕ → ℕ → ℕ → ℕ → ℕ
micros hour minute second microsecond =
    ((hour * 60 + minute) * 60 + second) * 1_000_000 + microsecond

abbrev pub time_of : Stamp → ℕ
time_of ts = micros ts.hour ts.minute ts.second ts.microsecond

-- _PRE_OPEN_CAPTURE
abbrev pub pre_open_capture : ℕ
pre_open_capture = micros 9 8 0 0

-- _MARKET_OPEN_CHECK
abbrev pub market_open_check : ℕ
market_open_check = micros 9 15 1 0

-- _GapState
pub record GapState : Type 0 where
  pub pre_open_ref : Option ℕ
  pub gap_checked : Bool
  pub gap_fired : Bool

abbrev pub fresh : GapState
fresh = record { pre_open_ref = none; gap_checked = false; gap_fired = false }

-- restore_candle_history of the persistence: the rows of each series, or an exception.
abbrev pub Restore : Type 0
Restore = List String → List ℕ → ℕ → Option (List (SeriesKey × List CandleBucket))

-- What the handler does to others, in order: a reset callback that runs, with the candles that it
-- finds, and the published event GAP_OPEN with its reference and opening price.
pub data Effect : Type 0 where
  called : (callback : ℕ) (underlying : String) (spot : ℕ) (seen : Option Cache) → Effect
  gap_open : (underlying : String) (reference : ℕ) (spot : ℕ) → Effect

-- The handler with the candle cache, which it may lack, and its persistence, which it may lack too.
pub record Gap : Type 0 where
  pub states : Dict String GapState
  pub callbacks : List ℕ
  pub cache : Option Cache
  pub restore : Option Restore
  pub timeframes : List ℕ
  pub effects : List Effect

unfoldable pub register_reset_callback : ℕ → Gap → Gap
register_reset_callback cb g = record g { callbacks = g.callbacks ++ cb ∷ [] }

unfoldable pub gap_reference : String → Gap → Option ℕ
gap_reference underlying g = elim (lookup underlying g.states) [
  | none ↦ none
  | some st ↦ st.pre_open_ref
]

unfoldable pub gap_was_fired : String → Gap → Bool
gap_was_fired underlying g = elim (lookup underlying g.states) [
  | none ↦ false
  | some st ↦ st.gap_fired
]

unfoldable pub reset_all : Dict String GapState → Dict String GapState
reset_all [] = []
reset_all ((u, st) ∷ states) = (u, fresh) ∷ reset_all states

unfoldable pub daily_reset : Gap → Gap
unfolding reset_all
daily_reset g = record g { states = reset_all g.states }

-- The loop over the restored rows; an empty frame is skipped.
unfoldable pub reload : List (SeriesKey × List CandleBucket) → Cache → Cache
reload [] cache = cache
reload ((key, []) ∷ history) cache = reload history cache
reload ((key, row ∷ rows) ∷ history) cache = reload history (load_into key (row ∷ rows) cache)

-- _clear_and_restore_candles; 500 rows are asked for.
unfoldable pub clear_and_restore : Option Restore → List ℕ → String → Option Cache → Option Cache
unfolding reload
clear_and_restore restore tfs underlying none = none
clear_and_restore none tfs underlying (some cache) = some (reset_symbol underlying cache)
clear_and_restore (some restore) tfs underlying (some cache) =
    elim (restore (underlying ∷ []) tfs 500) [
      | none ↦ some (reset_symbol underlying cache)
      | some history ↦ some (reload history (reset_symbol underlying cache))
    ]

-- The callbacks that `gather` starts; what one raises is only logged.
unfoldable pub call_all : String → ℕ → Option Cache → List ℕ → List Effect
call_all underlying spot cache [] = []
call_all underlying spot cache (cb ∷ cbs) =
    called cb underlying spot cache ∷ call_all underlying spot cache cbs

-- _fire_gap_reset
unfoldable pub fire_gap_reset : String → ℕ → ℕ → Gap → Gap
unfolding clear_and_restore call_all
fire_gap_reset underlying reference spot g =
    let cache = clear_and_restore g.restore g.timeframes underlying g.cache in
    record g {
      cache = cache;
      effects =
          g.effects
          ++ call_all underlying spot cache g.callbacks
          ++ gap_open underlying reference spot ∷ [];
    }

-- `drift > GAP_THRESHOLD`; a reference of 0 divides by zero.
unfoldable pub drift_over : ℕ → ℕ → Option Bool
drift_over zero spot = none
drift_over (suc r) spot = some (ltb (suc r) (100 * ((spot - suc r) + (suc r - spot))))

-- Phase 1 applies.
abbrev pub captures : ℕ → GapState → Bool
captures time st =
    is_none st.pre_open_ref && leb pre_open_capture time && ltb time market_open_check

-- What follows the division of the opening check, which already counts as done.
unfoldable pub conclude : Option Bool → String → ℕ → ℕ → GapState → Gap → Gap
unfolding fire_gap_reset
conclude none underlying reference spot st g = record g {
  states = insert underlying (record st { gap_checked = true }) g.states;
}
conclude (some false) underlying reference spot st g = record g {
  states = insert underlying (record st { gap_checked = true }) g.states;
}
conclude (some true) underlying reference spot st g =
    fire_gap_reset underlying reference spot (record g {
      states = insert underlying (record st { gap_checked = true; gap_fired = true }) g.states;
    })

-- Phase 2, for a state with a reference.
abbrev pub check_open : String → ℕ → ℕ → GapState → Gap → Gap
check_open underlying reference spot st g =
    conclude (drift_over reference spot) underlying reference spot st g

-- _on_tick, as run uses it: an exception is swallowed.
unfoldable pub on_gap_tick : Tick → Gap → Gap
unfolding conclude
on_gap_tick tick g = elim (lookup tick.symbol g.states) [
  | none ↦ g
  | some st ↦
      let time = time_of tick.timestamp in
      if captures time st
      then record g {
        states = insert tick.symbol (record st { pre_open_ref = some tick.ltp }) g.states;
      }
      else if not st.gap_checked && leb market_open_check time
      then elim st.pre_open_ref [
        | none ↦ g
        | some reference ↦ check_open tick.symbol reference tick.ltp st g
      ]
      else g
]

unfoldable pub on_gap_ticks : List Tick → Gap → Gap
unfolding on_gap_tick
on_gap_ticks [] g = g
on_gap_ticks (tick ∷ ticks) g = on_gap_ticks ticks (on_gap_tick tick g)
