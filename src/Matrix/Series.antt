-- ===== src/Matrix/Series.antt =====
-- _CandleSeries of matrix_engine/candle_cache.py: the candles of one symbol and timeframe, in a
-- deque of at most 600, and the bucket in progress.
use option_chain_based_strat.Common.{
  ℕ, zero, suc, ◌-◌, ◌&&◌, Bool, Option, none, some, List, [], ◌∷◌, ◌++◌, eqb, length, drop,
  if◌then◌else◌, get_elem?,
}
use option_chain_based_strat.Matrix.Candle.{
  Stamp, Tick, CandleBucket, CandleEvent, floor_ts, new_candle, update, closed_event,
}

-- _MAX_CANDLES
abbrev pub max_candles : ℕ
max_candles = 600

-- `==` of two datetimes.
abbrev pub stamp_eq : Stamp → Stamp → Bool
stamp_eq a b =
    eqb a.day b.day
    && eqb a.hour b.hour
    && eqb a.minute b.minute
    && eqb a.second b.second
    && eqb a.microsecond b.microsecond

pub record Series : Type 0 where
  pub candles : List CandleBucket
  pub bucket : Option CandleBucket

abbrev pub empty_series : Series
empty_series = record { candles = []; bucket = none }

abbrev pub newest {ℓ} : {A : Type ℓ} → ℕ → List A → List A
newest n xs = drop (length xs - n) xs

-- `deque(maxlen=_MAX_CANDLES).append`
abbrev pub append : CandleBucket → List CandleBucket → List CandleBucket
append b candles = newest max_candles (candles ++ b ∷ [])

-- on_tick behind the call of _floor_ts.
unfoldable pub enter : Stamp → Tick → ℕ → Series → Option CandleEvent × Series
unfolding update
enter at tick tf s = elim s.bucket [
  | none ↦ (none, record s { bucket = some (new_candle at tick) })
  | some b ↦ if stamp_eq b.ts at then (none, record s { bucket = some (update tick b) }) else (
    some (closed_event tick tf b),
    record { candles = append b s.candles; bucket = some (new_candle at tick) },
  )
]

unfoldable pub on_tick : Tick → ℕ → Series → Option (Option CandleEvent × Series)
unfolding floor_ts enter
on_tick tick tf s = elim (floor_ts tick.timestamp tf) [
  | none ↦ none
  | some at ↦ some (enter at tick tf s)
]

unfoldable pub load_rows : List CandleBucket → List CandleBucket → List CandleBucket
load_rows [] candles = candles
load_rows (row ∷ rows) candles = load_rows rows (append row candles)

unfoldable pub load_history : List CandleBucket → Series → Series
unfolding load_rows
load_history rows s = record s { candles = load_rows rows s.candles }

-- The last candle and the one before it.
unfoldable pub last_two : Series → Option CandleBucket × Option CandleBucket
last_two s =
    let n = length s.candles in
    (
      elim n [ zero ↦ none | suc i ↦ get_elem? s.candles i ],
      elim n [ zero ↦ none | suc zero ↦ none | suc (suc i) ↦ get_elem? s.candles i ],
    )

-- `bus.publish(Topic.CANDLE_CLOSE, closed)`, behind `if closed`.
abbrev pub publish : Option CandleEvent → List CandleEvent → List CandleEvent
publish none events = events
publish (some event) events = events ++ event ∷ []

-- The ticks of one symbol at one timeframe, in the order of their arrival, with the CandleEvents
-- that are published; `none` where a tick raises.
unfoldable pub feed : ℕ → List Tick → List CandleEvent → Series → Option (List CandleEvent × Series)
unfolding on_tick
feed tf [] events s = some (events, s)
feed tf (tick ∷ ticks) events s = elim (on_tick tick tf s) [
  | none ↦ none
  | some r ↦ feed tf ticks (publish r.0 events) r.1
]
