-- ===== src/Matrix/Cache.antt =====
-- CandleCache of matrix_engine/candle_cache.py: the series of all symbols and timeframes.
use Prim.Native.String.{String}
use option_chain_based_strat.Common.{
  ◌≡◌, ℕ, Bool, true, ◌&&◌, Option, none, some, List, [], ◌∷◌, arith, Eq, ◌==◌, string_eq, nat_eq,
  ◌↔◌, if◌then◌else◌,
}
use option_chain_based_strat.Common.Dict.{Dict, lookup, insert}
use option_chain_based_strat.Matrix.Candle.{Tick, CandleBucket, CandleEvent}
use option_chain_based_strat.Matrix.Series.{Series, empty_series, on_tick, load_history, publish}

-- The key of a series.
pub record SeriesKey : Type 0 where
  pub symbol : String
  pub tf : ℕ

abbrev pub same_series : SeriesKey → SeriesKey → Bool
same_series a b = (a.symbol == b.symbol) && (a.tf == b.tf)

pub same_series_iff : (a b : SeriesKey) → (same_series a b ≡ true) ↔ (a ≡ b)
same_series_iff a b =
    ground (arith, string_eq.same_iff a.symbol b.symbol, nat_eq.same_iff a.tf b.tf)

instance abbrev pub series_key_eq : Eq SeriesKey
series_key_eq = record { same = same_series; same_iff = same_series_iff }

abbrev pub Cache : Type 0
Cache = Dict SeriesKey Series

abbrev pub or_empty : Option Series → Series
or_empty none = empty_series
or_empty (some s) = s

-- `self._series[key]`, of a defaultdict.
abbrev pub series_at : SeriesKey → Cache → Series
series_at key cache = or_empty (lookup key cache)

-- The loop over the timeframes for one tick, with the closed candles that are published. An
-- exception ends it, with what was done so far.
unfoldable pub take_tick : Tick → List ℕ → List CandleEvent → Cache → List CandleEvent × Cache
unfolding on_tick
take_tick tick [] events cache = (events, cache)
take_tick tick (tf ∷ tfs) events cache =
    let key : SeriesKey = record { symbol = tick.symbol; tf = tf } in
    elim (on_tick tick tf (series_at key cache)) [
      | none ↦ (events, insert key (series_at key cache) cache)
      | some r ↦ take_tick tick tfs (publish r.0 events) (insert key r.1 cache)
    ]

-- load_history of the cache.
unfoldable pub load_into : SeriesKey → List CandleBucket → Cache → Cache
unfolding load_history
load_into key rows cache = insert key (load_history rows (series_at key cache)) cache

unfoldable pub reset_symbol : String → Cache → Cache
reset_symbol symbol [] = []
reset_symbol symbol ((key, s) ∷ cache) =
    if key.symbol == symbol then reset_symbol symbol cache else (key, s) ∷ reset_symbol symbol cache

-- reset_symbol leaves no series of its symbol, and every series of another symbol as it is.
pub lookup-reset_symbol :
    (symbol : String) (key : SeriesKey) (cache : Cache)
    → lookup key (reset_symbol symbol cache)
      ≡ (if key.symbol == symbol then none else lookup key cache)
unfolding reset_symbol
lookup-reset_symbol symbol key [] = ground arith
lookup-reset_symbol symbol key ((j, s) ∷ cache) = ground (
  arith,
  same_series_iff j key,
  string_eq.same_iff j.symbol symbol,
  string_eq.same_iff key.symbol symbol,
  lookup-reset_symbol symbol key cache,
)
