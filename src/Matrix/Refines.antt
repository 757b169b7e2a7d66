-- ===== src/Matrix/Refines.antt =====
-- That _CandleSeries of matrix_engine/candle_cache.py follows the log of its ticks, and what the
-- windows of the log are.
use Prim.Native.String.{String}
use mathlib.Core.Path.{subst}
use option_chain_based_strat.Common.{
  ◌≡◌, refl, ap, ◌∙◌, sym, ℕ, Option, none, some, List, [], ◌∷◌, map, inl, inr, Bool-cases,
  Option-cases, map-append, All,
}
use option_chain_based_strat.Matrix.Candle.{Stamp, Tick, CandleEvent, floor_ts, closed_event}
use option_chain_based_strat.Matrix.Series.{
  Series, stamp_eq, empty_series, enter, on_tick, publish, feed,
}
use option_chain_based_strat.Matrix.Windows.{
  Window, Log, empty_log, candle_of, note_tick, view, enter-view,
}

-- The log of ticks whose periods have `tf` minutes.
unfoldable pub note_all : ℕ → List Tick → Log → Option Log
unfolding note_tick floor_ts
note_all tf [] log = some log
note_all tf (t ∷ ts) log = elim (floor_ts t.timestamp tf) [
  | none ↦ none
  | some at ↦ note_all tf ts (note_tick at t log)
]

-- The event of a window of a symbol.
unfoldable pub event_of : String → ℕ → Window → CandleEvent
unfolding candle_of
event_of symbol tf w = closed_event (record w.first { symbol = symbol }) tf (candle_of w)

abbrev pub shown : String → ℕ → Option Log → Option (List CandleEvent × Series)
shown symbol tf none = none
shown symbol tf (some log) = some (map (event_of symbol tf) log.closed, view log)

module _ (tf : ℕ) (t : Tick) (ts : List Tick) where
  feed_raises :
      (events : List CandleEvent) (s : Series)
      → floor_ts t.timestamp tf ≡ none
      → feed tf (t ∷ ts) events s ≡ none
  unfolding feed on_tick
  feed_raises events s e = rw (e, feed, on_tick) refl

  feed_enters :
      (events : List CandleEvent) (s : Series) {at : Stamp}
      → floor_ts t.timestamp tf ≡ some at
      → feed tf (t ∷ ts) events s
        ≡ feed tf ts (publish (enter at t tf s).0 events) (enter at t tf s).1
  unfolding feed on_tick
  feed_enters events s e = rw (e, feed, on_tick) refl

  pub note_all_raises :
      (log : Log) → floor_ts t.timestamp tf ≡ none → note_all tf (t ∷ ts) log ≡ none
  unfolding note_all
  note_all_raises log e = rw (e, note_all) refl

  pub note_all_enters :
      (log : Log) {at : Stamp}
      → floor_ts t.timestamp tf ≡ some at
      → note_all tf (t ∷ ts) log ≡ note_all tf ts (note_tick at t log)
  unfolding note_all
  note_all_enters log e = rw (e, note_all) refl

module _ (tf : ℕ) (at : Stamp) (t : Tick) where
  publish-enter_at :
      (closed : List Window) (current : Option Window)
      → publish
          (enter at t tf (view record { closed = closed; current = current })).0
          (map (event_of t.symbol tf) closed)
        ≡ map
            (event_of t.symbol tf)
            (note_tick at t record { closed = closed; current = current }).closed
  unfolding enter note_tick view event_of
  publish-enter_at closed none = refl
  publish-enter_at closed (some w) = elim (Bool-cases (stamp_eq w.start at)) [
    | inl same ↦ rw same refl
    | inr moved ↦ rw (moved, map-append (event_of t.symbol tf) closed (w ∷ [])) refl
  ]

  publish-enter :
      (log : Log)
      → publish (enter at t tf (view log)).0 (map (event_of t.symbol tf) log.closed)
        ≡ map (event_of t.symbol tf) (note_tick at t log).closed
  publish-enter log = publish-enter_at log.closed log.current

module _ (symbol : String) (tf : ℕ) where
  feed-view :
      (ticks : List Tick) (log : Log)
      → All (λ t. t.symbol ≡ symbol) ticks
      → feed tf ticks (map (event_of symbol tf) log.closed) (view log)
        ≡ shown symbol tf (note_all tf ticks log)
  unfolding feed note_all
  feed-view [] log h = refl
  feed-view (t ∷ ts) log (same, h) = elim (Option-cases (floor_ts t.timestamp tf)) [
    | inl e ↦
        rw (note_all_raises tf t ts log e)
          (feed_raises tf t ts (map (event_of symbol tf) log.closed) (view log) e)
    | inr (at, e) ↦
        let published : publish (enter at t tf (view log)).0 (map (event_of symbol tf) log.closed)
            ≡ map (event_of symbol tf) (note_tick at t log).closed =
          subst
            (λ name.
              publish (enter at t tf (view log)).0 (map (event_of name tf) log.closed)
              ≡ map (event_of name tf) (note_tick at t log).closed)
            same (publish-enter tf at t log) in
        feed_enters tf t ts (map (event_of symbol tf) log.closed) (view log) e
        ∙ ap (λ es. feed tf ts es (enter at t tf (view log)).1) published
        ∙ ap (feed tf ts (map (event_of symbol tf) (note_tick at t log).closed))
            (enter-view at t tf log)
        ∙ feed-view ts (note_tick at t log) h
        ∙ ap (shown symbol tf) (sym (note_all_enters tf t ts log e))
  ]

  -- On ticks of one symbol, whatever their number and times, a fresh _CandleSeries publishes in
  -- order one event for each closed window of ticks, and holds the candles of the newest 600 of
  -- those windows and of the open one; it raises exactly where the floor of a time does.
  pub feed-shown :
      (ticks : List Tick)
      → All (λ t. t.symbol ≡ symbol) ticks
      → feed tf ticks [] empty_series ≡ shown symbol tf (note_all tf ticks empty_log)
  unfolding view
  feed-shown ticks h = feed-view ticks empty_log h
