-- ===== src/Matrix/Gap/Restored.antt =====
-- What a reset of GapHandler in matrix_engine/gap_handler.py leaves in the candle cache.
use Prim.Native.String.{String}
use mathlib.Core.Path.{subst}
use option_chain_based_strat.Common.{
  ◌≡◌, refl, ap, sym, ℕ, true, Option, none, some, List, [], ◌∷◌, string_eq, ◌==◌, inl, inr,
  Bool-cases, Option-cases,
}
use option_chain_based_strat.Common.Dict.{lookup, lookup-insert}
use option_chain_based_strat.Matrix.Candle.{CandleBucket}
use option_chain_based_strat.Matrix.Series.{Series, load_history}
use option_chain_based_strat.Matrix.Cache.{
  SeriesKey, series_key_eq, same_series_iff, Cache, or_empty, series_at, load_into, reset_symbol,
  lookup-reset_symbol,
}
use option_chain_based_strat.Matrix.Gap.{Restore, reload, clear_and_restore}

-- A series of a cache, if there is a cache.
abbrev pub find_series : SeriesKey → Option Cache → Option Series
find_series key none = none
find_series key (some cache) = lookup key cache

module _ (key : SeriesKey) where
  load_into-same :
      (j : SeriesKey) (rows : List CandleBucket) (c d : Cache)
      → lookup key c ≡ lookup key d
      → lookup key (load_into j rows c) ≡ lookup key (load_into j rows d)
  unfolding load_into
  load_into-same j rows c d e = elim (Bool-cases (j == key)) [
    | inl hit ↦
        let at_j : lookup j c ≡ lookup j d =
          subst (λ k. lookup k c ≡ lookup k d) (sym ((same_series_iff j key).0 hit)) e in
        rw
          (
            lookup-insert j key (load_history rows (series_at j c)) c,
            lookup-insert j key (load_history rows (series_at j d)) d,
            hit,
          )
          (ap (λ o. some (load_history rows (or_empty o))) at_j)
    | inr miss ↦
        rw
          (
            lookup-insert j key (load_history rows (series_at j c)) c,
            lookup-insert j key (load_history rows (series_at j d)) d,
            miss,
          )
          e
  ]

  reload-same :
      (history : List (SeriesKey × List CandleBucket)) (c d : Cache)
      → lookup key c ≡ lookup key d
      → lookup key (reload history c) ≡ lookup key (reload history d)
  unfolding reload
  reload-same [] c d e = e
  reload-same ((j, []) ∷ history) c d e = reload-same history c d e
  reload-same ((j, row ∷ rows) ∷ history) c d e =
      reload-same history (load_into j (row ∷ rows) c) (load_into j (row ∷ rows) d)
        (load_into-same j (row ∷ rows) c d e)

module _ (underlying : String) (key : SeriesKey) (ours : (key.symbol == underlying) ≡ true) where
  reset_symbol-same :
      (c d : Cache)
      → lookup key (reset_symbol underlying c) ≡ lookup key (reset_symbol underlying d)
  reset_symbol-same c d =
      rw (lookup-reset_symbol underlying key c, lookup-reset_symbol underlying key d, ours) refl

  -- Behind a reset for an underlying, with or without a persistence, and where the persistence
  -- raises, each of its series is the same whatever candles the cache held before.
  pub clear_and_restore-stale :
      (restore : Option Restore) (tfs : List ℕ) (c d : Cache)
      → find_series key (clear_and_restore restore tfs underlying (some c))
        ≡ find_series key (clear_and_restore restore tfs underlying (some d))
  unfolding clear_and_restore
  clear_and_restore-stale none tfs c d = reset_symbol-same c d
  clear_and_restore-stale (some restore) tfs c d =
      elim (Option-cases (restore (underlying ∷ []) tfs 500)) [
        | inl raised ↦ rw (raised, clear_and_restore) (reset_symbol-same c d)
        | inr (history, read) ↦
            rw (read, clear_and_restore)
              (reload-same key history (reset_symbol underlying c) (reset_symbol underlying d)
                (reset_symbol-same c d))
      ]
