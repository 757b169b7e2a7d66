-- ===== src/Matrix/Partition.antt =====
-- What the windows of matrix_engine/candle_cache.py are: each tick stands in one, and each is one
-- period.
use mathlib.Core.Path.{subst}
use mathlib.Core.Option.{some-injective, none-ne-some}
use mathlib.Core.List.{append_assoc, append-nil}
use Prim.Native.String.{String}
use option_chain_based_strat.Common.{
  ◌≡◌, refl, ap, ◌∙◌, sym, ℕ, suc, map, true, false, none, some, List, [], ◌∷◌, ◌++◌, arith, inl,
  inr, Bool-cases, Option-cases, All, All-append, All-split,
}
use option_chain_based_strat.Matrix.Candle.{Stamp, Tick, period_start, floor_ts}
use option_chain_based_strat.Matrix.Series.{stamp_eq, empty_series, feed}
use option_chain_based_strat.Matrix.Windows.{view, Window, Log, empty_log, window_at, note_tick}
use option_chain_based_strat.Matrix.Refines.{
  event_of, shown, feed-shown, note_all, note_all_raises, note_all_enters,
}

-- What the windows are. Every tick stands in one of them.
abbrev pub ticks_of : Window → List Tick
ticks_of w = w.first ∷ w.others

unfoldable pub concat : List Window → List Tick
concat [] = []
concat (w ∷ ws) = ticks_of w ++ concat ws

abbrev pub windows_of : Log → List Window
windows_of log = log.closed ++ elim log.current [ none ↦ [] | some w ↦ w ∷ [] ]

-- The period in which a tick lies begins at the start of the window.
abbrev pub InPeriod : ℕ → Stamp → Tick → Type 0
InPeriod tf start t = floor_ts t.timestamp tf ≡ some start

-- Neighbouring windows have different periods.
unfoldable pub Changing : List Window → Type 0
Changing [] = Unit
Changing (w ∷ []) = Unit
Changing (v ∷ w ∷ ws) = (stamp_eq v.start w.start ≡ false) × Changing (w ∷ ws)

pub record IsPartition (tf : ℕ) (ticks : List Tick) (log : Log) : Type 0 where
  pub whole : concat (windows_of log) ≡ ticks
  pub same_period : All (λ w. All (InPeriod tf w.start) (ticks_of w)) (windows_of log)
  pub changing : Changing (windows_of log)

stamp_eq_lem : (a b : Stamp) → stamp_eq a b ≡ true → a ≡ b
stamp_eq_lem a b h = ground (arith, h)

concat-append : (xs ys : List Window) → concat (xs ++ ys) ≡ concat xs ++ concat ys
unfolding concat
concat-append [] ys = refl
concat-append (x ∷ xs) ys =
    ap (λ ts. ticks_of x ++ ts) (concat-append xs ys)
    ∙ sym (append_assoc (ticks_of x) (concat xs) (concat ys))

Changing-append :
    (ws : List Window) (w v : Window)
    → Changing (ws ++ w ∷ [])
    → stamp_eq w.start v.start ≡ false
    → Changing ((ws ++ w ∷ []) ++ v ∷ [])
unfolding Changing
Changing-append [] w v h e = (e, tt)
Changing-append (x ∷ []) w v h e = (h.0, (e, tt))
Changing-append (x ∷ y ∷ ws) w v h e = (h.0, Changing-append (y ∷ ws) w v h.1 e)

Changing-replaced :
    (ws : List Window) (w v : Window)
    → w.start ≡ v.start
    → Changing (ws ++ w ∷ [])
    → Changing (ws ++ v ∷ [])
unfolding Changing
Changing-replaced [] w v e h = tt
Changing-replaced (x ∷ []) w v e h = (subst (λ s. stamp_eq x.start s ≡ false) e h.0, tt)
Changing-replaced (x ∷ y ∷ ws) w v e h = (h.0, Changing-replaced (y ∷ ws) w v e h.1)

concat-end : (ws : List Window) (w : Window) → concat (ws ++ w ∷ []) ≡ concat ws ++ ticks_of w
unfolding concat
concat-end ws w = concat-append ws (w ∷ []) ∙ ap (λ ts. concat ws ++ ts) (append-nil (ticks_of w))

-- The windows where a tick falls into the last one, and where it begins another.
abbrev with_tick : List Window → Window → Tick → List Window
with_tick closed w t = closed ++ record w { others = w.others ++ t ∷ [] } ∷ []

module _ (closed : List Window) (w : Window) (t : Tick) where
  concat-with_tick : concat (with_tick closed w t) ≡ concat (closed ++ w ∷ []) ++ t ∷ []
  unfolding concat
  concat-with_tick =
      concat-end closed (record w { others = w.others ++ t ∷ [] })
      ∙ sym (append_assoc (concat closed) (ticks_of w) (t ∷ []))
      ∙ ap (λ ts. ts ++ t ∷ []) (sym (concat-end closed w))

module _ (tf : ℕ) (seen : List Tick) (t : Tick) {at : Stamp}
    (e : floor_ts t.timestamp tf ≡ some at) where
  module _ (closed : List Window) (w : Window)
      (p : IsPartition tf seen record { closed = closed; current = some w }) where
    joined :
        w.start ≡ at
        → IsPartition tf
            (seen ++ t ∷ [])
            record { closed = closed; current = some (record w { others = w.others ++ t ∷ [] }) }
    joined same =
        let (front, (ours, _)) =
          All-split (λ v. All (InPeriod tf v.start) (ticks_of v)) closed (w ∷ []) p.same_period in
        let grown : All (InPeriod tf w.start) (ticks_of w ++ t ∷ []) =
          All-append (InPeriod tf w.start) (ticks_of w) (t ∷ []) ours
            ((e ∙ ap some (sym same)), tt) in
        record {
          whole = concat-with_tick closed w t ∙ ap (λ ts. ts ++ t ∷ []) p.whole;
          same_period =
              All-append (λ v. All (InPeriod tf v.start) (ticks_of v)) closed
                (record w { others = w.others ++ t ∷ [] } ∷ []) front (grown, tt);
          changing =
              Changing-replaced closed w (record w { others = w.others ++ t ∷ [] }) refl p.changing;
        }

    begun :
        stamp_eq w.start at ≡ false
        → IsPartition tf
            (seen ++ t ∷ [])
            record { closed = closed ++ w ∷ []; current = some (window_at at t) }
    begun moved = record {
      whole = concat-end (closed ++ w ∷ []) (window_at at t) ∙ ap (λ ts. ts ++ t ∷ []) p.whole;
      same_period =
          All-append (λ v. All (InPeriod tf v.start) (ticks_of v)) (closed ++ w ∷ [])
            (window_at at t ∷ []) p.same_period ((e, tt), tt);
      changing = Changing-append closed w (window_at at t) p.changing moved;
    }

module _ (at : Stamp) (t : Tick) (closed : List Window) (w : Window) where
  note_tick_same :
      stamp_eq w.start at ≡ true
      → note_tick at t record { closed = closed; current = some w }
        ≡ record { closed = closed; current = some (record w { others = w.others ++ t ∷ [] }) }
  unfolding note_tick
  note_tick_same same = rw same refl

  note_tick_moved :
      stamp_eq w.start at ≡ false
      → note_tick at t record { closed = closed; current = some w }
        ≡ record { closed = closed ++ w ∷ []; current = some (window_at at t) }
  unfolding note_tick
  note_tick_moved moved = rw moved refl

-- Every log that some ticks leave is of the ticks in their order.
module _ (tf : ℕ) where
  note_all-from :
      (ticks seen : List Tick) (closed : List Window) (w : Window) (log : Log)
      → IsPartition tf seen record { closed = closed; current = some w }
      → note_all tf ticks record { closed = closed; current = some w } ≡ some log
      → IsPartition tf (seen ++ ticks) log
  unfolding note_all note_tick
  note_all-from [] seen closed w log p e =
      subst (λ s. IsPartition tf s log) (sym (append-nil seen))
        (subst (IsPartition tf seen) (some-injective _ _ e) p)
  note_all-from (t ∷ ts) seen closed w log p e = elim (Option-cases (floor_ts t.timestamp tf)) [
    | inl e' ↦ absurd (
        none-ne-some log
          (sym (note_all_raises tf t ts record { closed = closed; current = some w } e') ∙ e))
    | inr (at, e') ↦
        let next : note_all tf ts (note_tick at t record { closed = closed; current = some w })
            ≡ some log =
          sym (note_all_enters tf t ts record { closed = closed; current = some w } e') ∙ e in
        subst (λ s. IsPartition tf s log) (append_assoc seen (t ∷ []) ts)
          (elim (Bool-cases (stamp_eq w.start at)) [
            | inl same ↦
                note_all-from ts (seen ++ t ∷ []) closed (record w { others = w.others ++ t ∷ [] })
                  log (joined tf seen t e' closed w p (stamp_eq_lem w.start at same))
                  (ap (note_all tf ts) (sym (note_tick_same at t closed w same)) ∙ next)
            | inr moved ↦
                note_all-from ts (seen ++ t ∷ []) (closed ++ w ∷ []) (window_at at t) log
                  (begun tf seen t e' closed w p moved)
                  (ap (note_all tf ts) (sym (note_tick_moved at t closed w moved)) ∙ next)
          ])
  ]

  note_all-IsPartition :
      (ticks : List Tick) (log : Log)
      → note_all tf ticks empty_log ≡ some log
      → IsPartition tf ticks log
  unfolding note_all note_tick concat Changing
  note_all-IsPartition [] log e =
      subst (IsPartition tf []) (some-injective _ _ e)
        (record { whole = refl; same_period = tt; changing = tt })
  note_all-IsPartition (t ∷ ts) log e = elim (Option-cases (floor_ts t.timestamp tf)) [
    | inl e' ↦ absurd (none-ne-some log (sym (note_all_raises tf t ts empty_log e') ∙ e))
    | inr (at, e') ↦
        note_all-from ts (t ∷ []) [] (window_at at t) log
          (record { whole = refl; same_period = (((e', tt)), tt); changing = tt })
          (sym (note_all_enters tf t ts empty_log e') ∙ e)
  ]

note_all-total :
    (m : ℕ) (ticks : List Tick) (log : Log)
    → (log' : Log) × (note_all (suc m) ticks log ≡ some log')
unfolding note_all floor_ts
note_all-total m [] log = (log, refl)
note_all-total m (t ∷ ts) log =
    note_all-total m ts (note_tick (period_start t.timestamp (suc m)) t log)

-- A fresh _CandleSeries of a timeframe of at least a minute takes any ticks of one symbol without
-- raising. The ticks divide in their order into windows, each of one period and each other than the
-- next in its period; the series has published in order one event for each window but the last,
-- and holds the candles of the newest 600 of these and the bucket of the last.
pub feed-windows :
    (symbol : String) (m : ℕ) (ticks : List Tick)
    → All (λ t. t.symbol ≡ symbol) ticks
    → (log : Log) × IsPartition (suc m) ticks log
      × (feed (suc m) ticks [] empty_series
          ≡ some (map (event_of symbol (suc m)) log.closed, view log))
feed-windows symbol m ticks h =
    let (log, e) = note_all-total m ticks empty_log in
    (
      log,
      note_all-IsPartition (suc m) ticks log e,
      feed-shown symbol (suc m) ticks h ∙ ap (shown symbol (suc m)) e,
    )
