-- ===== src/Matrix/Windows.antt =====
-- The log of a series that keeps every tick, as the abstract view of _CandleSeries in
-- matrix_engine/candle_cache.py: its windows, and the candle of a window.
use option_chain_based_strat.Common.{
  ◌≡◌, refl, ap, ◌∙◌, sym, ℕ, zero, suc, ◌+◌, ◌-◌, ◌≤◌, max, min, Option, none, some, List, [], ◌∷◌,
  ◌++◌, map, map-append, arith, length, drop, length-append, length-drop, if◌then◌else◌, inl, inr,
  Bool-cases,
}
use option_chain_based_strat.Matrix.Candle.{Stamp, Tick, CandleBucket, new_candle, update}
use option_chain_based_strat.Matrix.Series.{Series, stamp_eq, newest, max_candles, enter}

-- The ticks of one period, the first of them apart.
pub record Window : Type 0 where
  pub start : Stamp
  pub first : Tick
  pub others : List Tick

unfoldable pub highest : ℕ → List Tick → ℕ
highest top [] = top
highest top (t ∷ ts) = max t.high (highest top ts)

unfoldable pub lowest : ℕ → List Tick → ℕ
lowest bottom [] = bottom
lowest bottom (t ∷ ts) = min t.low (lowest bottom ts)

unfoldable pub traded : List Tick → ℕ
traded [] = 0
traded (t ∷ ts) = t.volume + traded ts

unfoldable pub final : Tick → List Tick → Tick
final first [] = first
final first (t ∷ ts) = final t ts

-- The candle that the ticks of a window make.
unfoldable pub candle_of : Window → CandleBucket
unfolding highest lowest traded final
candle_of w = record {
  ts = w.start;
  opening = w.first.opening;
  high = highest w.first.high w.others;
  low = lowest w.first.low w.others;
  close = (final w.first w.others).ltp;
  volume = w.first.volume + traded w.others;
}

-- The windows that are closed, oldest first, and the open one.
pub record Log : Type 0 where
  pub closed : List Window
  pub current : Option Window

abbrev pub empty_log : Log
empty_log = record { closed = []; current = none }

abbrev pub window_at : Stamp → Tick → Window
window_at at tick = record { start = at; first = tick; others = [] }

unfoldable pub note_tick : Stamp → Tick → Log → Log
note_tick at tick log = elim log.current [
  | none ↦ record log { current = some (window_at at tick) }
  | some w ↦
      if stamp_eq w.start at
      then record log { current = some (record w { others = w.others ++ tick ∷ [] }) }
      else record { closed = log.closed ++ w ∷ []; current = some (window_at at tick) }
]

-- What the series shows of a log.
unfoldable pub view : Log → Series
unfolding candle_of
view log = record {
  candles = newest max_candles (map candle_of log.closed);
  bucket = elim log.current [ none ↦ none | some w ↦ some (candle_of w) ];
}

module _ {A : Type 0} where
  drop-append : (n : ℕ) (xs ys : List A) → n ≤ length xs → drop n (xs ++ ys) ≡ drop n xs ++ ys
  drop-append zero xs ys h = refl
  drop-append (suc n) [] ys h = elim h [ ]
  drop-append (suc n) (x ∷ xs) ys h = drop-append n xs ys (omega arith)

  drop_nil : (n : ℕ) → drop {A = A} n [] ≡ []
  drop_nil zero = refl
  drop_nil (suc n) = refl

  drop-drop : (m n : ℕ) (xs : List A) → drop m (drop n xs) ≡ drop (n + m) xs
  drop-drop m zero xs = ap (λ i. drop i xs) (omega arith)
  drop-drop m (suc n) [] = drop_nil m ∙ sym (drop_nil (suc n + m))
  drop-drop m (suc n) (x ∷ xs) =
      let shift : suc (n + m) ≡ suc n + m = omega arith in
      drop-drop m n xs ∙ ap (λ i. drop i (x ∷ xs)) shift

  pub newest-append :
      (n : ℕ) (xs : List A) (x : A)
      → newest (suc n) (newest (suc n) xs ++ x ∷ []) ≡ newest (suc n) (xs ++ x ∷ [])
  newest-append n xs x =
      let gone = length xs - suc n in
      let kept : newest (suc n) xs ++ x ∷ [] ≡ drop gone (xs ++ x ∷ []) =
        sym (drop-append gone xs (x ∷ []) (omega arith)) in
      let count : gone + (length (drop gone (xs ++ x ∷ [])) - suc n)
          ≡ length (xs ++ x ∷ []) - suc n =
        omega (arith, length-append xs (x ∷ []), length-drop gone (xs ++ x ∷ [])) in
      ap (newest (suc n)) kept
      ∙ drop-drop (length (drop gone (xs ++ x ∷ [])) - suc n) gone (xs ++ x ∷ [])
      ∙ ap (λ i. drop i (xs ++ x ∷ [])) count

highest-append :
    (top : ℕ) (ts : List Tick) (t : Tick) → highest top (ts ++ t ∷ []) ≡ max (highest top ts) t.high
unfolding highest
highest-append top [] t = ground arith
highest-append top (u ∷ ts) t = ground (arith, highest-append top ts t)

lowest-append :
    (bottom : ℕ) (ts : List Tick) (t : Tick)
    → lowest bottom (ts ++ t ∷ []) ≡ min (lowest bottom ts) t.low
unfolding lowest
lowest-append bottom [] t = ground arith
lowest-append bottom (u ∷ ts) t = ground (arith, lowest-append bottom ts t)

traded-append : (ts : List Tick) (t : Tick) → traded (ts ++ t ∷ []) ≡ traded ts + t.volume
unfolding traded
traded-append [] t = omega arith
traded-append (u ∷ ts) t = omega (arith, traded-append ts t)

final-append : (first : Tick) (ts : List Tick) (t : Tick) → final first (ts ++ t ∷ []) ≡ t
unfolding final
final-append first [] t = refl
final-append first (u ∷ ts) t = final-append u ts t

candle_of-update :
    (w : Window) (t : Tick)
    → candle_of (record w { others = w.others ++ t ∷ [] }) ≡ update t (candle_of w)
unfolding candle_of update
candle_of-update w t =
    let assoc : w.first.volume + (traded w.others + t.volume)
        ≡ w.first.volume + traded w.others + t.volume =
      omega arith in
    rw
      (
        highest-append w.first.high w.others t,
        lowest-append w.first.low w.others t,
        traded-append w.others t,
        final-append w.first w.others t,
        assoc,
      )
      refl

candle_of-window_at : (at : Stamp) (t : Tick) → candle_of (window_at at t) ≡ new_candle at t
unfolding candle_of highest lowest traded final
candle_of-window_at at t =
    let none_more : t.volume + 0 ≡ t.volume = omega arith in rw none_more refl

module _ (at : Stamp) (tick : Tick) (tf : ℕ) where
  enter-view_at :
      (closed : List Window) (current : Option Window)
      → (enter at tick tf (view record { closed = closed; current = current })).1
        ≡ view (note_tick at tick record { closed = closed; current = current })
  unfolding enter view note_tick
  enter-view_at closed none = rw (candle_of-window_at at tick) refl
  enter-view_at closed (some w) = elim (Bool-cases (stamp_eq w.start at)) [
    | inl same ↦ rw (same, candle_of-update w tick) refl
    | inr moved ↦
        rw
          (
            moved,
            candle_of-window_at at tick,
            map-append candle_of closed (w ∷ []),
            newest-append 599 (map candle_of closed) (candle_of w),
          )
          refl
  ]

  -- The series follows its log.
  pub enter-view : (log : Log) → (enter at tick tf (view log)).1 ≡ view (note_tick at tick log)
  enter-view log = enter-view_at log.closed log.current
