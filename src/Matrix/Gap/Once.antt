-- ===== src/Matrix/Gap/Once.antt =====
-- How often GapHandler of matrix_engine/gap_handler.py fires a reset.
use Prim.Native.String.{String}
use mathlib.Core.Path.{subst}
use mathlib.Core.Bool.{false≢true}
use option_chain_based_strat.Common.{
  ◌≡◌, refl, ap, ◌∙◌, sym, ℕ, ◌+◌, Bool, true, false, not, ◌&&◌, Option, none, some, List, [], ◌∷◌,
  ◌++◌, string_eq, ◌==◌, if◌then◌else◌, leb, inl, inr, Bool-cases, Option-cases, arith,
}
use option_chain_based_strat.Common.Dict.{lookup}
use option_chain_based_strat.Matrix.Candle.{Tick}
use option_chain_based_strat.Matrix.Cache.{Cache}
use option_chain_based_strat.Matrix.Gap.{
  GapState, fresh, Gap, Effect, called, gap_open, time_of, market_open_check, captures, drift_over,
  conclude, call_all, fire_gap_reset, clear_and_restore, on_gap_tick, on_gap_ticks, gap_was_fired,
}
use option_chain_based_strat.Matrix.Gap.Outcome.{
  verdict, advance, on_gap_tick-states, on_gap_tick-unknown,
}

-- The events GAP_OPEN of an underlying.
unfoldable pub resets : String → List Effect → ℕ
resets u [] = 0
resets u (called cb v spot seen ∷ effects) = resets u effects
resets u (gap_open v r spot ∷ effects) = (if v == u then 1 else 0) + resets u effects

module _ (u : String) where
  resets-append : (xs ys : List Effect) → resets u (xs ++ ys) ≡ resets u xs + resets u ys
  unfolding resets
  resets-append [] ys = omega arith
  resets-append (called cb v spot seen ∷ xs) ys = resets-append xs ys
  resets-append (gap_open v r spot ∷ xs) ys = omega (arith, resets-append xs ys)

  resets-call_all :
      (v : String) (spot : ℕ) (cache : Option Cache) (cbs : List ℕ)
      → resets u (call_all v spot cache cbs) ≡ 0
  unfolding resets call_all
  resets-call_all v spot cache [] = refl
  resets-call_all v spot cache (cb ∷ cbs) = resets-call_all v spot cache cbs

  abbrev fires : Option Bool → ℕ
  fires none = 0
  fires (some false) = 0
  fires (some true) = 1

  resets-conclude :
      (d : Option Bool) (v : String) (r spot : ℕ) (st : GapState) (g : Gap)
      → resets u (conclude d v r spot st g).effects
        ≡ resets u g.effects + (if v == u then fires d else 0)
  unfolding conclude fire_gap_reset resets
  resets-conclude none v r spot st g = ground arith
  resets-conclude (some false) v r spot st g = ground arith
  resets-conclude (some true) v r spot st g =
      let calls =
        call_all v spot (clear_and_restore g.restore g.timeframes v g.cache) g.callbacks in
      let event : resets u (gap_open v r spot ∷ []) ≡ (if v == u then 1 else 0) = omega arith in
      omega (
        arith,
        resets-append (g.effects ++ calls) (gap_open v r spot ∷ []),
        resets-append g.effects calls,
        resets-call_all v spot (clear_and_restore g.restore g.timeframes v g.cache) g.callbacks,
        event,
      )

  -- What one tick adds.
  abbrev adds : Tick → GapState → ℕ
  adds tick st =
      if captures (time_of tick.timestamp) st
      then 0
      else if not st.gap_checked && leb market_open_check (time_of tick.timestamp)
      then elim st.pre_open_ref [ none ↦ 0 | some r ↦ fires (drift_over r tick.ltp) ]
      else 0

  resets-on_gap_tick :
      (tick : Tick) (g : Gap) (st : GapState)
      → lookup tick.symbol g.states ≡ some st
      → resets u (on_gap_tick tick g).effects
        ≡ resets u g.effects + (if tick.symbol == u then adds tick st else 0)
  unfolding on_gap_tick
  resets-on_gap_tick tick g st e = elim (Bool-cases (captures (time_of tick.timestamp) st)) [
    | inl phase1 ↦ rw (e, phase1, on_gap_tick) (ground arith)
    | inr later ↦
        elim (Bool-cases (not st.gap_checked && leb market_open_check (time_of tick.timestamp))) [
          | inr idle ↦ rw (e, later, idle, on_gap_tick) (ground arith)
          | inl phase2 ↦ elim (Option-cases st.pre_open_ref) [
            | inl unset ↦ rw (e, later, phase2, unset, on_gap_tick) (ground arith)
            | inr (r, set) ↦
                rw (e, later, phase2, set, on_gap_tick)
                  (resets-conclude (drift_over r tick.ltp) tick.symbol r tick.ltp st g)
          ]
        ]
  ]

  abbrev fired_count : Bool → ℕ
  fired_count b = if b then 1 else 0

  -- A state that is not yet checked was not fired.
  abbrev IsOrdered : GapState → Type 0
  IsOrdered st = st.gap_checked ≡ false → st.gap_fired ≡ false

  abbrev Counted : ℕ → GapState → GapState → Type 0
  Counted n st st' = (fired_count st.gap_fired + n ≡ fired_count st'.gap_fired) × IsOrdered st'

  verdict-Counted :
      (d : Option Bool) (ref : Option ℕ)
      → (let st : GapState = record {
        pre_open_ref = ref;
        gap_checked = false;
        gap_fired = false;
      } in
          Counted (fires d) st (verdict d st))
  verdict-Counted none ref = (refl, λ _. refl)
  verdict-Counted (some false) ref = (refl, λ _. refl)
  verdict-Counted (some true) ref = (refl, λ e. absurd (false≢true (sym e)))

  advance-Counted :
      (tick : Tick) (ref : Option ℕ) (checked fired : Bool)
      → (checked ≡ false → fired ≡ false)
      → (let st : GapState = record {
        pre_open_ref = ref;
        gap_checked = checked;
        gap_fired = fired;
      } in
          Counted (adds tick st) st (advance tick st))
  unfolding advance
  advance-Counted tick none true fired h =
      elim (Bool-cases (
        captures (time_of tick.timestamp)
          record { pre_open_ref = none; gap_checked = true; gap_fired = fired })) [
            | inl now ↦ rw now (omega arith, h)
            | inr not_now ↦ rw not_now (omega arith, h)
          ]
  advance-Counted tick none false fired h =
      elim (Bool-cases (
        captures (time_of tick.timestamp)
          record { pre_open_ref = none; gap_checked = false; gap_fired = fired })) [
            | inl now ↦ rw now (omega arith, h)
            | inr not_now ↦ elim (Bool-cases (leb market_open_check (time_of tick.timestamp))) [
              | inl late ↦ rw (not_now, late) (omega arith, h)
              | inr early ↦ rw (not_now, early) (omega arith, h)
            ]
          ]
  advance-Counted tick (some r) true fired h = (omega arith, h)
  advance-Counted tick (some r) false true h = absurd (false≢true (sym (h refl)))
  advance-Counted tick (some r) false false h =
      elim (Bool-cases (leb market_open_check (time_of tick.timestamp))) [
        | inl late ↦ rw late (verdict-Counted (drift_over r tick.ltp) (some r))
        | inr early ↦ rw early (refl, h)
      ]

  pub record IsCounted (g : Gap) (st : GapState) : Type 0 where
    pub found : lookup u g.states ≡ some st
    pub counted : resets u g.effects ≡ fired_count st.gap_fired
    pub ordered : IsOrdered st

  abbrev after : Tick → GapState → GapState
  after tick st = if tick.symbol == u then advance tick st else st

  -- The state of the underlying behind a tick of any symbol.
  on_gap_tick-IsCounted :
      (tick : Tick) (g : Gap) (st : GapState)
      → IsCounted g st
      → IsCounted (on_gap_tick tick g) (after tick st)
  unfolding advance
  on_gap_tick-IsCounted tick g st inv = elim (Bool-cases (tick.symbol == u)) [
    | inl hit ↦
        let ours : tick.symbol ≡ u = (string_eq.same_iff tick.symbol u).0 hit in
        let known : lookup tick.symbol g.states ≡ some st =
          ap (λ v. lookup v g.states) ours ∙ inv.found in
        let (sums, ordered) =
          advance-Counted tick st.pre_open_ref st.gap_checked st.gap_fired inv.ordered in
        let more : resets u (on_gap_tick tick g).effects ≡ resets u g.effects + adds tick st =
          rw hit at (resets-on_gap_tick tick g st known) in
        rw hit (record {
          found = rw hit at (on_gap_tick-states tick g st u known);
          counted = more ∙ ap (λ n. n + adds tick st) inv.counted ∙ sums;
          ordered = ordered;
        })
    | inr miss ↦ rw miss (elim (Option-cases (lookup tick.symbol g.states)) [
      | inl unknown ↦ subst (λ h. IsCounted h st) (sym (on_gap_tick-unknown tick g unknown)) inv
      | inr (other, known) ↦
          let more : resets u (on_gap_tick tick g).effects ≡ resets u g.effects + 0 =
            rw miss at (resets-on_gap_tick tick g other known) in
          record {
            found = rw miss at (on_gap_tick-states tick g other u known) ∙ inv.found;
            counted = omega (arith, more) ∙ inv.counted;
            ordered = inv.ordered;
          }
    ])
  ]

  on_gap_ticks-IsCounted :
      (ticks : List Tick) (g : Gap) (st : GapState)
      → IsCounted g st
      → (st' : GapState) × IsCounted (on_gap_ticks ticks g) st'
  unfolding on_gap_ticks
  on_gap_ticks-IsCounted [] g st inv = (st, inv)
  on_gap_ticks-IsCounted (tick ∷ ticks) g st inv =
      on_gap_ticks-IsCounted ticks (on_gap_tick tick g) (after tick st)
        (on_gap_tick-IsCounted tick g st inv)

-- Over any sequence of ticks within a day, in any order and of any symbols, the handler publishes
-- at most one GAP_OPEN for an underlying that it monitors, and publishes one exactly if
-- gap_was_fired says so.
pub on_gap_ticks-once :
    (u : String) (ticks : List Tick) (g : Gap)
    → lookup u g.states ≡ some fresh
    → resets u g.effects ≡ 0
    → resets u (on_gap_ticks ticks g).effects
      ≡ (if gap_was_fired u (on_gap_ticks ticks g) then 1 else 0)
unfolding gap_was_fired
on_gap_ticks-once u ticks g found none_yet =
    let (st, inv) =
      on_gap_ticks-IsCounted u ticks g fresh
        (record { found = found; counted = none_yet; ordered = λ e. refl }) in
    rw (inv.found, gap_was_fired) inv.counted
