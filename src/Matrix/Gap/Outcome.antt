-- ===== src/Matrix/Gap/Outcome.antt =====
-- What GapHandler of matrix_engine/gap_handler.py concludes from the ticks of a day.
use Prim.Native.String.{String}
use option_chain_based_strat.Common.{
  ◌≡◌, refl, ap, ◌∙◌, ℕ, Bool, true, false, not, ◌&&◌, Option, none, some, List, [], ◌∷◌, string_eq,
  ◌==◌, if◌then◌else◌, leb, ltb, inl, inr, Bool-cases, Option-cases, arith,
}
use option_chain_based_strat.Common.Dict.{lookup, insert, lookup-insert}
use option_chain_based_strat.Matrix.Candle.{Tick}
use option_chain_based_strat.Matrix.Gap.{
  GapState, fresh, Gap, time_of, market_open_check, pre_open_capture, captures, drift_over,
  conclude, fire_gap_reset, on_gap_tick, on_gap_ticks,
}

-- The state behind the opening check.
abbrev pub verdict : Option Bool → GapState → GapState
verdict none st = record st { gap_checked = true }
verdict (some false) st = record st { gap_checked = true }
verdict (some true) st = record st { gap_checked = true; gap_fired = true }

-- The state of an underlying behind one of its ticks.
unfoldable pub advance : Tick → GapState → GapState
unfolding drift_over
advance tick st =
    if captures (time_of tick.timestamp) st
    then record st { pre_open_ref = some tick.ltp }
    else if not st.gap_checked && leb market_open_check (time_of tick.timestamp)
    then elim st.pre_open_ref [
      | none ↦ st
      | some reference ↦ verdict (drift_over reference tick.ltp) st
    ]
    else st

conclude-states :
    (d : Option Bool) (u : String) (reference spot : ℕ) (st : GapState) (g : Gap)
    → (conclude d u reference spot st g).states ≡ insert u (verdict d st) g.states
unfolding conclude fire_gap_reset
conclude-states none u reference spot st g = refl
conclude-states (some false) u reference spot st g = refl
conclude-states (some true) u reference spot st g = refl

module _ (tick : Tick) (g : Gap) where
  kept :
      (st : GapState) (u : String)
      → lookup tick.symbol g.states ≡ some st
      → lookup u g.states ≡ (if tick.symbol == u then some st else lookup u g.states)
  kept st u e = ground (arith, string_eq.same_iff tick.symbol u, e)

  pub on_gap_tick-states :
      (st : GapState) (u : String)
      → lookup tick.symbol g.states ≡ some st
      → lookup u (on_gap_tick tick g).states
        ≡ (if tick.symbol == u then some (advance tick st) else lookup u g.states)
  unfolding on_gap_tick advance
  on_gap_tick-states st u e = elim (Bool-cases (captures (time_of tick.timestamp) st)) [
    | inl phase1 ↦
        rw
          (
            e,
            phase1,
            on_gap_tick,
            lookup-insert tick.symbol u (record st { pre_open_ref = some tick.ltp }) g.states,
          )
          refl
    | inr later ↦
        elim (Bool-cases (not st.gap_checked && leb market_open_check (time_of tick.timestamp))) [
          | inl phase2 ↦ elim (Option-cases st.pre_open_ref) [
            | inl unset ↦ rw (e, later, phase2, unset, on_gap_tick) (kept st u e)
            | inr (r, set) ↦
                rw
                  (
                    e,
                    later,
                    phase2,
                    set,
                    on_gap_tick,
                    conclude-states (drift_over r tick.ltp) tick.symbol r tick.ltp st g,
                    lookup-insert tick.symbol u (verdict (drift_over r tick.ltp) st) g.states,
                  )
                  refl
          ]
          | inr idle ↦ rw (e, later, idle, on_gap_tick) (kept st u e)
        ]
  ]

  pub on_gap_tick-unknown : lookup tick.symbol g.states ≡ none → on_gap_tick tick g ≡ g
  unfolding on_gap_tick
  on_gap_tick-unknown e = rw (e, on_gap_tick) refl

-- The state of an underlying behind the ticks of all symbols.
unfoldable pub advance_all : String → List Tick → GapState → GapState
unfolding advance
advance_all u [] st = st
advance_all u (tick ∷ ticks) st =
    if tick.symbol == u then advance_all u ticks (advance tick st) else advance_all u ticks st

pub on_gap_ticks-states :
    (u : String) (ticks : List Tick) (g : Gap) (st : GapState)
    → lookup u g.states ≡ some st
    → lookup u (on_gap_ticks ticks g).states ≡ some (advance_all u ticks st)
unfolding on_gap_ticks advance_all
on_gap_ticks-states u [] g st e = e
on_gap_ticks-states u (tick ∷ ticks) g st e = elim (Bool-cases (tick.symbol == u)) [
  | inl hit ↦
      let ours : tick.symbol ≡ u = (string_eq.same_iff tick.symbol u).0 hit in
      let next : lookup u (on_gap_tick tick g).states ≡ some (advance tick st) =
        rw hit at (on_gap_tick-states tick g st u (ap (λ v. lookup v g.states) ours ∙ e)) in
      rw hit (on_gap_ticks-states u ticks (on_gap_tick tick g) (advance tick st) next)
  | inr miss ↦ rw miss (
      on_gap_ticks-states u ticks (on_gap_tick tick g) st
        (elim (Option-cases (lookup tick.symbol g.states)) [
          | inl unknown ↦ ap (λ h. lookup u h.states) (on_gap_tick-unknown tick g unknown) ∙ e
          | inr (other, known) ↦ rw miss at (on_gap_tick-states tick g other u known) ∙ e
        ]))
]

-- The first element that passes a test, with those behind it.
abbrev pub seek {ℓ} : {A : Type ℓ} → (A → Bool) → List A → Option (A × List A)
seek p [] = none
seek p (x ∷ xs) = if p x then some (x, xs) else seek p xs

abbrev pub in_call_auction : String → Tick → Bool
in_call_auction u tick =
    (tick.symbol == u)
    && (leb pre_open_capture (time_of tick.timestamp)
        && ltb (time_of tick.timestamp) market_open_check)

abbrev pub behind_open : String → Tick → Bool
behind_open u tick = (tick.symbol == u) && leb market_open_check (time_of tick.timestamp)

-- What the opening tick and the tick of the call auction lead to.
abbrev pub waiting : ℕ → GapState
waiting r = record fresh { pre_open_ref = some r }

abbrev pub opening_of : ℕ → Option (Tick × List Tick) → GapState
opening_of r none = waiting r
opening_of r (some (opening, rest)) = verdict (drift_over r opening.ltp) (waiting r)

abbrev pub day_of : String → Option (Tick × List Tick) → GapState
day_of u none = fresh
day_of u (some (auction, rest)) = opening_of auction.ltp (seek (behind_open u) rest)

-- The day of an underlying by two searches: the first tick of the call auction, and behind it the
-- first tick of the open market, which is compared with it.
abbrev pub outcome : String → List Tick → GapState
outcome u ticks = day_of u (seek (in_call_auction u) ticks)

module _ (u : String) where
  advance_all-done :
      (ticks : List Tick) (r : ℕ) (fired : Bool)
      → advance_all u ticks record { pre_open_ref = some r; gap_checked = true; gap_fired = fired }
        ≡ record { pre_open_ref = some r; gap_checked = true; gap_fired = fired }
  unfolding advance_all advance
  advance_all-done [] r fired = refl
  advance_all-done (t ∷ ts) r fired = elim (Bool-cases (t.symbol == u)) [
    | inl hit ↦ rw hit (advance_all-done ts r fired)
    | inr miss ↦ rw miss (advance_all-done ts r fired)
  ]

  advance_all-verdict :
      (ticks : List Tick) (r : ℕ) (d : Option Bool)
      → advance_all u ticks (verdict d (waiting r)) ≡ verdict d (waiting r)
  advance_all-verdict ticks r none = advance_all-done ticks r false
  advance_all-verdict ticks r (some false) = advance_all-done ticks r false
  advance_all-verdict ticks r (some true) = advance_all-done ticks r true

  advance_all-waiting :
      (ticks : List Tick) (r : ℕ)
      → advance_all u ticks (waiting r) ≡ opening_of r (seek (behind_open u) ticks)
  unfolding advance_all advance
  advance_all-waiting [] r = refl
  advance_all-waiting (t ∷ ts) r = elim (Bool-cases (t.symbol == u)) [
    | inr miss ↦ rw miss (advance_all-waiting ts r)
    | inl hit ↦ elim (Bool-cases (leb market_open_check (time_of t.timestamp))) [
      | inl late ↦ rw (hit, late) (advance_all-verdict ts r (drift_over r t.ltp))
      | inr early ↦ rw (hit, early) (advance_all-waiting ts r)
    ]
  ]

  advance_all-fresh : (ticks : List Tick) → advance_all u ticks fresh ≡ outcome u ticks
  unfolding advance_all advance
  advance_all-fresh [] = refl
  advance_all-fresh (t ∷ ts) = elim (Bool-cases (t.symbol == u)) [
    | inr miss ↦ rw miss (advance_all-fresh ts)
    | inl hit ↦
        elim (Bool-cases (
          leb pre_open_capture (time_of t.timestamp)
          && ltb (time_of t.timestamp) market_open_check)) [
            | inl now ↦ rw (hit, now) (advance_all-waiting ts t.ltp)
            | inr not_now ↦ elim (Bool-cases (leb market_open_check (time_of t.timestamp))) [
              | inl late ↦ rw (hit, not_now, late) (advance_all-fresh ts)
              | inr early ↦ rw (hit, not_now, early) (advance_all-fresh ts)
            ]
          ]
  ]

-- Over any sequence of ticks within a day, in any order and of any symbols, what the handler holds
-- of an underlying that it monitors is what two searches find: the reference is the first tick of
-- the call auction (from 9:08:00 and before 9:15:01), the check is done with the first tick behind
-- it from 9:15:01 on, and a reset was fired exactly if that tick is more than one percent off.
pub on_gap_ticks-outcome :
    (u : String) (ticks : List Tick) (g : Gap)
    → lookup u g.states ≡ some fresh
    → lookup u (on_gap_ticks ticks g).states ≡ some (outcome u ticks)
on_gap_ticks-outcome u ticks g e =
    on_gap_ticks-states u ticks g fresh e ∙ ap some (advance_all-fresh u ticks)
