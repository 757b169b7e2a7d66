-- ===== src/Trap/Replay/Walk.antt =====
-- The replay of one trade against a description of it.
use option_chain_based_strat.Common.{
  ◌≡◌, sym, ap, ◌∙◌, inl, inr, Bool, true, false, ◌||◌, Option, none, some, List, [], ◌∷◌, arith,
  if◌then◌else◌, Bool-cases,
}
use option_chain_based_strat.Trap.Bars.{Bar}
use option_chain_based_strat.Trap.Replay.{Plan, Exit, stopped, ended, at_stop, at_t1, walk}

-- The bars before the first one that reaches the stop, and that bar.
unfoldable pub until_stop : Plan → List Bar → List Bar × Option Bar
until_stop p [] = ([], none)
until_stop p (b ∷ bars) =
    let (before, stop) = until_stop p bars in
    if at_stop p b then ([], some b) else (b ∷ before, stop)

abbrev pub any_t1 : Plan → List Bar → Bool
any_t1 p [] = false
any_t1 p (b ∷ bars) = at_t1 p b || any_t1 p bars

abbrev pub last_bar : Bar → List Bar → Bar
last_bar last [] = last
last_bar last (b ∷ bars) = last_bar b bars

abbrev pub told : Plan → Bool → Bar → Option Bar → Exit
told p hit last (some b) = stopped p hit b
told p hit last none = ended p hit last

until_stop-hit :
    (p : Plan) (b : Bar) (bars : List Bar)
    → at_stop p b ≡ true
    → until_stop p (b ∷ bars) ≡ ([], some b)
unfolding until_stop
until_stop-hit p b bars h = rw h

until_stop-miss :
    (p : Plan) (b : Bar) (bars : List Bar)
    → at_stop p b ≡ false
    → until_stop p (b ∷ bars) ≡ (b ∷ (until_stop p bars).0, (until_stop p bars).1)
unfolding until_stop
until_stop-miss p b bars h = rw h

abbrev tale : Plan → Bool → Bar → List Bar × Option Bar → Exit
tale p hit final (before, stop) = told p (hit || any_t1 p before) final stop

or_assoc : (a b c : Bool) → ((a || b) || c) ≡ (a || (b || c))
or_assoc a b c = ground arith

or_false : (a : Bool) → (a || false) ≡ a
or_false a = ground arith

walk-tale :
    (p : Plan) (hit : Bool) (last : Bar) (bars : List Bar)
    → walk p hit last bars ≡ tale p hit (last_bar last bars) (until_stop p bars)
unfolding walk
walk-tale p hit last [] = unfold until_stop in ap (λ h. told p h last none) (sym (or_false hit))
walk-tale p hit last (b ∷ bars) = elim (Bool-cases (at_stop p b)) [
  | inl stop ↦
      rw (until_stop-hit p b bars stop, stop) (ap (λ h. told p h b (some b)) (sym (or_false hit)))
  | inr go ↦
      rw (until_stop-miss p b bars go, go)
        (walk-tale p (hit || at_t1 p b) b bars
          ∙ ap (λ h. told p h (last_bar b bars) (until_stop p bars).1) (or_assoc hit (at_t1 p b) _))
]

-- A trade leaves at the first bar that reaches the stop, and at the last bar if none does. Where it
-- is stopped, its first half left at T1 exactly if a bar strictly before that one reached T1: on a
-- bar that reaches both, the stop counts. Where it is not, exactly if any bar reached T1, the last
-- one among them.
pub walk_lem :
    (p : Plan) (last : Bar) (bars : List Bar)
    → let (before, stop) = until_stop p bars in
      walk p false last bars ≡ told p (any_t1 p before) (last_bar last bars) stop
walk_lem p last bars = walk-tale p false last bars
