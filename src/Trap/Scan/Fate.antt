-- ===== src/Trap/Scan/Fate.antt =====
-- The scan against a description of each setup on its own: the nested loops and the shared events
-- give every setup the history that the bars after it decide.
use option_chain_based_strat.Common.{
  ◌≡◌, refl, sym, ap, ◌∙◌, inl, inr, Bool, true, false, ◌&&◌, ◌||◌, Option, none, some, List, [],
  ◌∷◌, ◌++◌, map, arith, if◌then◌else◌, Bool-cases, All,
}
use mathlib.Core.List.{append-nil, append_assoc, map-append}
use option_chain_based_strat.Trap.Bars.{Bar, active, trapped, closed, Entry, Event}
use option_chain_based_strat.Trap.Scan.{
  make, trap_hit, close_hit, other_bar, touch, touch_all, new_bear, scan_from, scan_htf,
}

-- A setup without its place in the list of events.
abbrev pub core : Entry → Entry
core e = record e { event_idx = none }

-- The first bar that passes a test, with the bars behind it.
unfoldable pub first_hit : (Bar → Bool) → List Bar → Option (Bar × List Bar)
first_hit p [] = none
first_hit p (b ∷ bars) = elim (p b) [ true ↦ some (b, bars) | false ↦ first_hit p bars ]

abbrev pub caught : Entry → Bar → Entry
caught e b = record e { status = trapped; trapped_on = some b.time }

-- The test of the second `if` on a trapped setup.
abbrev pub returns : Bool → Entry → Bar → Bool
returns same_bar e c = close_hit e.kind e.entry c && (same_bar || other_bar c e.trapped_on)

abbrev pub closed_by : Entry → Option (Bar × List Bar) → Entry
closed_by e none = e
closed_by e (some (b, later)) = record e { status = closed; closed_on = some b.time }

-- A trapped setup is closed on the first bar that comes back to its entry price.
unfoldable pub settle : (Bar → Bool) → Entry → List Bar → Entry
unfolding first_hit
settle p e bars = closed_by e (first_hit p bars)

abbrev pub trapped_by : Bool → Entry → Option (Bar × List Bar) → Entry
trapped_by same_bar e none = e
trapped_by same_bar e (some (b, later)) =
    settle (returns same_bar (caught e b)) (caught e b) (b ∷ later)

-- What becomes of a setup in the bars after it: trapped on the first bar beyond its stop, and
-- closed on the first bar at another time (with `same_bar`: on the first bar from then on) that
-- comes back to its entry price.
unfoldable pub fate : Bool → Entry → List Bar → Entry
unfolding settle
fate same_bar e bars = trapped_by same_bar e (first_hit (trap_hit e.kind e.sl) bars)

-- Every setup that a pair of neighbouring bars opens, each with its own fate.
unfoldable pub setups : Bool → (Bar → Bar → List Entry) → Bar → List Bar → List Entry
unfolding fate
setups same_bar find prev [] = []
setups same_bar find prev (curr ∷ rest) =
    map (λ e. fate same_bar (core e) rest) (find prev curr) ++ setups same_bar find curr rest

pub alone : Bool → Bar → Entry → Entry
unfolding touch
alone same_bar b e = core (touch same_bar b e []).0

pub lives : Bool → List Bar → Entry → Entry
unfolding alone
lives same_bar [] e = core e
lives same_bar (b ∷ bars) e = lives same_bar bars (alone same_bar b e)

core-touch :
    (same_bar : Bool) (b : Bar) (e : Entry) (events : List Event)
    → core (touch same_bar b e events).0 ≡ alone same_bar b (core e)
unfolding alone
core-touch same_bar b e events = ground arith

alone-core :
    (same_bar : Bool) (b : Bar) (e : Entry) → alone same_bar b (core e) ≡ alone same_bar b e
unfolding alone
alone-core same_bar b e = ground arith

lives-core :
    (same_bar : Bool) (bars : List Bar) (e : Entry)
    → lives same_bar bars (core e) ≡ lives same_bar bars e
unfolding lives
lives-core same_bar [] e = refl
lives-core same_bar (b ∷ bars) e = ap (lives same_bar bars) (alone-core same_bar b e)

lives-touch_all :
    (same_bar : Bool) (b : Bar) (bars : List Bar) (es : List Entry) (events : List Event)
    → map (lives same_bar bars) (touch_all same_bar b es events).0
      ≡ map (lives same_bar (b ∷ bars)) es
unfolding touch_all lives
lives-touch_all same_bar b bars [] events = refl
lives-touch_all same_bar b bars (e ∷ es) events = cc (
  lives-core same_bar bars (touch same_bar b e events).0,
  core-touch same_bar b e events,
  alone-core same_bar b e,
  lives-touch_all same_bar b bars es (touch same_bar b e events).1,
)

first_hit_pass :
    (p : Bar → Bool) (b : Bar) (bars : List Bar)
    → p b ≡ true
    → first_hit p (b ∷ bars) ≡ some (b, bars)
unfolding first_hit
first_hit_pass p b bars h = ground arith

first_hit_fail :
    (p : Bar → Bool) (b : Bar) (bars : List Bar)
    → p b ≡ false
    → first_hit p (b ∷ bars) ≡ first_hit p bars
unfolding first_hit
first_hit_fail p b bars h = ground arith

settle-cons :
    (p : Bar → Bool) (e : Entry) (b : Bar) (bars : List Bar)
    → settle p e (b ∷ bars)
      ≡ (if p b then record e { status = closed; closed_on = some b.time } else settle p e bars)
unfolding settle
settle-cons p e b bars = elim (Bool-cases (p b)) [
  | inl hit ↦ rw hit (ap (closed_by e) (first_hit_pass p b bars hit))
  | inr miss ↦ rw miss (ap (closed_by e) (first_hit_fail p b bars miss))
]

alone_closed :
    (same_bar : Bool) (b : Bar) (e : Entry) → e.status ≡ closed → alone same_bar b e ≡ core e
unfolding alone
alone_closed same_bar b e h = ground arith

alone_trapped :
    (same_bar : Bool) (b : Bar) (e : Entry)
    → e.status ≡ trapped
    → alone same_bar b e ≡ (
        if returns same_bar e b
        then record e { status = closed; closed_on = some b.time; event_idx = none }
        else core e)
unfolding alone
alone_trapped same_bar b e h = ground arith

lives_closed :
    (same_bar : Bool) (bars : List Bar) (e : Entry)
    → e.status ≡ closed
    → lives same_bar bars e ≡ core e
unfolding lives
lives_closed same_bar [] e h = refl
lives_closed same_bar (b ∷ bars) e h =
    rw (alone_closed same_bar b e h) (lives_closed same_bar bars (core e) h)

lives_trapped :
    (same_bar : Bool) (bars : List Bar) (e : Entry)
    → e.status ≡ trapped
    → lives same_bar bars e ≡ settle (returns same_bar e) (core e) bars
unfolding lives
lives_trapped same_bar [] e h = unfold settle in refl
lives_trapped same_bar (b ∷ bars) e h = elim (Bool-cases (returns same_bar e b)) [
  | inl hit ↦
      rw (settle-cons, alone_trapped same_bar b e h, hit) (lives_closed same_bar bars _ refl)
  | inr miss ↦
      rw (settle-cons, alone_trapped same_bar b e h, miss) (lives_trapped same_bar bars (core e) h)
]

alone_active :
    (same_bar : Bool) (b : Bar) (e : Entry)
    → e.status ≡ active
    → alone same_bar b e
      ≡ (if trap_hit e.kind e.sl b then alone same_bar b (caught e b) else core e)
unfolding alone
alone_active same_bar b e h = elim (Bool-cases (trap_hit e.kind e.sl b)) [
  | inl hit ↦ ground arith
  | inr miss ↦ ground arith
]

lives_active :
    (same_bar : Bool) (bars : List Bar) (e : Entry)
    → e.status ≡ active
    → lives same_bar bars e ≡ fate same_bar (core e) bars
unfolding lives fate
lives_active same_bar [] e h = unfold first_hit in refl
lives_active same_bar (b ∷ bars) e h = elim (Bool-cases (trap_hit e.kind e.sl b)) [
  | inl hit ↦
      let step : alone same_bar b e ≡ alone same_bar b (caught e b) =
        rw (alone_active same_bar b e h, hit) refl in
      rw step (
        lives_trapped same_bar (b ∷ bars) (caught e b) refl
        ∙ sym
            (ap (trapped_by same_bar (core e)) (first_hit_pass (trap_hit e.kind e.sl) b bars hit)))
  | inr miss ↦
      let step : alone same_bar b e ≡ core e = rw (alone_active same_bar b e h, miss) refl in
      rw step (
        lives_active same_bar bars (core e) h
        ∙ sym
            (ap (trapped_by same_bar (core e)) (first_hit_fail (trap_hit e.kind e.sl) b bars miss)))
]

-- What a scan asks of the function that opens setups: they are active.
abbrev pub Fresh : List Entry → Type 0
Fresh = All λ e. e.status ≡ active

map-lives :
    (same_bar : Bool) (bars : List Bar) (es : List Entry)
    → Fresh es
    → map (lives same_bar bars) es ≡ map (λ e. fate same_bar (core e) bars) es
map-lives same_bar bars [] h = refl
map-lives same_bar bars (e ∷ es) (fresh, rest) =
    cc (lives_active same_bar bars e fresh, map-lives same_bar bars es rest)

module _ (same_bar : Bool) (find : Bar → Bar → List Entry)
    (fresh : (p c : Bar) → Fresh (find p c)) where
  -- The setups that are open already live on, and each pair of neighbouring bars opens its own.
  pub scan_from-setups :
      (prev : Bar) (bars : List Bar) (es : List Entry) (events : List Event)
      → map core (scan_from same_bar find prev bars es events).0
        ≡ map (lives same_bar bars) es ++ setups same_bar find prev bars
  unfolding scan_from setups
  scan_from-setups prev [] es events = unfold lives in sym (append-nil _)
  scan_from-setups prev (curr ∷ rest) es events =
      let now = touch_all same_bar curr es events in
      let opened = find prev curr in
      scan_from-setups curr rest (now.0 ++ opened) now.1
      ∙ rw (map-append, lives-touch_all, map-lives same_bar rest opened (fresh prev curr))
          (append_assoc (map (lives same_bar (curr ∷ rest)) es) _ _)

new_bear-Fresh : (prev curr : Bar) → Fresh (new_bear make prev curr)
unfolding new_bear make
new_bear-Fresh prev curr = ground arith

-- The setups that scan_htf returns are, in the order of their bars, those that neighbouring bars
-- with a falling low open, and each has the fate that the bars behind it alone decide: no setup
-- and no event disturbs another. (The place in the list of events is left out of the comparison.)
pub scan_htf-setups :
    (b : Bar) (bars : List Bar)
    → map core (scan_htf (b ∷ bars)).0 ≡ setups false (new_bear make) b bars
scan_htf-setups b bars = unfold scan_htf in scan_from-setups false _ new_bear-Fresh b bars [] []
