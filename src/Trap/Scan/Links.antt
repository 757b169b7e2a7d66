-- ===== src/Trap/Scan/Links.antt =====
-- The shared list of events of the scan: which event belongs to which setup and what it says,
-- through one step on one setup.
use option_chain_based_strat.Common.{
  ℕ, suc, ◌+◌, ◌≤◌, ◌<◌, ◌≡◌, ◌≢◌, refl, sym, ap, ◌∙◌, ◌⊎◌, inl, inr, Bool, true, false, Option,
  none, some, List, [], ◌∷◌, ◌&&◌, ◌||◌, arith, Bool-cases, All, length, get_elem?, length-append,
  length-update_at, get_elem?-update_at_ne, get_elem?-update_at_self, get_elem?-append_left,
  get_elem?-append_end, lt_of_get_elem?,
}
use mathlib.Core.Path.{subst}
use native.Mathlib.Nat.{le_of_eq}
use option_chain_based_strat.Trap.Bars.{Bar, Status, active, trapped, closed, Entry, Event}
use option_chain_based_strat.Trap.Scan.{
  mark_closed, close_event, is_active, is_trapped, is_closed, trap_hit, close_hit, other_bar, touch,
  trap, close_zone, trap_event, round_thirds,
}

-- An event gives the setup's kind, bar, levels and zone, and its trigger to the nearest paisa.
abbrev pub Describes : Entry → Event → Type 0
Describes e v =
    (v.kind ≡ e.kind)
    × (v.ref_bar ≡ e.ref_ts)
    × (v.entry_level ≡ e.entry)
    × (v.sl_level ≡ e.sl)
    × (v.zone_high ≡ e.zone_high)
    × (v.zone_low ≡ e.zone_low)
    × (v.your_entry ≡ round_thirds e.zone_trigger)

-- What the event of a trapped setup says, and that of a closed one.
abbrev pub SaysOpen : Entry → Event → Type 0
SaysOpen e v =
    (v.is_open ≡ true)
    × (v.close_bar ≡ none)
    × (e.trapped_on ≡ some v.trap_bar)
    × (e.closed_on ≡ none)
    × Describes e v

abbrev pub SaysClosed : Entry → Event → Type 0
SaysClosed e v =
    (v.is_open ≡ false)
    × (v.close_bar ≢ none)
    × (e.trapped_on ≡ some v.trap_bar)
    × (e.closed_on ≡ v.close_bar)
    × Describes e v

-- The event of a setup says what the setup says, and is open with the time of the trap while the
-- setup is trapped, and closed at the same time as the setup. A setup that is active has none.
abbrev pub LinkedAs : Status → List Event → Entry → Type 0
LinkedAs active events e = (e.event_idx ≡ none) × (e.trapped_on ≡ none) × (e.closed_on ≡ none)
LinkedAs trapped events e =
    (i : ℕ) × (v : Event) × (e.event_idx ≡ some i) × (get_elem? events i ≡ some v) × SaysOpen e v
LinkedAs closed events e =
    (i : ℕ) × (v : Event) × (e.event_idx ≡ some i) × (get_elem? events i ≡ some v) × SaysClosed e v

abbrev pub Linked : List Event → Entry → Type 0
Linked events e = LinkedAs e.status events e

-- No setup of the list has the event `i`.
abbrev pub Apart : ℕ → List Entry → Type 0
Apart i = All λ e. e.event_idx ≢ some i

-- No two setups share an event.
abbrev pub Distinct : List Entry → Type 0
Distinct [] = Unit
Distinct (e ∷ es) = ((i : ℕ) → e.event_idx ≡ some i → Apart i es) × Distinct es

abbrev pub count_active : List Entry → ℕ
count_active [] = 0
count_active (e ∷ es) = elim e.status [ active ↦ suc (count_active es) | _ ↦ count_active es ]

some_eq : {i j : ℕ} (o : Option ℕ) → o ≡ some i → o ≡ some j → i ≡ j
some_eq o p q = cc

pub LinkedAs-lt :
    (s : Status) (events : List Event) (e : Entry) (i : ℕ)
    → LinkedAs s events e
    → e.event_idx ≡ some i
    → i < length events
LinkedAs-lt active events e i (none_yet, _, _) q = absurd (cc)
LinkedAs-lt trapped events e i (j, v, p, g, _) q =
    rw (some_eq e.event_idx q p) (lt_of_get_elem? events j g)
LinkedAs-lt closed events e i (j, v, p, g, _) q =
    rw (some_eq e.event_idx q p) (lt_of_get_elem? events j g)

pub LinkedAs-frame :
    (s : Status) (events events' : List Event) (e : Entry)
    → ((i : ℕ) → e.event_idx ≡ some i → get_elem? events' i ≡ get_elem? events i)
    → LinkedAs s events e
    → LinkedAs s events' e
LinkedAs-frame active events events' e same k = k
LinkedAs-frame trapped events events' e same (i, v, p, g, r) = (i, v, p, same i p ∙ g, r)
LinkedAs-frame closed events events' e same (i, v, p, g, r) = (i, v, p, same i p ∙ g, r)

abbrev pub act : Status → ℕ
act active = 1
act _ = 0

-- What one step on a setup does to it and to the events.
pub record Step (e : Entry) (events : List Event) (out : Entry × List Event) : Type 0 where
  pub longer : length events ≤ length out.1
  pub linked : Linked out.1 out.0
  pub frame :
      (i : ℕ) → i < length events → e.event_idx ≢ some i → get_elem? out.1 i ≡ get_elem? events i
  pub index : (i : ℕ) → out.0.event_idx ≡ some i → (e.event_idx ≡ some i) ⊎ (length events ≤ i)
  pub tally : length out.1 + act out.0.status ≡ length events + act e.status

Step-refl : (e : Entry) (events : List Event) → Linked events e → Step e events (e, events)
Step-refl e events h = record {
  longer = omega arith;
  linked = h;
  frame = λ i l n. refl;
  index = λ i q. inl q;
  tally = refl;
}

Step-trans :
    (e : Entry) (events : List Event) (m out : Entry × List Event)
    → Step e events m
    → Step m.0 m.1 out
    → Step e events out
Step-trans e events m out s t = record {
  longer = omega (arith, s.longer, t.longer);
  linked = t.linked;
  frame = λ i l n.
      t.frame i (omega (arith, s.longer)) (λ q. Or-absurd (s.index i q) n l) ∙ s.frame i l n;
  index = λ i q. later i (t.index i q);
  tally = t.tally ∙ s.tally;
}
  where
    Or-absurd :
        {i : ℕ}
        → (e.event_idx ≡ some i) ⊎ (length events ≤ i)
        → e.event_idx ≢ some i
        → i < length events
        → ⊥
    Or-absurd (inl q) n l = n q
    Or-absurd (inr k) n l = omega arith

    later :
        (i : ℕ)
        → (m.0.event_idx ≡ some i) ⊎ (length m.1 ≤ i)
        → (e.event_idx ≡ some i) ⊎ (length events ≤ i)
    later i (inl q) = s.index i q
    later i (inr k) = inr (omega (arith, s.longer))

is_active_of : (s : Status) (c : Bool) → (is_active s && c) ≡ true → s ≡ active
is_active_of s c h = ground arith

is_trapped_of : (s : Status) (c d : Bool) → (is_trapped s && c && d) ≡ true → s ≡ trapped
is_trapped_of s c d h = ground arith

close_marked :
    (e : Entry) (ts : ℕ) (events : List Event)
    → e.status ≡ trapped
    → LinkedAs trapped events e
    → Step e events
        (record e { status = closed; closed_on = some ts }, mark_closed e.event_idx ts events)
close_marked e ts events was (i, v, p, g, says) = rw p (record {
  longer = le_of_eq (sym (length-update_at events i (close_event ts)));
  linked = (
    i,
    close_event ts v,
    refl,
    get_elem?-update_at_self events i (close_event ts) g,
    (refl, λ q. cc, says.2, refl, says.4),
  );
  frame = λ j l n. get_elem?-update_at_ne events i j (close_event ts) (λ q. n (ap some q));
  index = λ j q. inl q;
  tally = omega (arith, ap act was, length-update_at events i (close_event ts));
})

trap-Step :
    (b : Bar) (e : Entry) (events : List Event) → Linked events e → Step e events (trap b e events)
unfolding trap
trap-Step b e events h = elim (Bool-cases (is_active e.status && trap_hit e.kind e.sl b)) [
  | inr miss ↦ rw miss (Step-refl e events h)
  | inl hit ↦
      let was : e.status ≡ active = is_active_of e.status _ hit in
      let (none_yet, untrapped, unclosed) = subst (λ s. LinkedAs s events e) was h in
      let v = trap_event e b.time in
      rw hit (record {
        longer = omega (arith, length-append events (v ∷ []));
        linked = (
          length events,
          v,
          refl,
          get_elem?-append_end events v,
          (unfold trap_event in
              (refl, refl, refl, unclosed, (refl, refl, refl, refl, refl, refl, refl))),
        );
        frame = λ i l n. get_elem?-append_left events (v ∷ []) i l;
        index = λ i q. inr (omega (arith, some_eq (some (length events)) refl q));
        tally = omega (arith, ap act was, length-append events (v ∷ []));
      })
]

close_zone-Step :
    (same_bar : Bool) (b : Bar) (e : Entry) (events : List Event)
    → Linked events e
    → Step e events (close_zone same_bar b e events)
unfolding close_zone
close_zone-Step same_bar b e events h =
    elim (Bool-cases (
      is_trapped e.status
      && close_hit e.kind e.entry b
      && (same_bar || other_bar b e.trapped_on))) [
        | inr miss ↦ rw miss (Step-refl e events h)
        | inl hit ↦
            let was : e.status ≡ trapped = is_trapped_of e.status _ _ hit in
            rw hit (close_marked e b.time events was (subst (λ s. LinkedAs s events e) was h))
      ]

pub touch-Step :
    (same_bar : Bool) (b : Bar) (e : Entry) (events : List Event)
    → Linked events e
    → Step e events (touch same_bar b e events)
unfolding touch
touch-Step same_bar b e events h = elim (Bool-cases (is_closed e.status)) [
  | inl done ↦ rw done (Step-refl e events h)
  | inr live ↦
      let s = trap-Step b e events h in
      let (e', events') = trap b e events in
      rw live
        (Step-trans e events (trap b e events) _ s (close_zone-Step same_bar b e' events' s.linked))
]
