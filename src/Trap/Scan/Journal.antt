-- ===== src/Trap/Scan/Journal.antt =====
-- The links between setups and events, through a whole scan.
use option_chain_based_strat.Common.{
  ℕ, ◌+◌, ◌≡◌, refl, sym, Bool, false, none, List, [], ◌∷◌, ◌++◌, arith, All, length, All-append,
  length-append,
}
use mathlib.Core.Path.{subst}
use option_chain_based_strat.Trap.Bars.{Bar, active, Entry, Event}
use option_chain_based_strat.Trap.Scan.{make, touch_all, new_bear, scan_from, scan_htf}
use option_chain_based_strat.Trap.Scan.Links.{LinkedAs, Linked, Apart, Distinct, count_active}
use option_chain_based_strat.Trap.Scan.Pass.{touch_all-Pass, count_active-cons}

-- What holds of the setups and their events between two bars.
pub record Inv (es : List Entry) (events : List Event) : Type 0 where
  pub linked : All (Linked events) es
  pub distinct : Distinct es
  pub tally : length events + count_active es ≡ length es

-- A new setup has no event.
abbrev pub Unlinked : List Entry → Type 0
Unlinked =
    All
      λ e. (e.status ≡ active) × (e.event_idx ≡ none) × (e.trapped_on ≡ none) × (e.closed_on ≡ none)

Apart-Unlinked : (i : ℕ) (es : List Entry) → Unlinked es → Apart i es
Apart-Unlinked i [] h = tt
Apart-Unlinked i (e ∷ es) ((_, free, _, _), hs) = ((λ q. cc), Apart-Unlinked i es hs)

Linked-Unlinked : (events : List Event) (es : List Entry) → Unlinked es → All (Linked events) es
Linked-Unlinked events [] h = tt
Linked-Unlinked events (e ∷ es) ((now, free, untrapped, unclosed), hs) = (
  subst (λ s. LinkedAs s events e) (sym now) (free, untrapped, unclosed),
  Linked-Unlinked events es hs,
)

Distinct-append : (es new : List Entry) → Distinct es → Unlinked new → Distinct (es ++ new)
Distinct-append [] [] d u = tt
Distinct-append [] (e ∷ new) d ((_, free, _, _), u) =
    ((λ i q. absurd (cc)), Distinct-append [] new tt u)
Distinct-append (e ∷ es) new (d, ds) u =
    ((λ i q. All-append _ es new (d i q) (Apart-Unlinked i new u)), Distinct-append es new ds u)

count_active-append :
    (es new : List Entry) → Unlinked new → count_active (es ++ new) ≡ count_active es + length new
count_active-append [] [] u = refl
count_active-append [] (e ∷ new) ((now, _, _, _), u) = grind (arith, count_active-append [] new u)
count_active-append (e ∷ es) new u =
    omega
      (arith, count_active-cons e es, count_active-cons e (es ++ new), count_active-append es new u)

Inv-append :
    (es new : List Entry) (events : List Event)
    → Inv es events
    → Unlinked new
    → Inv (es ++ new) events
Inv-append es new events v u = record {
  linked = All-append _ es new v.linked (Linked-Unlinked events new u);
  distinct = Distinct-append es new v.distinct u;
  tally = omega (arith, v.tally, count_active-append es new u, length-append es new);
}

touch_all-Inv :
    (same_bar : Bool) (b : Bar) (es : List Entry) (events : List Event)
    → Inv es events
    → let (es', events') = touch_all same_bar b es events in Inv es' events'
touch_all-Inv same_bar b es events v =
    let p = touch_all-Pass same_bar b es events v.linked v.distinct in
    record {
      linked = p.linked;
      distinct = p.distinct;
      tally = omega (arith, p.tally, p.same_length, v.tally);
    }

module _ (same_bar : Bool) (find : Bar → Bar → List Entry)
    (unlinked : (p c : Bar) → Unlinked (find p c)) where
  pub scan_from-Inv :
      (prev : Bar) (bars : List Bar) (es : List Entry) (events : List Event)
      → Inv es events
      → let (es', events') = scan_from same_bar find prev bars es events in Inv es' events'
  unfolding scan_from
  scan_from-Inv prev [] es events v = v
  scan_from-Inv prev (curr ∷ rest) es events v =
      let (es', events') = touch_all same_bar curr es events in
      scan_from-Inv curr rest (es' ++ find prev curr) events' (
        Inv-append es' (find prev curr) events' (touch_all-Inv same_bar curr es events v)
          (unlinked prev curr))

new_bear-Unlinked : (prev curr : Bar) → Unlinked (new_bear make prev curr)
unfolding new_bear make
new_bear-Unlinked prev curr = ground arith

-- After scan_htf every setup that was trapped or closed has an event of its own, which gives the
-- setup's kind, bar, entry, stop and zone, its trigger rounded and the time of its trap, and is open
-- while the setup is trapped, closed at the setup's closing time otherwise. No two
-- setups share an event, and there are no other events: the number of events and the number of
-- setups that are still active make up the number of setups.
pub scan_htf-Inv : (bars : List Bar) → let (es, events) = scan_htf bars in Inv es events
unfolding scan_htf
scan_htf-Inv [] = record { linked = tt; distinct = tt; tally = refl }
scan_htf-Inv (b ∷ bars) =
    scan_from-Inv false _ new_bear-Unlinked b bars [] []
      (record { linked = tt; distinct = tt; tally = refl })
