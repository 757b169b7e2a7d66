-- ===== src/Trap/Scan/Pass.antt =====
-- The links between setups and events, through the pass over all setups in one bar.
use option_chain_based_strat.Common.{
  ℕ, suc, ◌+◌, ◌≤◌, ◌<◌, ◌≡◌, ◌≢◌, refl, ap, ◌∙◌, ◌⊎◌, inl, inr, Bool, some, List, [], ◌∷◌, arith,
  All, length, get_elem?,
}
use option_chain_based_strat.Trap.Bars.{Bar, Entry, Event}
use option_chain_based_strat.Trap.Scan.{touch, touch_all}
use option_chain_based_strat.Trap.Scan.Links.{
  Linked, Apart, Distinct, count_active, act, Step, LinkedAs-lt, LinkedAs-frame, touch-Step,
}

module _ {e : Entry} {events : List Event} {out : Entry × List Event} (s : Step e events out) where
  pub All-frame :
      (es : List Entry)
      → ((i : ℕ) → e.event_idx ≡ some i → Apart i es)
      → All (Linked events) es
      → All (Linked out.1) es
  All-frame [] apart h = tt
  All-frame (x ∷ es) apart (l, ls) = (
    LinkedAs-frame x.status events out.1 x
        (λ i q. s.frame i (LinkedAs-lt x.status events x i l q) (λ owned. (apart i owned).0 q)) l,
    All-frame es (λ i owned. (apart i owned).1) ls,
  )

pub Apart-of_lt :
    (events : List Event) (i : ℕ) (es : List Entry)
    → All (Linked events) es
    → length events ≤ i
    → Apart i es
Apart-of_lt events i [] h k = tt
Apart-of_lt events i (e ∷ es) (l, ls) k = (
  (λ q. let below = LinkedAs-lt e.status events e i l q in omega arith),
  Apart-of_lt events i es ls k,
)

-- What the pass over all setups does in one bar.
pub record Pass (es : List Entry) (events : List Event) (out : List Entry × List Event)
    : Type 0 where
  pub longer : length events ≤ length out.1
  pub linked : All (Linked out.1) out.0
  pub distinct : Distinct out.0
  pub frame : (i : ℕ) → i < length events → Apart i es → get_elem? out.1 i ≡ get_elem? events i
  pub apart : (i : ℕ) → i < length events → Apart i es → Apart i out.0
  pub tally : length out.1 + count_active out.0 ≡ length events + count_active es
  pub same_length : length out.0 ≡ length es

pub count_active-cons :
    (e : Entry) (es : List Entry) → count_active (e ∷ es) ≡ act e.status + count_active es
count_active-cons e es = ground arith

module _ (e : Entry) (es : List Entry) (events : List Event) (now : Entry × List Event)
    (out : List Entry × List Event) (apart : (i : ℕ) → e.event_idx ≡ some i → Apart i es)
    (s : Step e events now) (p : Pass es now.1 out) (old : All (Linked events) es) where
  index-Apart :
      (i : ℕ) → now.0.event_idx ≡ some i → (e.event_idx ≡ some i) ⊎ (length events ≤ i) → Apart i es
  index-Apart i q (inl old) = apart i old
  index-Apart i q (inr fresh) = Apart-of_lt events i es old fresh

  owned_lt : (i : ℕ) → now.0.event_idx ≡ some i → i < length now.1
  owned_lt i q = LinkedAs-lt now.0.status now.1 now.0 i s.linked q

  Pass-cons : Pass (e ∷ es) events (now.0 ∷ out.0, out.1)
  Pass-cons = record {
    longer = omega (arith, s.longer, p.longer);
    linked = (
      LinkedAs-frame now.0.status now.1 out.1 now.0
          (λ i q. p.frame i (owned_lt i q) (index-Apart i q (s.index i q))) s.linked,
      p.linked,
    );
    distinct = ((λ i q. p.apart i (owned_lt i q) (index-Apart i q (s.index i q))), p.distinct);
    frame = λ i l n. p.frame i (omega (arith, s.longer)) n.1 ∙ s.frame i l n.0;
    apart = λ i l n.
        ((λ q. not_owned i l n.0 q (s.index i q)), p.apart i (omega (arith, s.longer)) n.1);
    tally = omega (arith, s.tally, p.tally, count_active-cons e es, count_active-cons now.0 out.0);
    same_length = ap suc p.same_length;
  }
    where
      not_owned :
          (i : ℕ)
          → i < length events
          → e.event_idx ≢ some i
          → now.0.event_idx ≡ some i
          → (e.event_idx ≡ some i) ⊎ (length events ≤ i)
          → ⊥
      not_owned i l n q (inl old) = n old
      not_owned i l n q (inr fresh) = omega arith

pub touch_all-Pass :
    (same_bar : Bool) (b : Bar) (es : List Entry) (events : List Event)
    → All (Linked events) es
    → Distinct es
    → Pass es events (touch_all same_bar b es events)
unfolding touch_all
touch_all-Pass same_bar b [] events h d = record {
  longer = omega arith;
  linked = tt;
  distinct = tt;
  frame = λ i l n. refl;
  apart = λ i l n. tt;
  tally = refl;
  same_length = refl;
}
touch_all-Pass same_bar b (e ∷ es) events (l, ls) (d, ds) =
    Pass-cons e es events (touch same_bar b e events) _ d s
      (touch_all-Pass same_bar b es _ (All-frame s es d ls) ds) ls
  where
    s : Step e events (touch same_bar b e events)
    s = touch-Step same_bar b e events l
