-- ===== src/Trap/Pick/Choice.antt =====
-- What the two selections choose.
use option_chain_based_strat.Common.{
  suc, ◌<◌, ◌≡◌, refl, sym, ◌∙◌, inl, inr, Bool, true, false, Option, none, some, List, [], ◌∷◌,
  arith, Bool-cases, keep, All, All-map, Elem, Elem-keep, All-keep, All-Elem, keep-nil,
}
use mathlib.Core.Path.{subst}
use mathlib.Core.Bool.{false≢true}
use mathlib.Core.Logic.{◌↔◌}
use option_chain_based_strat.Trap.Bars.{trapped, closed, Entry}
use option_chain_based_strat.Trap.Scan.{is_closed, is_trapped}
use option_chain_based_strat.Trap.Pick.{
  OptType, ce, pe, ts, last_max, max_by, deeper, closed_before, formed_after, fresh_among,
  select_fresh_ltf_entry,
}

-- `r` is an element that no other exceeds.
abbrev pub IsTop : (Entry → Entry → Bool) → List Entry → Entry → Type 0
IsTop leq xs r = Elem r xs × All (λ x. leq x r ≡ true) xs

abbrev pub Tops : (Entry → Entry → Bool) → List Entry → Option Entry → Type 0
Tops leq xs none = xs ≡ []
Tops leq xs (some r) = IsTop leq xs r

module _ (leq : Entry → Entry → Bool) (total : (a b : Entry) → leq a b ≡ false → leq b a ≡ true)
    (trans : (a b c : Entry) → leq a b ≡ true → leq b c ≡ true → leq a c ≡ true) where
  leq_refl : (a : Entry) → leq a a ≡ true
  leq_refl a = elim (Bool-cases (leq a a)) [ inl h ↦ h | inr h ↦ total a a h ]

  last_max-ge : (best : Entry) (xs : List Entry) → leq best (last_max leq best xs) ≡ true
  unfolding last_max
  last_max-ge best [] = leq_refl best
  last_max-ge best (x ∷ xs) = elim (Bool-cases (leq best x)) [
    | inl up ↦ rw up (trans best x _ up (last_max-ge x xs))
    | inr stay ↦ rw stay (last_max-ge best xs)
  ]

  last_max_up :
      (best x : Entry) (xs : List Entry)
      → leq best x ≡ true
      → last_max leq x xs ≡ last_max leq best (x ∷ xs)
  unfolding last_max
  last_max_up best x xs h = rw h

  last_max_stay :
      (best x : Entry) (xs : List Entry)
      → leq best x ≡ false
      → last_max leq best xs ≡ last_max leq best (x ∷ xs)
  unfolding last_max
  last_max_stay best x xs h = rw h

  last_max-IsTop : (best : Entry) (xs : List Entry) → IsTop leq (best ∷ xs) (last_max leq best xs)
  last_max-IsTop best [] = unfold last_max in (inl refl, (leq_refl best, tt))
  last_max-IsTop best (x ∷ xs) = elim (Bool-cases (leq best x)) [
    | inl up ↦
        (let (m, hs) = last_max-IsTop x xs in
          subst (IsTop leq (best ∷ x ∷ xs)) (last_max_up best x xs up)
            (inr m, (trans best x _ up hs.0, hs)))
    | inr stay ↦
        (let (m, hs) = last_max-IsTop best xs in
          subst (IsTop leq (best ∷ x ∷ xs)) (last_max_stay best x xs stay)
            (skip m, (hs.0, (trans x best _ (total best x stay) hs.0, hs.1))))
  ]
    where
      skip : {r : Entry} → Elem r (best ∷ xs) → Elem r (best ∷ x ∷ xs)
      skip (inl same) = inl same
      skip (inr later) = inr (inr later)

  pub max_by-Tops : (xs : List Entry) → Tops leq xs (max_by leq xs)
  unfolding max_by
  max_by-Tops [] = refl
  max_by-Tops (x ∷ xs) = last_max-IsTop x xs

deeper_total : (opt : OptType) (a b : Entry) → deeper opt a b ≡ false → deeper opt b a ≡ true
deeper_total ce a b h = ground arith
deeper_total pe a b h = ground arith

deeper_trans :
    (opt : OptType) (a b c : Entry)
    → deeper opt a b ≡ true
    → deeper opt b c ≡ true
    → deeper opt a c ≡ true
deeper_trans ce a b c h k = ground arith
deeper_trans pe a b c h k = ground arith

-- A zone is fresh if it is trapped and was formed after every closed zone was resolved.
abbrev pub IsFresh : List Entry → Entry → Type 0
IsFresh entries e =
    (e.status ≡ trapped) × All (λ c. c.status ≡ closed → ts c.closed_on < suc e.ref_ts) entries

-- The choice among the fresh zones: none if there is none, and else the latest trap and there the
-- deepest zone.
abbrev pub Chooses : OptType → List Entry → Option Entry → Type 0
Chooses opt entries none = All (λ e. ¬ IsFresh entries e) entries
Chooses opt entries (some r) =
    Elem r entries
    × IsFresh entries r
    × All (λ e. IsFresh entries e → deeper opt e r ≡ true) entries

module _ (opt : OptType) (entries : List Entry) where
  Chooses-of :
      (zones : List Entry)
      → ((e : Entry) → Elem e zones → Elem e entries × IsFresh entries e)
      → ((Q : Entry → Type 0) → All Q zones → All (λ e. IsFresh entries e → Q e) entries)
      → (o : Option Entry) → Tops (deeper opt) zones o
      → Chooses opt entries o
  Chooses-of zones sound complete none empty = complete (λ _. ⊥) (subst (All _) (sym empty) tt)
  Chooses-of zones sound complete (some r) (m, top) =
      ((sound r m).0, (sound r m).1, complete (λ e. deeper opt e r ≡ true) top)

  trapped_of : (e : Entry) → e.status ≡ trapped → is_trapped e.status ≡ true
  trapped_of e h = rw h

  closed_of : (e : Entry) → e.status ≡ closed → is_closed e.status ≡ true
  closed_of e h = rw h

  of_is_trapped : (e : Entry) → is_trapped e.status ≡ true → e.status ≡ trapped
  of_is_trapped e h = ground arith

  of_is_closed : (e : Entry) → is_closed e.status ≡ true → e.status ≡ closed
  of_is_closed e h = ground arith

  unresolved :
      (e : Entry)
      → All (λ c. is_closed c.status ≡ false) entries
      → All (λ c. c.status ≡ closed → ts c.closed_on < suc e.ref_ts) entries
  unresolved e =
      All-map _ _ entries (λ c open_ done. absurd (false≢true (sym open_ ∙ closed_of c done)))

  formed_iff :
      (last e : Entry)
      → IsTop closed_before (keep (λ c. is_closed c.status) entries) last
      → (formed_after (ts last.closed_on) e ≡ true)
        ↔ All (λ c. c.status ≡ closed → ts c.closed_on < suc e.ref_ts) entries
  formed_iff last e (m, top) = (forth, back)
    where
      before :
          (c : Entry)
          → formed_after (ts last.closed_on) e ≡ true
          → closed_before c last ≡ true
          → ts c.closed_on < suc e.ref_ts
      before c h k = ground arith

      forth :
          formed_after (ts last.closed_on) e ≡ true
          → All (λ c. c.status ≡ closed → ts c.closed_on < suc e.ref_ts) entries
      forth h =
          All-map _ _ entries (λ c k done. before c h (k (closed_of c done)))
            (All-keep _ (λ c. closed_before c last ≡ true) entries top)

      back :
          All (λ c. c.status ≡ closed → ts c.closed_on < suc e.ref_ts) entries
          → formed_after (ts last.closed_on) e ≡ true
      back h =
          let (here_, done) = Elem-keep (λ c. is_closed c.status) entries m in
          after_ (All-Elem _ entries h here_ (of_is_closed last done))
        where
          after_ : ts last.closed_on < suc e.ref_ts → formed_after (ts last.closed_on) e ≡ true
          after_ k = ground arith

  zones : List Entry
  zones = keep (λ e. is_trapped e.status) entries

  All-zones : (Q : Entry → Type 0) → All Q zones → All (λ e. e.status ≡ trapped → Q e) entries
  unfolding zones
  All-zones Q h = All-map _ _ entries (λ e k t. k (trapped_of e t)) (All-keep _ Q entries h)

  zone_of : (e : Entry) → Elem e zones → Elem e entries × (e.status ≡ trapped)
  unfolding zones
  zone_of e m =
      let (here_, t) = Elem-keep (λ x. is_trapped x.status) entries m in (here_, of_is_trapped e t)

  choose_first :
      keep (λ e. is_closed e.status) entries ≡ [] → Chooses opt entries (max_by (deeper opt) zones)
  choose_first empty =
      Chooses-of zones
        (λ e m. ((zone_of e m).0, ((zone_of e m).1, unresolved e (keep-nil _ entries empty))))
        (λ Q h. All-map _ _ entries (λ e k fresh. k fresh.0) (All-zones Q h)) _
        (max_by-Tops (deeper opt) (deeper_total opt) (deeper_trans opt) zones)

  choose_later :
      (last : Entry)
      → IsTop closed_before (keep (λ c. is_closed c.status) entries) last
      → Chooses opt entries (max_by (deeper opt) (keep (formed_after (ts last.closed_on)) zones))
  choose_later last top =
      Chooses-of (keep (formed_after (ts last.closed_on)) zones)
        (λ e m.
          let (zone, formed) = Elem-keep (formed_after (ts last.closed_on)) zones m in
          ((zone_of e zone).0, ((zone_of e zone).1, (formed_iff last e top).0 formed)))
        (λ Q h.
          All-map _ _ entries (λ e k fresh. k fresh.0 ((formed_iff last e top).1 fresh.1))
            (All-zones _ (All-keep (formed_after (ts last.closed_on)) Q zones h)))
        _ (max_by-Tops (deeper opt) (deeper_total opt) (deeper_trans opt) _)

  choose :
      (o : Option Entry)
      → Tops closed_before (keep (λ e. is_closed e.status) entries) o
      → Chooses opt entries (fresh_among opt o zones)
  unfolding fresh_among
  choose none empty = choose_first empty
  choose (some last) top = choose_later last top

-- select_fresh_ltf_entry returns none exactly where no trapped zone was formed after the last closed
-- zone was resolved, and else such a zone of the list that no other such zone exceeds: none was
-- trapped later, and of those trapped at the same time none lies deeper.
pub select_fresh_ltf_entry-Chooses :
    (opt : OptType) (entries : List Entry)
    → Chooses opt entries (select_fresh_ltf_entry opt entries)
unfolding select_fresh_ltf_entry zones
select_fresh_ltf_entry-Chooses opt entries =
    choose opt entries (max_by closed_before (keep (λ e. is_closed e.status) entries))
      (max_by-Tops closed_before (λ a b h. ground arith) (λ a b c h k. ground arith) _)
