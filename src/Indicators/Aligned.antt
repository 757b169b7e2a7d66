-- ===== src/Indicators/Aligned.antt =====
-- That the deques of strategies/pool_indicator_engine.py stay in step.
use mathlib.Core.Path.{subst}
use mathlib.Core.Option.{none-ne-some}
use option_chain_based_strat.Common.{
  ◌≡◌, refl, ◌∙◌, sym, ℕ, zero, suc, ◌+◌, ◌-◌, ◌≤◌, min, Bool, false, Option, none, some, List, [],
  ◌∷◌, ◌++◌, length, length-append, length-drop, get_elem?, ◌==◌, arith, inl, inr, Bool-cases,
  Option-cases, if_true, if_false, All,
}
use option_chain_based_strat.Common.Int.{ℤ, pos, ◌+ℤ◌}
use option_chain_based_strat.Common.Dict.{Dict, lookup, insert, lookup-insert}
use option_chain_based_strat.Straddle.Chain.{Key, key_eq}
use option_chain_based_strat.Indicators.Engine.{
  Track, PoolEngine, or_empty_track, track_at, update_tick, push_right, first_of_list, push_left,
  minute_of, commit_track, commit_all, commit_bar, base_of, seed_down, seed_strike, PoolEvent,
  tick_of, bar_of, seed_of, on_pool_event, on_pool_events,
}

-- The three deques have one length, which is within the greatest one.
pub record Aligned (n : ℕ) (t : Track) : Type 0 where
  pub closes_len : length t.closes ≡ length t.mins
  pub atps_len : length t.atps ≡ length t.mins
  pub within : length t.mins ≤ n

-- Every option's deques are in step.
abbrev pub IsAligned : PoolEngine → Type 0
IsAligned e = (k : Key) → Aligned e.maxlen (track_at k e)

module _ {A : Type 0} where
  length-push_right :
      (n : ℕ) (x : A) (xs : List A) → length (push_right n x xs) ≡ min n (length xs + 1)
  length-push_right n x xs =
      omega
        (arith, length-append xs (x ∷ []), length-drop (length (xs ++ x ∷ []) - n) (xs ++ x ∷ []))

  length-first_of_list : (n : ℕ) (xs : List A) → length (first_of_list n xs) ≡ min n (length xs)
  length-first_of_list zero xs = omega arith
  length-first_of_list (suc n) [] = omega arith
  length-first_of_list (suc n) (x ∷ xs) = omega (arith, length-first_of_list n xs)

  lt_get_elem? : (xs : List A) (i : ℕ) → get_elem? xs i ≡ none → length xs ≤ i
  lt_get_elem? [] i e = omega arith
  lt_get_elem? (x ∷ xs) zero e = absurd (none-ne-some x (sym e))
  lt_get_elem? (x ∷ xs) (suc i) e = omega (arith, lt_get_elem? xs i e)

commit_track-Aligned :
    (n : ℕ) (minute : Option ℕ) (v : ℕ × ℕ) (t : Track)
    → Aligned n t
    → Aligned n (commit_track n minute v t)
unfolding commit_track
commit_track-Aligned n minute (ltp, atp) t a = record {
  closes_len = omega (
    arith,
    length-push_right n ltp t.closes,
    length-push_right n (minute_of minute t.mins) t.mins,
    a.closes_len,
  );
  atps_len = omega (
    arith,
    length-push_right n atp t.atps,
    length-push_right n (minute_of minute t.mins) t.mins,
    a.atps_len,
  );
  within = omega (arith, length-push_right n (minute_of minute t.mins) t.mins);
}

-- One round of the seeds.
abbrev seeded : ℕ → ℕ → ℕ → ℤ → Track → Track
seeded n close atp m t = record {
  closes = push_left n close t.closes;
  atps = push_left n atp t.atps;
  mins = push_left n m t.mins;
}

seeded-Aligned :
    (n close atp : ℕ) (m : ℤ) (t : Track) → Aligned n t → Aligned n (seeded n close atp m t)
seeded-Aligned n close atp m t a = record {
  closes_len = omega (
    arith,
    length-first_of_list n (close ∷ t.closes),
    length-first_of_list n (m ∷ t.mins),
    a.closes_len,
  );
  atps_len = omega (
    arith,
    length-first_of_list n (atp ∷ t.atps),
    length-first_of_list n (m ∷ t.mins),
    a.atps_len,
  );
  within = omega (arith, length-first_of_list n (m ∷ t.mins));
}

-- A loop that does not raise and leaves the deques in step.
abbrev Ends : ℕ → Bool × Track → Type 0
Ends n r = (r.0 ≡ false) × Aligned n r.1

seed_down-Ends :
    (n : ℕ) (base : ℤ) (closes atps : List ℕ) (i : ℕ) (t : Track)
    → i ≤ length closes
    → length closes ≤ length atps
    → Aligned n t
    → Ends n (seed_down n base closes atps i t)
unfolding seed_down
seed_down-Ends n base closes atps zero t h k a = (refl, a)
seed_down-Ends n base closes atps (suc i) t h k a = elim (Option-cases (get_elem? closes i)) [
  | inl gone ↦ absurd (omega (arith, lt_get_elem? closes i gone, h))
  | inr (close, found) ↦ elim (Option-cases (get_elem? atps i)) [
    | inl gone ↦ absurd (omega (arith, lt_get_elem? atps i gone, h, k))
    | inr (atp, paired) ↦
        rw (found, seed_down, paired)
          (seed_down-Ends n base closes atps i (seeded n close atp (base +ℤ pos i) t)
            (omega (arith, h)) k (seeded-Aligned n close atp (base +ℤ pos i) t a))
  ]
]

-- A track that is put in leaves the others.
insert-IsAligned :
    (k : Key) (t : Track) (e : PoolEngine)
    → IsAligned e
    → Aligned e.maxlen t
    → IsAligned (record e { tracks = insert k t e.tracks })
insert-IsAligned k t e inv a j = elim (Bool-cases (k == j)) [
  | inl hit ↦
      let here : lookup j (insert k t e.tracks) ≡ some t =
        lookup-insert k j t e.tracks ∙ if_true (some t) (lookup j e.tracks) hit in
      subst (λ o. Aligned e.maxlen (or_empty_track o)) (sym here) a
  | inr miss ↦
      let there : lookup j (insert k t e.tracks) ≡ lookup j e.tracks =
        lookup-insert k j t e.tracks ∙ if_false (some t) (lookup j e.tracks) miss in
      subst (λ o. Aligned e.maxlen (or_empty_track o)) (sym there) (inv j)
]

commit_all-IsAligned :
    (minute : Option ℕ) (latest : Dict Key (ℕ × ℕ)) (e : PoolEngine)
    → IsAligned e
    → IsAligned (commit_all minute latest e)
unfolding commit_all
commit_all-IsAligned minute [] e inv = inv
commit_all-IsAligned minute ((k, v) ∷ latest) e inv =
    let t = commit_track e.maxlen minute v (track_at k e) in
    commit_all-IsAligned minute latest (record e { tracks = insert k t e.tracks })
      (insert-IsAligned k t e inv (commit_track-Aligned e.maxlen minute v (track_at k e) (inv k)))

-- A seed with an atp for each close.
abbrev pub Paired : PoolEvent → Type 0
Paired (seed_of k closes atps) = length closes ≤ length atps
Paired _ = Unit

on_pool_event-IsAligned :
    (v : PoolEvent) (e : PoolEngine)
    → Paired v
    → IsAligned e
    → ((on_pool_event v e).0 ≡ false) × IsAligned (on_pool_event v e).1
unfolding on_pool_event update_tick commit_bar seed_strike
on_pool_event-IsAligned (tick_of now k ltp atp) e p inv = (refl, inv)
on_pool_event-IsAligned (bar_of minute) e p inv = (refl, commit_all-IsAligned minute e.latest e inv)
on_pool_event-IsAligned (seed_of k closes atps) e p inv =
    let t = track_at k e in
    let base = base_of (length closes) t.mins in
    let (fine, a) =
      seed_down-Ends e.maxlen base closes atps (length closes) t (omega arith) p (inv k) in
    (fine, insert-IsAligned k (seed_down e.maxlen base closes atps (length closes) t).1 e inv a)

-- Over any sequence of ticks, bars and seeds, of which each seed has an atp for every close, from an
-- engine whose deques are in step: no seed raises, and the closes, atps and minutes of every option
-- stay as many as each other, and no more than the greatest length.
pub on_pool_events-IsAligned :
    (vs : List PoolEvent) (e : PoolEngine)
    → All Paired vs
    → IsAligned e
    → All (λ raised. raised ≡ false) (on_pool_events vs e).0 × IsAligned (on_pool_events vs e).1
unfolding on_pool_events
on_pool_events-IsAligned [] e p inv = (tt, inv)
on_pool_events-IsAligned (v ∷ vs) e (p, ps) inv =
    let (fine, next) = on_pool_event-IsAligned v e p inv in
    let (rest, last) = on_pool_events-IsAligned vs (on_pool_event v e).1 ps next in
    ((fine, rest), last)
