-- ===== src/Books/Reconcile/Settled.antt =====
-- What is left of each book after `_reconcile`, key by key.
use option_chain_based_strat.Common.{
  ◌≡◌, refl, sym, ap, ◌∙◌, inl, inr, Bool, true, false, Option, none, some, [], ◌∷◌, Eq, ◌==◌,
  if◌then◌else◌, keep_pass, keep_fail, Bool-cases, arith, is_some,
}
use option_chain_based_strat.Common.Dict.{Dict, lookup, contains, lookup-insert}
use option_chain_based_strat.Books.Reconcile.{
  or_else, store, each, spawn_new, stop_gone, renewal, refresh, reconcile,
}

or_else-none : {B : Type 0} (o : Option B) → or_else o none ≡ o
or_else-none none = refl
or_else-none (some b) = refl

module _ {K : Type 0} ⦃q : Eq K⦄ where
  -- Each key stands once, as in a dict.
  abbrev pub Unique : {V : Type 0} → Dict K V → Type 0
  Unique [] = Unit
  Unique ((k, v) ∷ d) = (lookup k d ≡ none) × Unique d

  lookup-same : {V : Type 0} (k j : K) (d : Dict K V) → (k == j) ≡ true → lookup j d ≡ lookup k d
  lookup-same k j d h = ap (λ i. lookup i d) (sym ((q.same_iff k j).0 h))

module _ {K : Type 0} ⦃q : Eq K⦄ {B : Type 0} where
  lookup-store :
      (k j : K) (o : Option B) (d : Dict K B)
      → lookup j (store k o d) ≡ (if k == j then or_else o (lookup j d) else lookup j d)
  lookup-store k j none d = ground arith
  lookup-store k j (some b) d = lookup-insert k j b d

module _ {K : Type 0} ⦃q : Eq K⦄ {S B : Type 0} where
  abbrev pub given : (K → S → Option B → Option B) → K → Option S → Option B → Option B
  given g j none o = o
  given g j (some s) o = g j s o

  module _ (step : K → S → Dict K B → Dict K B) (g : K → S → Option B → Option B)
      (law : (k j : K) (s : S) (d : Dict K B)
        → lookup j (step k s d) ≡ (if k == j then g k s (lookup j d) else lookup j d)) where
    lookup-each :
        (wanted : Dict K S) (books : Dict K B) (j : K)
        → Unique wanted
        → lookup j (each step wanted books) ≡ given g j (lookup j wanted) (lookup j books)
    unfolding each
    lookup-each [] books j u = refl
    lookup-each ((k, s) ∷ wanted) books j (once, u) = elim (Bool-cases (k == j)) [
      | inl hit ↦
          (let gone : lookup j wanted ≡ none = lookup-same k j wanted hit ∙ once in
            let stepped : lookup j (step k s books) ≡ g k s (lookup j books) =
              law k j s books ∙ rw hit in
            rw (hit, lookup-each wanted (step k s books) j u, gone)
              (stepped ∙ ap (λ i. g i s (lookup j books)) ((q.same_iff k j).0 hit)))
      | inr miss ↦
          (let stepped : lookup j (step k s books) ≡ lookup j books = law k j s books ∙ rw miss in
            rw (miss, lookup-each wanted (step k s books) j u, stepped))
    ]

  stop_gone_pass :
      (wanted : Dict K S) (k : K) (b : B) (books : Dict K B)
      → contains k wanted ≡ true
      → stop_gone wanted ((k, b) ∷ books) ≡ (k, b) ∷ stop_gone wanted books
  unfolding stop_gone
  stop_gone_pass wanted k b books h = keep_pass (λ (e : K × B). contains e.0 wanted) (k, b) books h

  stop_gone_fail :
      (wanted : Dict K S) (k : K) (b : B) (books : Dict K B)
      → contains k wanted ≡ false
      → stop_gone wanted ((k, b) ∷ books) ≡ stop_gone wanted books
  unfolding stop_gone
  stop_gone_fail wanted k b books h = keep_fail (λ (e : K × B). contains e.0 wanted) (k, b) books h

  lookup-stop_gone :
      (wanted : Dict K S) (books : Dict K B) (j : K)
      → lookup j (stop_gone wanted books) ≡ (if contains j wanted then lookup j books else none)
  lookup-stop_gone wanted [] j = unfold stop_gone in ground arith
  lookup-stop_gone wanted ((k, b) ∷ books) j = elim (Bool-cases (contains k wanted)) [
    | inl hit ↦ rw (stop_gone_pass wanted k b books hit) (elim (Bool-cases (k == j)) [
      | inl same ↦
          (let there : contains j wanted ≡ true = ap is_some (lookup-same k j wanted same) ∙ hit in
            rw (same, there))
      | inr other ↦ rw other (lookup-stop_gone wanted books j)
    ])
    | inr miss ↦ rw (stop_gone_fail wanted k b books miss) (elim (Bool-cases (k == j)) [
      | inl same ↦
          (let gone : contains j wanted ≡ false = ap is_some (lookup-same k j wanted same) ∙ miss in
            rw gone (lookup-stop_gone wanted books j ∙ rw gone))
      | inr other ↦ rw other (lookup-stop_gone wanted books j)
    ])
  ]

  module _ (stale : B → S → Bool) (respawn : K → S → B → Option B) (spawn : K → S → Option B) where
    -- A book after its renewal, if that comes to anything.
    abbrev pub renewed : K → S → Option B → Option B
    renewed k s o = or_else (renewal stale respawn k s o) o

    -- What a key has in the end, by what is wanted under it and what ran under it before.
    abbrev pub settled : K → Option S → Option B → Option B
    settled k none o = none
    settled k (some s) none = renewed k s (spawn k s)
    settled k (some s) (some b) = renewed k s (some b)

    abbrev spawned : Dict K B → K → S → Option B → Option B
    spawned before k s o = if contains k before then o else or_else (spawn k s) o

    spawn_law :
        (before : Dict K B) (k j : K) (s : S) (d : Dict K B)
        → lookup j (spawn_new spawn before k s d)
          ≡ (if k == j then spawned before k s (lookup j d) else lookup j d)
    unfolding spawn_new
    spawn_law before k j s d = elim (Bool-cases (contains k before)) [
      | inl there ↦ rw there (ground arith)
      | inr gone ↦ rw gone (lookup-store k j (spawn k s) d)
    ]

    refresh_law :
        (k j : K) (s : S) (d : Dict K B)
        → lookup j (refresh stale respawn k s d)
          ≡ (if k == j then renewed k s (lookup j d) else lookup j d)
    unfolding refresh
    refresh_law k j s d =
        lookup-store k j (renewal stale respawn k s (lookup k d)) d ∙ elim (Bool-cases (k == j)) [
          | inl same ↦ rw same (
              ap (λ o. or_else (renewal stale respawn k s o) (lookup j d))
                (sym (lookup-same k j d same)))
          | inr other ↦ rw other
        ]

    -- After a reconciliation a key that is not wanted has no book; a wanted key without a book has
    -- the one that is spawned, and a wanted key with a book keeps it; and such a book becomes its
    -- renewal where it is stale.
    pub lookup-reconcile :
        (wanted : Dict K S) (books : Dict K B) (j : K)
        → Unique wanted
        → lookup j (reconcile stale respawn spawn wanted books)
          ≡ settled j (lookup j wanted) (lookup j books)
    unfolding reconcile
    lookup-reconcile wanted books j u =
        let new = each (spawn_new spawn books) wanted books in
        let grown =
          lookup-each (spawn_new spawn books) (spawned books) (spawn_law books) wanted books j u in
        lookup-each (refresh stale respawn) renewed refresh_law wanted (stop_gone wanted new) j u
        ∙ ap (given renewed j (lookup j wanted)) (lookup-stop_gone wanted new j)
        ∙ ap (λ o. given renewed j (lookup j wanted) (if contains j wanted then o else none)) grown
        ∙ ends (lookup j wanted) (lookup j books) refl
      where
        ends :
            (w : Option S) (o : Option B)
            → lookup j books ≡ o
            → given renewed j w (if is_some w then given (spawned books) j w o else none)
              ≡ settled j w o
        ends none o e = refl
        ends (some s) none e =
            let first : spawned books j s none ≡ spawn j s = rw e (or_else-none (spawn j s)) in
            ap (renewed j s) first
        ends (some s) (some b) e =
            let first : spawned books j s (some b) ≡ some b = rw e in ap (renewed j s) first
