-- ===== src/Straddle/Best.antt =====
-- The loop that keeps the best candidate seen, shared by the three selections.
use mathlib.Core.Path.{subst}
use mathlib.Core.Bool.{false≢true}
use option_chain_based_strat.Common.{
  ◌≡◌, refl, sym, ◌∙◌, ◌⊎◌, inl, inr, Bool, true, false, Option, none, some, List, [], ◌∷◌, ◌++◌,
  if◌then◌else◌, Bool-cases, All, All-map, Elem,
}

-- `for x in xs`, with the candidates that the body of the loop comes to.
abbrev pub gather : {A B : Type 0} → (A → List B) → List A → List B
gather f [] = []
gather f (x ∷ xs) = f x ++ gather f xs

module _ {A B : Type 0} (f : A → List B) where
  Elem-append : (b : B) (ys zs : List B) → Elem b (ys ++ zs) → Elem b ys ⊎ Elem b zs
  Elem-append b [] zs h = inr h
  Elem-append b (y ∷ ys) zs (inl same) = inl (inl same)
  Elem-append b (y ∷ ys) zs (inr m) = elim (Elem-append b ys zs m) [
    | inl h ↦ inl (inr h)
    | inr h ↦ inr h
  ]

  pub Elem-gather :
      (b : B) (xs : List A) → Elem b (gather f xs) → (x : A) × Elem x xs × Elem b (f x)
  Elem-gather b [] h = absurd h
  Elem-gather b (x ∷ xs) h = elim (Elem-append b (f x) (gather f xs) h) [
    | inl m ↦ (x, inl refl, m)
    | inr m ↦ (let (y, k, n) = Elem-gather b xs m in (y, inr k, n))
  ]

  All-split : (P : B → Type 0) (ys zs : List B) → All P (ys ++ zs) → All P ys × All P zs
  All-split P [] zs h = (tt, h)
  All-split P (y ∷ ys) zs (h, hs) = (let (k, l) = All-split P ys zs hs in ((h, k), l))

  pub All-gather : (P : B → Type 0) (xs : List A) → All P (gather f xs) → All (λ x. All P (f x)) xs
  All-gather P [] h = tt
  All-gather P (x ∷ xs) h =
      (let (k, l) = All-split P (f x) (gather f xs) h in (k, All-gather P xs l))

  All-nil : (ys : List B) → All (λ y. ⊥) ys → ys ≡ []
  All-nil [] h = refl
  All-nil (y ∷ ys) h = absurd h.0

  pub gather-nil : (xs : List A) → gather f xs ≡ [] → All (λ x. f x ≡ []) xs
  gather-nil xs h =
      All-map _ _ xs (λ x. All-nil (f x)) (All-gather (λ y. ⊥) xs (subst (All λ y. ⊥) (sym h) tt))

module _ {A : Type 0} (better : A → A → Bool) where
  -- `if best is None or x is better than best: best = x`
  abbrev pub keep_better : Option A → A → A
  keep_better none x = x
  keep_better (some r) x = if better x r then x else r

  unfoldable pub best_of : Option A → List A → Option A
  best_of best [] = best
  best_of best (x ∷ xs) = best_of (some (keep_better best x)) xs

  -- An element that none beats.
  abbrev pub IsBest : List A → A → Type 0
  IsBest xs r = Elem r xs × All (λ x. better x r ≡ false) xs

  abbrev pub Bests : List A → Option A → Type 0
  Bests xs none = xs ≡ []
  Bests xs (some r) = IsBest xs r

  module _ (irrefl : (x : A) → better x x ≡ false)
      (trans : (x y z : A) → better x y ≡ true → better y z ≡ true → better x z ≡ true) where
    -- The element that is kept beats none worse than the one before.
    no_better : (x y z : A) → better x z ≡ false → better y z ≡ true → better x y ≡ false
    no_better x y z worse beats = elim (Bool-cases (better x y)) [
      | inl h ↦ absurd (false≢true (sym worse ∙ trans x y z h beats))
      | inr h ↦ h
    ]

    -- `b` is the best of `r` and `xs`, and beats all that `r` beats.
    abbrev Later : List A → A → Option A → Type 0
    Later xs r none = ⊥
    Later xs r (some b) =
        ((r ≡ b) ⊎ Elem b xs)
        × All (λ x. better x b ≡ false) xs
        × ((y : A) → better y r ≡ false → better y b ≡ false)

    Later-up :
        (r x : A) (xs : List A) (o : Option A)
        → better x r ≡ true
        → Later xs x o
        → Later (x ∷ xs) r o
    Later-up r x xs none hit h = h
    Later-up r x xs (some b) hit (m, rest, pass) =
        (inr m, (pass x (irrefl x), rest), λ y worse. pass y (no_better y x r worse hit))

    Later-stay :
        (r x : A) (xs : List A) (o : Option A)
        → better x r ≡ false
        → Later xs r o
        → Later (x ∷ xs) r o
    Later-stay r x xs none miss h = h
    Later-stay r x xs (some b) miss (inl same, rest, pass) = (inl same, (pass x miss, rest), pass)
    Later-stay r x xs (some b) miss (inr m, rest, pass) = (inr (inr m), (pass x miss, rest), pass)

    best_of-Later : (r : A) (xs : List A) → Later xs r (best_of (some r) xs)
    unfolding best_of
    best_of-Later r [] = (inl refl, tt, λ y h. h)
    best_of-Later r (x ∷ xs) = elim (Bool-cases (better x r)) [
      | inl hit ↦ rw (hit, best_of) (Later-up r x xs _ hit (best_of-Later x xs))
      | inr miss ↦ rw (miss, best_of) (Later-stay r x xs _ miss (best_of-Later r xs))
    ]

    Bests-Later : (x : A) (xs : List A) (o : Option A) → Later xs x o → Bests (x ∷ xs) o
    Bests-Later x xs none h = absurd h
    Bests-Later x xs (some b) (m, rest, pass) = (m, (pass x (irrefl x), rest))

    -- The loop gives none for no candidates, and else one of them that none beats.
    pub best_of-Bests : (xs : List A) → Bests xs (best_of none xs)
    unfolding best_of
    best_of-Bests [] = refl
    best_of-Bests (x ∷ xs) = Bests-Later x xs _ (best_of-Later x xs)

module _ {A B : Type 0} (better : B → B → Bool) (f : A → List B) where
  -- The best of the candidates that a loop comes to.
  abbrev pub Picks : List A → Option B → Type 0
  Picks xs none = All (λ x. f x ≡ []) xs
  Picks xs (some r) =
      ((x : A) × Elem x xs × Elem r (f x)) × All (λ x. All (λ y. better y r ≡ false) (f x)) xs

  Picks-Bests : (xs : List A) (o : Option B) → Bests better (gather f xs) o → Picks xs o
  Picks-Bests xs none h = gather-nil f xs h
  Picks-Bests xs (some r) (m, k) = (Elem-gather f r xs m, All-gather f _ xs k)

  pub best_of-Picks :
      ((y : B) → better y y ≡ false)
      → ((x y z : B) → better x y ≡ true → better y z ≡ true → better x z ≡ true)
      → (xs : List A) → Picks xs (best_of better none (gather f xs))
  best_of-Picks irrefl trans xs = Picks-Bests xs _ (best_of-Bests better irrefl trans (gather f xs))
