-- ===== src/Common/Lists.antt =====
-- Lists measured and indexed by native numbers, under the library's names.
use Prim.Native.Nat.{compare, Ordering, ℕ, zero, suc, ◌+◌, ◌-◌, ◌<◌}
use mathlib.Core.Path.{◌≡◌, refl, sym, ◌∙◌, ap, subst}
use mathlib.Core.Logic.{◌≢◌, ◌⊎◌, inl, inr}
use option_chain_based_strat.Common.Tests.{Bool-cases}
use mathlib.Core.Bool.{Bool, true, false, false≢true}
use mathlib.Core.List.{List, [], ◌∷◌, ◌++◌, map, cons≢nil}
use mathlib.Core.Option.{Option, none, some}
use native.Mathlib.Omega.{arith}

module _ {ℓ} {A : Type ℓ} where
  abbrev pub length : List A → ℕ
  length [] = 0
  length (x ∷ xs) = suc (length xs)

  abbrev pub get_elem? : List A → ℕ → Option A
  get_elem? [] i = none
  get_elem? (x ∷ xs) zero = some x
  get_elem? (x ∷ xs) (suc i) = get_elem? xs i

  abbrev pub update_at : List A → ℕ → (A → A) → List A
  update_at [] i f = []
  update_at (x ∷ xs) zero f = f x ∷ xs
  update_at (x ∷ xs) (suc i) f = x ∷ update_at xs i f

  abbrev pub drop : ℕ → List A → List A
  drop zero xs = xs
  drop (suc n) [] = []
  drop (suc n) (x ∷ xs) = drop n xs

  abbrev pub get_last? : List A → Option A
  get_last? [] = none
  get_last? (x ∷ []) = some x
  get_last? (x ∷ y ∷ xs) = get_last? (y ∷ xs)

  -- The list comprehension `[x for x in xs if p(x)]`.
  abbrev pub keep : (A → Bool) → List A → List A
  keep p [] = []
  keep p (x ∷ xs) = elim (p x) [ true ↦ x ∷ keep p xs | false ↦ keep p xs ]

  -- `sorted(xs, key=…)`: the sort is stable, so an element goes behind those of its own key.
  abbrev pub insert_by : (A → ℕ) → A → List A → List A
  insert_by key a [] = a ∷ []
  insert_by key a (x ∷ xs) = elim (compare (key a) (key x)) [
    | Ordering.lt ↦ a ∷ x ∷ xs
    | _ ↦ x ∷ insert_by key a xs
  ]

  abbrev pub sort_from : (A → ℕ) → List A → List A → List A
  sort_from key done [] = done
  sort_from key done (x ∷ xs) = sort_from key (insert_by key x done) xs

  abbrev pub sort_by : (A → ℕ) → List A → List A
  sort_by key xs = sort_from key [] xs

  abbrev pub All {κ} : (A → Type κ) → List A → Type κ
  All P [] = Unit
  All P (x ∷ xs) = P x × All P xs

pub map-append :
    {A B : Type 0} (f : A → B) (xs ys : List A) → map f (xs ++ ys) ≡ map f xs ++ map f ys
map-append f [] ys = refl
map-append f (x ∷ xs) ys = ap (f x ∷◌) (map-append f xs ys)

module _ {ℓ} {A : Type ℓ} where
  pub length-append : (xs ys : List A) → length (xs ++ ys) ≡ length xs + length ys
  length-append [] ys = omega arith
  length-append (x ∷ xs) ys = omega (arith, length-append xs ys)

  pub length-drop : (n : ℕ) (xs : List A) → length (drop n xs) ≡ length xs - n
  length-drop zero xs = omega arith
  length-drop (suc n) [] = omega arith
  length-drop (suc n) (x ∷ xs) = omega (arith, length-drop n xs)

  pub length-update_at : (xs : List A) (i : ℕ) (f : A → A) → length (update_at xs i f) ≡ length xs
  length-update_at [] i f = refl
  length-update_at (x ∷ xs) zero f = refl
  length-update_at (x ∷ xs) (suc i) f = ap suc (length-update_at xs i f)

  pub get_elem?-update_at_ne :
      (xs : List A) (i j : ℕ) (f : A → A) → i ≢ j → get_elem? (update_at xs i f) j ≡ get_elem? xs j
  get_elem?-update_at_ne [] i j f h = refl
  get_elem?-update_at_ne (x ∷ xs) zero zero f h = absurd (h refl)
  get_elem?-update_at_ne (x ∷ xs) zero (suc j) f h = refl
  get_elem?-update_at_ne (x ∷ xs) (suc i) zero f h = refl
  get_elem?-update_at_ne (x ∷ xs) (suc i) (suc j) f h =
      get_elem?-update_at_ne xs i j f (λ e. h (ap suc e))

  pub get_elem?-update_at_self :
      (xs : List A) (i : ℕ) (f : A → A) {x : A}
      → get_elem? xs i ≡ some x
      → get_elem? (update_at xs i f) i ≡ some (f x)
  get_elem?-update_at_self [] i f h = cc
  get_elem?-update_at_self (x ∷ xs) zero f h = cc
  get_elem?-update_at_self (x ∷ xs) (suc i) f h = get_elem?-update_at_self xs i f h

  pub get_elem?-append_left :
      (xs ys : List A) (i : ℕ) → i < length xs → get_elem? (xs ++ ys) i ≡ get_elem? xs i
  get_elem?-append_left [] ys i h = elim h [ ]
  get_elem?-append_left (x ∷ xs) ys zero h = refl
  get_elem?-append_left (x ∷ xs) ys (suc i) h = get_elem?-append_left xs ys i (omega arith)

  pub get_elem?-append_end : (xs : List A) (y : A) → get_elem? (xs ++ y ∷ []) (length xs) ≡ some y
  get_elem?-append_end [] y = refl
  get_elem?-append_end (x ∷ xs) y = get_elem?-append_end xs y

  pub lt_of_get_elem? : (xs : List A) (i : ℕ) {x : A} → get_elem? xs i ≡ some x → i < length xs
  lt_of_get_elem? [] i h = cc
  lt_of_get_elem? (x ∷ xs) zero h = omega arith
  lt_of_get_elem? (x ∷ xs) (suc i) h = omega (arith, lt_of_get_elem? xs i h)

  pub All-append {κ} :
      (Q : A → Type κ) (front back : List A) → All Q front → All Q back → All Q (front ++ back)
  All-append Q [] back _ k = k
  All-append Q (a ∷ front) back (h, hs) k = (h, All-append Q front back hs k)

  pub All-split {κ} :
      (Q : A → Type κ) (front back : List A) → All Q (front ++ back) → All Q front × All Q back
  All-split Q [] back k = (tt, k)
  All-split Q (a ∷ front) back (h, k) = let (hs, ks) = All-split Q front back k in ((h, hs), ks)

  pub All-map {κ μ} :
      (P : A → Type κ) (Q : A → Type μ) (xs : List A) → ((x : A) → P x → Q x) → All P xs → All Q xs
  All-map P Q [] f h = tt
  All-map P Q (x ∷ xs) f h = (f x h.0, All-map P Q xs f h.1)

-- `x in xs`, as a statement.
abbrev pub Elem : {A : Type 0} → A → List A → Type 0
Elem a [] = ⊥
Elem a (x ∷ xs) = (x ≡ a) ⊎ Elem a xs

module _ {A : Type 0} (p : A → Bool) where
  pub keep_pass : (x : A) (xs : List A) → p x ≡ true → keep p (x ∷ xs) ≡ x ∷ keep p xs
  keep_pass x xs h = rw (h, keep)

  pub keep_fail : (x : A) (xs : List A) → p x ≡ false → keep p (x ∷ xs) ≡ keep p xs
  keep_fail x xs h = rw (h, keep)

  pub Elem-keep : {a : A} (xs : List A) → Elem a (keep p xs) → Elem a xs × (p a ≡ true)
  Elem-keep [] h = absurd h
  Elem-keep {a} (x ∷ xs) h = elim (Bool-cases (p x)) [
    | inl hit ↦ taken hit (Elem-keep xs) (subst (Elem a) (keep_pass x xs hit) h)
    | inr miss ↦ (let (m, q) = Elem-keep xs (subst (Elem a) (keep_fail x xs miss) h) in (inr m, q))
  ]
    where
      taken :
          p x ≡ true
          → (Elem a (keep p xs) → Elem a xs × (p a ≡ true))
          → (x ≡ a) ⊎ Elem a (keep p xs)
          → Elem a (x ∷ xs) × (p a ≡ true)
      taken hit f (inl same) = (inl same, rw same at hit)
      taken hit f (inr later) = (inr (f later).0, (f later).1)

  pub All-keep {κ} :
      (P : A → Type κ) (xs : List A) → All P (keep p xs) → All (λ x. p x ≡ true → P x) xs
  All-keep P [] h = tt
  All-keep P (x ∷ xs) h = elim (Bool-cases (p x)) [
    | inl hit ↦ (let k = subst (All P) (keep_pass x xs hit) h in ((λ _. k.0), All-keep P xs k.1))
    | inr miss ↦ (
      (λ hit. absurd (false≢true (sym miss ∙ hit))),
      All-keep P xs (subst (All P) (keep_fail x xs miss) h),
    )
  ]

  pub keep-nil : (xs : List A) → keep p xs ≡ [] → All (λ x. p x ≡ false) xs
  keep-nil [] h = tt
  keep-nil (x ∷ xs) h = elim (Bool-cases (p x)) [
    | inl hit ↦ absurd (cons≢nil (sym (keep_pass x xs hit) ∙ h))
    | inr miss ↦ (miss, keep-nil xs (sym (keep_fail x xs miss) ∙ h))
  ]

module _ {A : Type 0} where
  pub All-Elem {κ} : (P : A → Type κ) {a : A} (xs : List A) → All P xs → Elem a xs → P a
  All-Elem P [] h m = absurd m
  All-Elem P (x ∷ xs) h (inl same) = subst P same h.0
  All-Elem P (x ∷ xs) h (inr later) = All-Elem P xs h.1 later
