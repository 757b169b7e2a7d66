-- ===== src/Strikes/Sets.antt =====
-- Sets of strikes. A strike is a whole number of paise, and below zero where a window reaches so
-- far.
use option_chain_based_strat.Common.{
  ◌≡◌, refl, ap, ◌∙◌, ◌↔◌, Bool, true, false, not, ◌&&◌, ◌||◌, List, [], ◌∷◌, Eq, eqb,
  if◌then◌else◌, arith,
}
use option_chain_based_strat.Common.Int.{ℤ, pos, negsuc}

abbrev pub same_strike : ℤ → ℤ → Bool
same_strike (pos a) (pos b) = eqb a b
same_strike (negsuc a) (negsuc b) = eqb a b
same_strike _ _ = false

-- `x in s`
abbrev pub member : ℤ → List ℤ → Bool
member x [] = false
member x (y ∷ ys) = same_strike y x || member x ys

-- `s.add(x)`, `s.discard(x)`, `s - t` and `s | t`
abbrev pub add_to : ℤ → List ℤ → List ℤ
add_to x s = if member x s then s else x ∷ s

abbrev pub discard : ℤ → List ℤ → List ℤ
discard x [] = []
discard x (y ∷ ys) = if same_strike y x then discard x ys else y ∷ discard x ys

abbrev pub minus : List ℤ → List ℤ → List ℤ
minus [] t = []
minus (y ∷ ys) t = if member y t then minus ys t else y ∷ minus ys t

abbrev pub union : List ℤ → List ℤ → List ℤ
union [] t = t
union (y ∷ ys) t = add_to y (union ys t)

-- `s.issubset(t)`
abbrev pub subset : List ℤ → List ℤ → Bool
subset [] t = true
subset (y ∷ ys) t = member y t && subset ys t

pub same_strike_iff : (a b : ℤ) → (same_strike a b ≡ true) ↔ (a ≡ b)
same_strike_iff (pos a) (pos b) = ground arith
same_strike_iff (pos a) (negsuc b) = ground arith
same_strike_iff (negsuc a) (pos b) = ground arith
same_strike_iff (negsuc a) (negsuc b) = ground arith

instance abbrev pub strike_eq : Eq ℤ
strike_eq = record { same = same_strike; same_iff = same_strike_iff }

-- Strikes that compare equal are in the same sets.
member_same : (x z : ℤ) (s : List ℤ) → same_strike x z ≡ true → member x s ≡ member z s
member_same x z s h = ap (λ k. member k s) ((same_strike_iff x z).0 h)

pub member-add_to : (z x : ℤ) (s : List ℤ) → member z (add_to x s) ≡ (same_strike x z || member z s)
member-add_to z x s = ground (arith, member_same x z s)

pub member-discard :
    (z x : ℤ) (s : List ℤ) → member z (discard x s) ≡ (member z s && not (same_strike x z))
member-discard z x [] = refl
member-discard z x (y ∷ ys) =
    ground
      (arith, same_strike_iff y x, same_strike_iff y z, same_strike_iff x z, member-discard z x ys)

pub member-minus : (z : ℤ) (s t : List ℤ) → member z (minus s t) ≡ (member z s && not (member z t))
member-minus z [] t = refl
member-minus z (y ∷ ys) t = ground (arith, member_same y z t, member-minus z ys t)

pub member-union : (z : ℤ) (s t : List ℤ) → member z (union s t) ≡ (member z s || member z t)
member-union z [] t = refl
member-union z (y ∷ ys) t = member-add_to z y (union ys t) ∙ ground (arith, member-union z ys t)

same_strike_refl : (a : ℤ) → same_strike a a ≡ true
same_strike_refl a = (same_strike_iff a a).1 refl

or_true : (a : Bool) {b : Bool} → b ≡ true → (a || b) ≡ true
or_true true e = refl
or_true false e = e

pub subset_of :
    (s t : List ℤ) → ((z : ℤ) → member z s ≡ true → member z t ≡ true) → subset s t ≡ true
subset_of [] t h = refl
subset_of (y ∷ ys) t h =
    let here : member y t ≡ true = h y (rw (same_strike_refl y) refl) in
    let there : subset ys t ≡ true = subset_of ys t (λ z e. h z (or_true (same_strike y z) e)) in
    rw (here, there) refl
