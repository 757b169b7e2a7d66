-- ===== src/Indicators/Resampled.antt =====
-- What a candle of `tf` minutes in strategies/pool_indicator_engine.py stands for.
use option_chain_based_strat.Common.{
  ◌≡◌, refl, ap, ◌∙◌, ℕ, Bool, true, false, Option, none, some, List, [], ◌∷◌, if◌then◌else◌, keep,
  keep_pass, keep_fail, get_last?, arith, inl, inr, Bool-cases, ◌||◌, ◌<◌,
}
use option_chain_based_strat.Common.Int.{ℤ, pos, ◌+ℤ◌, ◌-ℤ◌, ◌*ℤ◌, leb_ℤ, max_ℤ}
use option_chain_based_strat.Common.Dict.{Dict, lookup, insert, lookup-insert}
use option_chain_based_strat.Strikes.Sets.{strike_eq, same_strike, same_strike_iff}
use option_chain_based_strat.Indicators.Engine.{Track}
use option_chain_based_strat.Indicators.Floor.{last_minute, in_window, floor_div_iff}
use option_chain_based_strat.Indicators.Groups.{
  floor_div, group_bars, max_of, is_committed, complete_entry, resampled, tf_groups,
}

-- The closes and atps of the bars whose minute is within the group, in the order of the bars.
abbrev pub bars_in : ℕ → ℤ → List ℕ → List ℕ → List ℤ → List (ℕ × ℕ)
bars_in tf g (c ∷ cs) (a ∷ as_) (m ∷ ms) =
    if in_window tf g m then (c, a) ∷ bars_in tf g cs as_ ms else bars_in tf g cs as_ ms
bars_in tf g _ _ _ = []

-- Whether some bar is at a minute or behind it.
abbrev pub reached : ℤ → List ℤ → Bool
reached n [] = false
reached n (m ∷ ms) = leb_ℤ n m || reached n ms

module _ {A : Type 0} where
  -- The last of a list, or else what is there.
  abbrev last_or : Option A → List A → Option A
  last_or o [] = o
  last_or o (x ∷ xs) = last_or (some x) xs

  last_or-some : (x : A) (xs : List A) → last_or (some x) xs ≡ get_last? (x ∷ xs)
  last_or-some x [] = refl
  last_or-some x (y ∷ xs) = last_or-some y xs

  last_or-none : (xs : List A) → last_or none xs ≡ get_last? xs
  last_or-none [] = refl
  last_or-none (x ∷ xs) = last_or-some x xs

  if_same : (b : Bool) (x : A) → x ≡ (if b then x else x)
  if_same true x = refl
  if_same false x = refl

  last_or_if :
      (b : Bool) (o : Option A) (x : A) (xs : List A)
      → last_or (if b then some x else o) xs ≡ last_or o (if b then x ∷ xs else xs)
  last_or_if true o x xs = refl
  last_or_if false o x xs = refl

lookup-group_bars :
    (tf : ℕ) (g : ℤ) (cs as_ : List ℕ) (ms : List ℤ) (d : Dict ℤ (ℕ × ℕ))
    → 0 < tf
    → lookup g (group_bars tf cs as_ ms d) ≡ last_or (lookup g d) (bars_in tf g cs as_ ms)
unfolding group_bars
lookup-group_bars tf g (c ∷ cs) (a ∷ as_) (m ∷ ms) d h =
    let rest = bars_in tf g cs as_ ms in
    lookup-group_bars tf g cs as_ ms (insert (floor_div m tf) (c, a) d) h
    ∙ ap (λ o. last_or o rest) (lookup-insert (floor_div m tf) g (c, a) d)
    ∙ ap (λ b. last_or (if b then some (c, a) else lookup g d) rest) (floor_div_iff tf m g h)
    ∙ last_or_if (in_window tf g m) (lookup g d) (c, a) rest
lookup-group_bars tf g [] as_ ms d h = refl
lookup-group_bars tf g (c ∷ cs) [] ms d h = refl
lookup-group_bars tf g (c ∷ cs) (a ∷ as_) [] d h = refl

-- An entry that the condition on the keys drops is gone, and the others are as they were.
lookup-keep :
    (tf : ℕ) (n g : ℤ) (d : Dict ℤ (ℕ × ℕ))
    → lookup g (keep (complete_entry tf n) d) ≡ (if is_committed tf n g then lookup g d else none)
lookup-keep tf n g [] = if_same (is_committed tf n g) none
lookup-keep tf n g ((j, v) ∷ d) =
    let alike : same_strike j g ≡ true → is_committed tf n j ≡ is_committed tf n g =
      λ e. ap (is_committed tf n) ((same_strike_iff j g).0 e) in
    elim (Bool-cases (is_committed tf n j)) [
      | inl hit ↦
          rw (keep_pass (complete_entry tf n) (j, v) d hit)
            (ground (arith, same_strike_iff j g, alike, lookup-keep tf n g d))
      | inr miss ↦
          rw (keep_fail (complete_entry tf n) (j, v) d miss)
            (ground (arith, same_strike_iff j g, alike, lookup-keep tf n g d))
    ]

leb-max_ℤ : (n m k : ℤ) → leb_ℤ n (max_ℤ m k) ≡ (leb_ℤ n m || leb_ℤ n k)
leb-max_ℤ n m k = ground arith

leb-max_of : (n m : ℤ) (ms : List ℤ) → leb_ℤ n (max_of m ms) ≡ reached n (m ∷ ms)
unfolding max_of
leb-max_of n m [] = ground arith
leb-max_of n m (k ∷ ms) = leb-max_of n (max_ℤ m k) ms ∙ ground (arith, leb-max_ℤ n m k)

is_committed-reached :
    (tf : ℕ) (g m : ℤ) (ms : List ℤ)
    → is_committed tf (max_of m ms) g ≡ reached (last_minute tf g) (m ∷ ms)
unfolding is_committed
is_committed-reached tf g m ms = leb-max_of ((g +ℤ pos 1) *ℤ pos tf -ℤ pos 1) m ms

lookup-resampled :
    (tf : ℕ) (g : ℤ) (closes atps : List ℕ) (mins : List ℤ)
    → 0 < tf
    → lookup g (resampled tf closes atps mins) ≡ (
        if reached (last_minute tf g) mins then get_last? (bars_in tf g closes atps mins) else none)
unfolding resampled
lookup-resampled tf g closes atps [] h = refl
lookup-resampled tf g closes atps (m ∷ ms) h =
    let found =
      lookup-group_bars tf g closes atps (m ∷ ms) [] h
      ∙ last_or-none (bars_in tf g closes atps (m ∷ ms)) in
    lookup-keep tf (max_of m ms) g (group_bars tf closes atps (m ∷ ms) [])
    ∙ ap (λ o. if is_committed tf (max_of m ms) g then o else none) found
    ∙ ap (λ b. if b then get_last? (bars_in tf g closes atps (m ∷ ms)) else none)
        (is_committed-reached tf g m ms)

-- With candles of a minute or more, a group stands in the resampled series of an option exactly when a bar falls into it and some bar
-- is at its last minute or behind it, and then it has the close and the atp of the last of the bars
-- that fall into it.
pub lookup-tf_groups :
    (tf : ℕ) (g : ℤ) (t : Track)
    → 0 < tf
    → lookup g (tf_groups tf t) ≡ (
        if reached (last_minute tf g) t.mins
        then get_last? (bars_in tf g t.closes t.atps t.mins)
        else none)
unfolding tf_groups
lookup-tf_groups tf g t h = lookup-resampled tf g t.closes t.atps t.mins h
