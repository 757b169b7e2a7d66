-- ===== src/Books/Wanted.antt =====
-- `_wanted` of the two managers: the deployments that should run, with their lots. `str.upper` and
-- `str.strip` are parameters.
use Prim.Native.String.{String}
use mathlib.Core.Logic.{◌↔◌}
use option_chain_based_strat.Common.{
  ℕ, suc, ◌+◌, ◌%◌, ◌≤◌, ◌≡◌, Bool, true, false, not, ◌&&◌, ◌||◌, Option, none, some, List, [], ◌∷◌,
  Eq, ◌==◌, string_eq, arith, eqb, if◌then◌else◌, max, inl, inr, Bool-cases,
}
use option_chain_based_strat.Common.Int.{ℤ, pos, negsuc, pos_part, neg_part, sub_ℕ, max_ℤ, ◌+ℤ◌}
use option_chain_based_strat.Common.Dict.{Dict, insert}
use option_chain_based_strat.Common.Round.{round_div}

-- `lot_multiplier` of a row: missing or None, not a number, or an exact quotient.
pub data Multiplier : Type 0 where
  missing unreadable : Multiplier
  number : ℤ → ℕ → Multiplier

pub record Row : Type 0 where
  pub client_id : String
  pub binding_id : String
  pub underlying : String
  pub assigned_instrument : String
  pub lot_multiplier : Multiplier
  pub expiry_mode : String

-- `(client_id, binding_id, underlying)`
pub record BookKey : Type 0 where
  pub client_id : String
  pub binding_id : String
  pub underlying : String

abbrev pub same_book : BookKey → BookKey → Bool
same_book a b =
    a.client_id == b.client_id && (a.binding_id == b.binding_id && a.underlying == b.underlying)

pub same_book_iff : (a b : BookKey) → (same_book a b ≡ true) ↔ (a ≡ b)
same_book_iff a b = ground (
  arith,
  string_eq.same_iff a.client_id b.client_id,
  string_eq.same_iff a.binding_id b.binding_id,
  string_eq.same_iff a.underlying b.underlying,
)

instance abbrev pub book_key_eq : Eq BookKey
book_key_eq = record { same = same_book; same_iff = same_book_iff }

-- `int(round(n / d))`
abbrev pub round_ℤ : ℤ → ℕ → ℤ
round_ℤ (pos n) d = pos (round_div n d)
round_ℤ (negsuc n) d = sub_ℕ 0 (round_div (suc n) d)

-- `max(1, …)` of the straddle manager; 0 counts as missing.
unfoldable pub straddle_lots : Multiplier → ℕ
straddle_lots missing = 1
straddle_lots unreadable = 1
straddle_lots (number n d) =
    if eqb (pos_part n + neg_part n) 0 then 1 else max 1 (pos_part (round_ℤ n d))

abbrev pub is_even : ℤ → Bool
is_even z = eqb ((pos_part z + neg_part z) % 2) 0

-- `if lots % 2 != 0: lots = max(2, lots + 1)`
unfoldable pub make_even : ℤ → ℤ
make_even z = if is_even z then z else max_ℤ (pos 2) (z +ℤ pos 1)

unfoldable pub trap_lots : Multiplier → ℤ
unfolding make_even
trap_lots missing = pos 2
trap_lots unreadable = pos 2
trap_lots (number n d) = if eqb (pos_part n + neg_part n) 0 then pos 2 else make_even (round_ℤ n d)

-- `expiry_mode or "current"`
abbrev pub or_current : String → String
or_current s = if s == "" then "current" else s

module _ (upper : String → String) (indices : List String) where
  abbrev pub und_of : Row → String
  und_of d = upper (if d.underlying == "" then d.assigned_instrument else d.underlying)

  abbrev pub listed : String → List String → Bool
  listed s [] = false
  listed s (i ∷ is) = i == s || listed s is

  -- `self._indices and und not in self._indices`
  abbrev pub foreign : List String → String → Bool
  foreign [] und = false
  foreign (i ∷ is) und = not (listed und (i ∷ is))

  abbrev pub skipped : Row → Bool
  skipped d = (d.client_id == "" || d.binding_id == "") || foreign indices (und_of d)

  abbrev pub key_of : Row → BookKey
  key_of d = record { client_id = d.client_id; binding_id = d.binding_id; underlying = und_of d }

  -- The loop over the rows, with what it makes of a row's lots.
  unfoldable pub collect : {S : Type 0} → (Row → S) → List Row → Dict BookKey S → Dict BookKey S
  collect spec [] wanted = wanted
  collect spec (d ∷ rows) wanted =
      collect spec rows (if skipped d then wanted else insert (key_of d) (spec d) wanted)

  -- A query that raises gives `none`, and so no deployments.
  unfoldable pub wanted_straddles : Option (List Row) → Dict BookKey ℕ
  unfolding collect
  wanted_straddles none = []
  wanted_straddles (some rows) = collect (λ d. straddle_lots d.lot_multiplier) rows []

  unfoldable pub wanted_traps : (String → String) → Option (List Row) → Dict BookKey (ℤ × String)
  unfolding collect
  wanted_traps strip none = []
  wanted_traps strip (some rows) =
      collect (λ d. (trap_lots d.lot_multiplier, strip (or_current d.expiry_mode))) rows []

-- The lots that the straddle manager makes of a row's multiplier are at least one.
straddle_lots-ge : (m : Multiplier) → 1 ≤ straddle_lots m
unfolding straddle_lots
straddle_lots-ge missing = omega arith
straddle_lots-ge unreadable = omega arith
straddle_lots-ge (number n d) = ground arith

make_even-even : (z : ℤ) → is_even (make_even z) ≡ true
unfolding make_even ◌+ℤ◌
make_even-even (pos n) = ground arith
make_even-even (negsuc n) = ground arith

-- The lots that the trap manager makes of a row's multiplier are even.
pub trap_lots-even : (m : Multiplier) → is_even (trap_lots m) ≡ true
unfolding trap_lots
trap_lots-even missing = ground arith
trap_lots-even unreadable = ground arith
trap_lots-even (number n d) = elim (Bool-cases (eqb (pos_part n + neg_part n) 0)) [
  | inl zero_ ↦ rw zero_ (ground arith)
  | inr some_ ↦ rw some_ (make_even-even (round_ℤ n d))
]
