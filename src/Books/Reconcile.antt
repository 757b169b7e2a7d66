-- ===== src/Books/Reconcile.antt =====
-- `_reconcile`, as the two managers share it, over any book: first the new books, then the stops,
-- then the books that are replaced.
use option_chain_based_strat.Common.{
  Bool, Option, none, some, List, [], ◌∷◌, Eq, if◌then◌else◌, keep,
}
use option_chain_based_strat.Common.Dict.{Dict, lookup, contains, insert}
pub mod Settled

-- What is there first.
abbrev pub or_else : {B : Type 0} → Option B → Option B → Option B
or_else (some b) o = some b
or_else none o = o

module _ {K : Type 0} ⦃q : Eq K⦄ {B : Type 0} where
  abbrev pub store : K → Option B → Dict K B → Dict K B
  store k none books = books
  store k (some b) books = insert k b books

module _ {K : Type 0} ⦃q : Eq K⦄ {S B : Type 0} where
  -- `for key, s in wanted.items()` over the state `books`.
  unfoldable pub each : (K → S → Dict K B → Dict K B) → Dict K S → Dict K B → Dict K B
  each step [] books = books
  each step ((k, s) ∷ wanted) books = each step wanted (step k s books)

  -- `for key in set(wanted) - set(books)`: a spawn that raises leaves no book.
  unfoldable pub spawn_new : (K → S → Option B) → Dict K B → K → S → Dict K B → Dict K B
  spawn_new spawn before k s books = if contains k before then books else store k (spawn k s) books

  -- `for key in set(books) - set(wanted)`
  unfoldable pub stop_gone : Dict K S → Dict K B → Dict K B
  stop_gone wanted books = keep (λ e. contains e.0 wanted) books

  module _ (stale : B → S → Bool) (respawn : K → S → B → Option B) where
    -- What a stale book becomes; `none` where it stays as it is.
    abbrev pub renewal : K → S → Option B → Option B
    renewal k s none = none
    renewal k s (some b) = if stale b s then respawn k s b else none

    unfoldable pub refresh : K → S → Dict K B → Dict K B
    refresh k s books = store k (renewal k s (lookup k books)) books

    unfoldable pub reconcile : (K → S → Option B) → Dict K S → Dict K B → Dict K B
    unfolding each spawn_new stop_gone refresh
    reconcile spawn wanted books =
        each refresh wanted (stop_gone wanted (each (spawn_new spawn books) wanted books))
