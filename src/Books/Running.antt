-- ===== src/Books/Running.antt =====
-- What the two managers leave running.
use mathlib.Core.Bool.{false≢true}
use Prim.Native.String.{String}
use option_chain_based_strat.Common.{
  ◌≡◌, refl, sym, ◌∙◌, inl, inr, Bool, true, false, Option, none, some, List, [], ◌∷◌, Eq, ◌==◌,
  Bool-cases, arith,
}
use option_chain_based_strat.Common.Int.{ℤ}
use option_chain_based_strat.Common.Dict.{Dict, lookup, insert, lookup-insert}
use option_chain_based_strat.Books.Wanted.{
  Row, BookKey, book_key_eq, skipped, key_of, collect, wanted_straddles, wanted_traps,
}
use option_chain_based_strat.Books.Reconcile.Settled.{Unique, settled, lookup-reconcile}
use option_chain_based_strat.Books.Managers.{
  Straddle, Engine, straddle_stale, spawn_straddle, respawn_straddle, reconcile_straddles,
  engine_stale, spawn_engine, respawn_engine, reconcile_engines,
}

module _ {K : Type 0} ⦃q : Eq K⦄ {V : Type 0} where
  Unique-insert : (k : K) (v : V) (d : Dict K V) → Unique d → Unique (insert k v d)
  Unique-insert k v [] u = (refl, tt)
  Unique-insert k v ((j, w) ∷ d) (once, u) = elim (Bool-cases (j == k)) [
    | inl same ↦ rw same (once, u)
    | inr other ↦ rw other (apart other, Unique-insert k v d u)
  ]
    where
      apart : (j == k) ≡ false → lookup j (insert k v d) ≡ none
      apart other = elim (Bool-cases (k == j)) [
        | inl same ↦
            absurd (false≢true (sym other ∙ (q.same_iff j k).1 (sym ((q.same_iff k j).0 same))))
        | inr free ↦ lookup-insert k j v d ∙ rw free once
      ]

module _ (upper strip : String → String) (indices : List String) where
  Unique-collect :
      {S : Type 0} (spec : Row → S) (rows : List Row) (wanted : Dict BookKey S)
      → Unique wanted
      → Unique (collect upper indices spec rows wanted)
  unfolding collect
  Unique-collect spec [] wanted u = u
  Unique-collect spec (d ∷ rows) wanted u = elim (Bool-cases (skipped upper indices d)) [
    | inl skip ↦ rw skip (Unique-collect spec rows wanted u)
    | inr take ↦
        rw take
          (Unique-collect spec rows _ (Unique-insert (key_of upper indices d) (spec d) wanted u))
  ]

  Unique-wanted_straddles :
      (rows : Option (List Row)) → Unique (wanted_straddles upper indices rows)
  unfolding wanted_straddles
  Unique-wanted_straddles none = tt
  Unique-wanted_straddles (some rows) = Unique-collect _ rows [] tt

  Unique-wanted_traps : (rows : Option (List Row)) → Unique (wanted_traps upper indices strip rows)
  unfolding wanted_traps
  Unique-wanted_traps none = tt
  Unique-wanted_traps (some rows) = Unique-collect _ rows [] tt

-- After the straddle manager's _reconcile a key that no running deployment has is without a book; a
-- key of one that had none has the book that starts, if it does, and that book holds a position if
-- its store has one; and a book that was there stays as it is, unless its lots differ and it holds
-- no position: then a new one takes its place if the old one stops and the new one starts, and the
-- old one stays but runs no longer if one of these raises.
pub lookup-reconcile_straddles :
    (upper : String → String) (indices : List String) (starts stops restores : BookKey → Bool)
    (rows : Option (List Row)) (books : Dict BookKey Straddle) (j : BookKey)
    → lookup j (reconcile_straddles upper indices starts stops restores rows books)
      ≡ settled straddle_stale
          (respawn_straddle upper indices starts stops restores)
          (spawn_straddle upper indices starts stops restores)
          j
          (lookup j (wanted_straddles upper indices rows))
          (lookup j books)
unfolding reconcile_straddles
lookup-reconcile_straddles upper indices starts stops restores rows books j =
    lookup-reconcile straddle_stale _ _ (wanted_straddles upper indices rows) books j
      (Unique-wanted_straddles upper upper indices rows)

-- After the trap manager's _reconcile a key that no running deployment has is without a book; a key
-- of one that had none has the engine that starts, if it does; and an engine that was there stays as
-- it is, unless its lots or its expiry mode differ and it holds no position: then a new one takes
-- its place if that one starts, and the old one stays with its stop scheduled if not.
pub lookup-reconcile_engines :
    (upper strip : String → String) (indices : List String) (starts : BookKey → Bool)
    (has_rebalancer has_feeder : Bool) (is_mcx : String → Bool) (rows : Option (List Row))
    (books : Dict BookKey Engine) (j : BookKey)
    → lookup j
        (reconcile_engines upper strip indices starts has_rebalancer has_feeder is_mcx rows books)
      ≡ settled engine_stale
          (respawn_engine upper strip indices starts has_rebalancer has_feeder is_mcx)
          (spawn_engine upper strip indices starts has_rebalancer has_feeder is_mcx)
          j
          (lookup j (wanted_traps upper indices strip rows))
          (lookup j books)
unfolding reconcile_engines
lookup-reconcile_engines upper strip indices starts has_rebalancer has_feeder is_mcx rows books j =
    lookup-reconcile engine_stale _ _ (wanted_traps upper indices strip rows) books j
      (Unique-wanted_traps upper strip indices rows)

-- A trap book that holds a position, and whose deployment still runs, is left as it is, whatever
-- lots and expiry mode the deployment has now.
reconcile_engines-holding :
    (upper strip : String → String) (indices : List String) (starts : BookKey → Bool)
    (has_rebalancer has_feeder : Bool) (is_mcx : String → Bool) (rows : Option (List Row))
    (books : Dict BookKey Engine) (j : BookKey) (s : ℤ × String) (b : Engine)
    → lookup j (wanted_traps upper indices strip rows) ≡ some s
    → lookup j books ≡ some b
    → b.holding ≡ true
    → lookup j
        (reconcile_engines upper strip indices starts has_rebalancer has_feeder is_mcx rows books)
      ≡ some b
reconcile_engines-holding upper strip indices starts has_rebalancer has_feeder is_mcx rows books j s
      b wants runs holds =
    let calm : engine_stale b s ≡ false = ground (arith, holds) in
    lookup-reconcile_engines upper strip indices starts has_rebalancer has_feeder is_mcx rows books
      j
    ∙ rw (wants, runs, calm)
