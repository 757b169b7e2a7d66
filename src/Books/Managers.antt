-- ===== src/Books/Managers.antt =====
-- The reconciliations of the two managers, and set_expiry_mode of the trap manager. What may raise
-- in a constructor, in `start` and in `stop` is a parameter; a strategy is the fields that the
-- manager reads or sets.
use Prim.Native.String.{String}
use Prim.Native.String.{◌++◌ as join}
use option_chain_based_strat.Common.{
  ℕ, Bool, true, false, not, ◌&&◌, ◌||◌, Option, none, some, List, ◌==◌, string_eq, eqb,
  if◌then◌else◌,
}
use option_chain_based_strat.Common.Int.{ℤ, pos_part, neg_part}
use option_chain_based_strat.Common.Dict.{Dict, lookup}
use option_chain_based_strat.Storage.Positions.{Files, load}
use option_chain_based_strat.Books.Wanted.{
  Row, BookKey, book_key_eq, wanted_straddles, wanted_traps, or_current,
}
use option_chain_based_strat.Books.Reconcile.{store, reconcile}

-- A SellStraddleStrategy: `_lot_multiplier`, whether `_position` is set, and `_running`.
pub record Straddle : Type 0 where
  pub lots : ℕ
  pub holding : Bool
  pub running : Bool

-- A TrapScannerEngine: `_lot_mul`, `_expiry_mode`, whether `_position` is set, whether it was given
-- the rebalancer and the MCX feeder, and whether it runs and its stop is not scheduled.
pub record Engine : Type 0 where
  pub lot_mul : ℤ
  pub expiry_mode : String
  pub holding : Bool
  pub rebalancer : Bool
  pub mcx_feeder : Bool
  pub running : Bool

abbrev pub straddle_stale : Straddle → ℕ → Bool
straddle_stale b lots = not (eqb b.lots lots) && not b.holding

-- The key of a book in the position store.
abbrev pub persist_key : BookKey → String
persist_key k =
    if not (k.client_id == "") && not (k.binding_id == "")
    then join k.client_id
        (join "_" (join k.binding_id (join "_" (join k.underlying "_sell_straddle"))))
    else join k.underlying "_sell_straddle"

-- The part of SellStraddleStrategy.start that sets `_position`: what the store has, if
-- `StraddlePosition.from_dict` takes it.
abbrev pub restores_from :
    {P Text : Type 0} → Files P Text → (P → Bool) → String → Dict String Text → BookKey → Bool
restores_from files from_dict today disk k = elim (load files (persist_key k) today disk).0 [
  | none ↦ false
  | some p ↦ from_dict p
]

-- `restores` says whether `start` finds a position of the book in its store, which it then holds.
module _ (upper : String → String) (indices : List String)
    (starts stops restores : BookKey → Bool) where
  -- A book behind its constructor and `start`.
  abbrev pub straddle_of : BookKey → ℕ → Straddle
  straddle_of k lots = record { lots = lots; holding = restores k; running = true }

  abbrev pub spawn_straddle : BookKey → ℕ → Option Straddle
  spawn_straddle k lots = if starts k then some (straddle_of k lots) else none

  -- The old book has been told to stop, which begins with `_running = False`; where `stop`, the
  -- constructor or `start` raises, it stays so.
  abbrev pub respawn_straddle : BookKey → ℕ → Straddle → Option Straddle
  respawn_straddle k lots b =
      if stops k && starts k then some (straddle_of k lots) else some (record b { running = false })

  unfoldable pub reconcile_straddles :
      Option (List Row) → Dict BookKey Straddle → Dict BookKey Straddle
  unfolding wanted_straddles reconcile
  reconcile_straddles rows books =
      reconcile straddle_stale respawn_straddle spawn_straddle (wanted_straddles upper indices rows)
        books

abbrev pub same_ℤ : ℤ → ℤ → Bool
same_ℤ a b = eqb (pos_part a) (pos_part b) && eqb (neg_part a) (neg_part b)

abbrev pub engine_stale : Engine → ℤ × String → Bool
engine_stale b (lots, mode) =
    (not (same_ℤ b.lot_mul lots) || not (b.expiry_mode == mode)) && not b.holding

-- `has_rebalancer` and `has_feeder` say what the manager was given, and `is_mcx` is that of the
-- exchange's settings. `strip` is `str.strip`, which the constructor applies.
module _ (upper strip : String → String) (indices : List String) (starts : BookKey → Bool)
    (has_rebalancer has_feeder : Bool) (is_mcx : String → Bool) where
  abbrev pub engine_of : ℤ × String → Engine
  engine_of (lots, mode) = record {
    lot_mul = lots;
    expiry_mode = strip (or_current mode);
    holding = false;
    rebalancer = false;
    mcx_feeder = false;
    running = true;
  }

  abbrev pub spawn_engine : BookKey → ℤ × String → Option Engine
  spawn_engine k s =
      if starts k
      then some (record (engine_of s) {
        rebalancer = has_rebalancer;
        mcx_feeder = has_feeder && is_mcx k.underlying;
      })
      else none

  -- The replacement is given neither. Where it does not start, the old engine stays, and its stop is
  -- already scheduled.
  abbrev pub respawn_engine : BookKey → ℤ × String → Engine → Option Engine
  respawn_engine k s b =
      if starts k then some (engine_of s) else some (record b { running = false })

  unfoldable pub reconcile_engines : Option (List Row) → Dict BookKey Engine → Dict BookKey Engine
  unfolding wanted_traps reconcile
  reconcile_engines rows books =
      reconcile engine_stale respawn_engine spawn_engine (wanted_traps upper indices strip rows)
        books

  abbrev pub with_mode : String → Option Engine → Option Engine
  with_mode mode none = none
  with_mode mode (some b) = some (record b { expiry_mode = strip mode })

  -- set_expiry_mode of the manager.
  unfoldable pub set_expiry_mode :
      String → String → String → String → Dict BookKey Engine → Dict BookKey Engine
  set_expiry_mode client binding underlying mode books =
      let k : BookKey = record {
        client_id = client;
        binding_id = binding;
        underlying = upper underlying;
      } in
      store k (with_mode mode (lookup k books)) books
