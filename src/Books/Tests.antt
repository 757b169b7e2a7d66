-- ===== src/Books/Tests.antt =====
-- The managers on one deployment.
use Prim.Native.String.{String}
use option_chain_based_strat.Common.{
  ◌≡◌, refl, ℕ, Bool, true, false, Option, some, List, [], ◌∷◌, string_eq,
}
use option_chain_based_strat.Common.Int.{pos}
use option_chain_based_strat.Common.Dict.{Dict, lookup}
use option_chain_based_strat.Books.Wanted.{
  Row, BookKey, book_key_eq, collect, straddle_lots, number, trap_lots, is_even, wanted_straddles,
  wanted_traps, trap_lots-even,
}
use option_chain_based_strat.Storage.Positions.{Files, Payload, load}
use option_chain_based_strat.Common.Round.{round_div}
use option_chain_based_strat.Books.Reconcile.{reconcile, refresh, each, spawn_new, stop_gone}
use option_chain_based_strat.Books.Reconcile.Settled.{settled}
use option_chain_based_strat.Books.Managers.{
  restores_from, Straddle, Engine, straddle_stale, spawn_straddle, respawn_straddle,
  reconcile_straddles, engine_stale, spawn_engine, respawn_engine, reconcile_engines,
}
use option_chain_based_strat.Books.Running.{lookup-reconcile_straddles, lookup-reconcile_engines}

abbrev same_text : String → String
same_text s = s

abbrev always : BookKey → Bool
always k = true

abbrev never : BookKey → Bool
never k = false

abbrev never_mcx : String → Bool
never_mcx s = false

abbrev rows : Option (List Row)
rows = some (
    record {
      client_id = "C1";
      binding_id = "B1";
      underlying = "NIFTY";
      assigned_instrument = "";
      lot_multiplier = number (pos 3) 1;
      expiry_mode = "current";
    }
    ∷ [])

abbrev key : BookKey
key = record { client_id = "C1"; binding_id = "B1"; underlying = "NIFTY" }

abbrev one_lot : Dict BookKey Straddle
one_lot = (key, record { lots = 1; holding = false; running = true }) ∷ []

trap_lots-even_example : is_even (trap_lots (number (pos 3) 1)) ≡ true
trap_lots-even_example = trap_lots-even (number (pos 3) 1)

-- The store holds a position of the book, which was saved on the same day.
abbrev files : Files ℕ (Payload ℕ)
files = record { write = λ p. (true, p); read = λ p. some p; upper = λ s. s }

abbrev disk : Dict String (Payload ℕ)
disk =
    (
      "data/positions/C1_B1_NIFTY_sell_straddle.json",
      record { date = some "2025-01-01"; product_type = some "MIS"; position = some 7 },
    )
    ∷ []

abbrev in_store : BookKey → Bool
in_store = restores_from files (λ p. true) "2025-01-01" disk

lookup-reconcile_straddles_example :
    lookup key (reconcile_straddles same_text [] always always in_store rows one_lot)
    ≡ settled straddle_stale
        (respawn_straddle same_text [] always always in_store)
        (spawn_straddle same_text [] always always in_store)
        key
        (lookup key (wanted_straddles same_text [] rows))
        (lookup key one_lot)
lookup-reconcile_straddles_example =
    lookup-reconcile_straddles same_text [] always always in_store rows one_lot key

-- The replacement holds the stored position; and one that does not start leaves a stopped book.
reconcile_straddles-restored :
    lookup key (reconcile_straddles same_text [] always always in_store rows one_lot)
    ≡ some (record { lots = 3; holding = true; running = true })
unfolding reconcile_straddles wanted_straddles collect straddle_lots refresh reconcile each
    spawn_new stop_gone load round_div
reconcile_straddles-restored = refl

reconcile_straddles-failed :
    lookup key (reconcile_straddles same_text [] never always in_store rows one_lot)
    ≡ some (record { lots = 1; holding = false; running = false })
unfolding reconcile_straddles wanted_straddles collect straddle_lots refresh reconcile each
    spawn_new stop_gone load round_div
reconcile_straddles-failed = refl

abbrev engine : Bool → Engine
engine held = record {
  lot_mul = pos 2;
  expiry_mode = "current";
  holding = held;
  rebalancer = true;
  mcx_feeder = false;
  running = true;
}

abbrev engines : Bool → Dict BookKey Engine
engines held = (key, engine held) ∷ []

lookup-reconcile_engines_example :
    lookup key
      (reconcile_engines same_text same_text [] always true false never_mcx rows (engines true))
    ≡ settled engine_stale
        (respawn_engine same_text same_text [] always true false never_mcx)
        (spawn_engine same_text same_text [] always true false never_mcx)
        key
        (lookup key (wanted_traps same_text [] same_text rows))
        (lookup key (engines true))
lookup-reconcile_engines_example =
    lookup-reconcile_engines same_text same_text [] always true false never_mcx rows (engines true)
      key
