-- ===== src/Storage/Tests.antt =====
-- The theorem on the stored positions, at a position that is carried forward.
use Prim.Native.String.{String}
use option_chain_based_strat.Common.{
  ◌≡◌, refl, ℕ, true, not, ◌&&◌, none, some, string_eq, ◌==◌, if◌then◌else◌, [],
}
use option_chain_based_strat.Storage.Positions.{Payload, Files, product, save, load}
use option_chain_based_strat.Storage.Restart.{IsLawful, saved, load-save}

-- Files that hold the payload as it is, and texts in upper case only.
abbrev first_day : String
first_day = "2025-01-01"

abbrev next_day : String
next_day = "2025-01-02"

abbrev plain : Files ℕ (Payload ℕ)
plain = record { write = λ p. (true, p); read = λ p. some p; upper = λ s. s }

plain-IsLawful : IsLawful plain
plain-IsLawful = record { reads = λ p e. refl; upper_again = λ s. refl; upper_empty = λ s. refl }

load-save_example :
    (load plain "NIFTY_iron_condor" next_day
      (save plain "NIFTY_iron_condor" 7 "NRML" first_day [])).0
    ≡ (if (plain.write (saved plain 7 "NRML" first_day)).0
        then if (product plain.upper "NRML" == "MIS") && not (first_day == next_day)
          then none
          else some 7
        else (load plain "NIFTY_iron_condor" next_day []).0)
load-save_example =
    load-save plain plain-IsLawful "NIFTY_iron_condor" 7 "NRML" first_day next_day []
