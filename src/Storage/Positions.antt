-- ===== src/Storage/Positions.antt =====
-- data/positions of data_layer/position_store.py: a file for each strategy with an open position.
-- A position is what the JSON library takes; writing a file, which may end early, and reading one
-- are parameters, and so is `str.upper`.
use Prim.Native.String.{String}
use Prim.Native.String.{◌++◌ as join}
use option_chain_based_strat.Common.{
  Bool, not, ◌&&◌, Option, none, some, string_eq, ◌==◌, if◌then◌else◌,
}
use option_chain_based_strat.Common.Dict.{Dict, lookup, insert, erase}

-- What a file holds; a key that is missing is `none`.
pub record Payload (P : Type 0) : Type 0 where
  pub date : Option String
  pub product_type : Option String
  pub position : Option P

-- `open`, `json.dump` and `json.load`: a write gives the text that is on the disk when it ends, and
-- whether it did not raise.
pub record Files (P Text : Type 0) : Type 0 where
  pub write : Payload P → Bool × Text
  pub read : Text → Option (Payload P)
  pub upper : String → String

abbrev pub path : String → String
path key = join "data/positions/" (join key ".json")

abbrev pub tmp_path : String → String
tmp_path key = join (path key) ".tmp"

-- `(product_type or "MIS").upper()`
abbrev pub product : (String → String) → String → String
product upper s = upper (if s == "" then "MIS" else s)

module _ {P Text : Type 0} (files : Files P Text) where
  unfoldable pub save : String → P → String → String → Dict String Text → Dict String Text
  save key position product_type today disk =
      let payload : Payload P = record {
        date = some today;
        product_type = some (product files.upper product_type);
        position = some position;
      } in
      let (finished, text) = files.write payload in
      let written = insert (tmp_path key) text disk in
      if finished then insert (path key) text (erase (tmp_path key) written) else written

  unfoldable pub clear : String → Dict String Text → Dict String Text
  clear key disk = erase (path key) disk

  abbrev pub or_text : String → Option String → String
  or_text default none = default
  or_text default (some s) = s

  -- Whether a payload is a carryover that the broker has squared off.
  abbrev pub is_stale : String → Payload P → Bool
  is_stale today payload =
      (product files.upper (or_text "" payload.product_type) == "MIS")
      && not (or_text "" payload.date == today)

  unfoldable pub load : String → String → Dict String Text → Option P × Dict String Text
  unfolding clear
  load key today disk = elim (lookup (path key) disk) [
    | none ↦ (none, disk)
    | some text ↦ elim (files.read text) [
      | none ↦ (none, disk)
      | some payload ↦
          if is_stale today payload then (none, clear key disk) else (payload.position, disk)
    ]
  ]
