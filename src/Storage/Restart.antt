-- ===== src/Storage/Restart.antt =====
-- What data_layer/position_store.py restores behind a restart.
use Prim.Native.String.{String, count}
use text.Mathlib.TextLemmas.{length-append as count-append}
use option_chain_based_strat.Common.{
  ◌≡◌, refl, ap, ◌∙◌, sym, ◌+◌, true, false, not, ◌&&◌, Option, none, some, string_eq, ◌==◌,
  if◌then◌else◌, inl, inr, Bool-cases, Option-cases, if_true, if_false, arith,
}
use option_chain_based_strat.Common.Dict.{Dict, lookup, insert, erase, lookup-insert, beq_refl}
use option_chain_based_strat.Storage.Positions.{
  Payload, Files, path, tmp_path, product, save, load, is_stale,
}

tmp_path-ne : (key : String) → (tmp_path key == path key) ≡ false
tmp_path-ne key = elim (Bool-cases (tmp_path key == path key)) [
  | inl hit ↦
      let same : tmp_path key ≡ path key = (string_eq.same_iff (tmp_path key) (path key)).0 hit in
      let sizes : count (tmp_path key) ≡ count (path key) + 4 = count-append (path key) ".tmp" in
      absurd (omega (arith, sizes, ap count same))
  | inr miss ↦ miss
]

-- What the development relies on: a file that was written to its end is read as what was written;
-- the upper case of an upper case is itself, and only the empty text has an empty one.
pub record IsLawful {P Text : Type 0} (files : Files P Text) : Type 0 where
  pub reads : (p : Payload P) → (files.write p).0 ≡ true → files.read (files.write p).1 ≡ some p
  pub upper_again : (s : String) → files.upper (files.upper s) ≡ files.upper s
  pub upper_empty : (s : String) → (files.upper s == "") ≡ (s == "")

nonempty : (s : String) → ((if s == "" then "MIS" else s) == "") ≡ false
nonempty s = elim (Bool-cases (s == "")) [ inl empty ↦ rw empty refl | inr full ↦ rw full full ]

module _ {P Text : Type 0} (files : Files P Text) where
  answer : String → Option (Payload P) → Option P
  answer today none = none
  answer today (some payload) = if is_stale files today payload then none else payload.position

  answer_at : String → Option Text → Option P
  answer_at today none = none
  answer_at today (some text) = answer today (files.read text)

  load_by :
      (key today : String) (disk : Dict String Text)
      → (load files key today disk).0 ≡ answer_at today (lookup (path key) disk)
  unfolding load answer_at answer
  load_by key today disk = elim (Option-cases (lookup (path key) disk)) [
    | inl gone ↦ rw (gone, load) refl
    | inr (text, found) ↦ elim (Option-cases (files.read text)) [
      | inl broken ↦ rw (found, load, broken) refl
      | inr (payload, parsed) ↦ elim (Bool-cases (is_stale files today payload)) [
        | inl stale ↦ rw (found, load, parsed, stale) refl
        | inr good ↦ rw (found, load, parsed, good) refl
      ]
    ]
  ]

  -- The payload of a save.
  abbrev pub saved : P → String → String → Payload P
  saved position product_type today = record {
    date = some today;
    product_type = some (product files.upper product_type);
    position = some position;
  }

  module _ (key : String) (position : P) (product_type today : String)
      (disk : Dict String Text) where
    lookup-save : lookup (path key) (save files key position product_type today disk) ≡ (
        if (files.write (saved position product_type today)).0
        then some (files.write (saved position product_type today)).1
        else lookup (path key) disk)
    unfolding save
    lookup-save =
        let out = files.write (saved position product_type today) in
        let written = insert (tmp_path key) out.1 disk in
        let replaced = insert (path key) out.1 (erase (tmp_path key) written) in
        elim (Bool-cases out.0) [
          | inl finished ↦
              ap (lookup (path key)) (if_true replaced written finished)
              ∙ lookup-insert (path key) (path key) out.1 (erase (tmp_path key) written)
              ∙ if_true (some out.1) (lookup (path key) (erase (tmp_path key) written))
                  (beq_refl (path key))
              ∙ sym (if_true (some out.1) (lookup (path key) disk) finished)
          | inr raised ↦
              ap (lookup (path key)) (if_false replaced written raised)
              ∙ lookup-insert (tmp_path key) (path key) out.1 disk
              ∙ if_false (some out.1) (lookup (path key) disk) (tmp_path-ne key)
              ∙ sym (if_false (some out.1) (lookup (path key) disk) raised)
        ]

  module _ (lawful : IsLawful files) where
    product_again :
        (s : String) → product files.upper (product files.upper s) ≡ product files.upper s
    product_again s =
        let text = if s == "" then "MIS" else s in
        let full : (files.upper text == "") ≡ false = lawful.upper_empty text ∙ nonempty s in
        ap files.upper (if_false "MIS" (files.upper text) full) ∙ lawful.upper_again text

    -- A position that was saved is loaded on the same day, and on every other day unless its
    -- product is MIS; a save that raises leaves what is loaded as it was.
    pub load-save :
        (key : String) (position : P) (product_type today day : String) (disk : Dict String Text)
        → (load files key day (save files key position product_type today disk)).0 ≡ (
            if (files.write (saved position product_type today)).0
            then if (product files.upper product_type == "MIS") && not (today == day)
              then none
              else some position
            else (load files key day disk).0)
    unfolding answer_at answer
    load-save key position product_type today day disk =
        let payload = saved position product_type today in
        let after : (load files key day (save files key position product_type today disk)).0
            ≡ answer_at day (lookup (path key) (save files key position product_type today disk)) =
          load_by key day (save files key position product_type today disk) in
        let kept =
          if (product files.upper product_type == "MIS") && not (today == day)
          then none
          else some position in
        let before = (load files key day disk).0 in
        let found = lookup-save key position product_type today disk in
        elim (Bool-cases (files.write payload).0) [
          | inl finished ↦
              after
              ∙ ap (answer_at day) (found ∙ if_true _ _ finished)
              ∙ ap (answer day) (lawful.reads payload finished)
              ∙ ap (λ t. if (t == "MIS") && not (today == day) then none else some position)
                  (product_again product_type)
              ∙ sym (if_true kept before finished)
          | inr raised ↦
              after
              ∙ ap (answer_at day) (found ∙ if_false _ _ raised)
              ∙ sym (load_by key day disk)
              ∙ sym (if_false kept before raised)
        ]
