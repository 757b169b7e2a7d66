-- ===== src/Risk/Kill.antt =====
-- Which clients kill_all halts, and the bound on the slippage that is kept.
use Prim.Native.String.{String}
use mathlib.Core.Path.{subst}
use mathlib.Core.Option.{some-injective}
use option_chain_based_strat.Common.{
  ◌-◌, ◌≤◌, ◌≡◌, refl, sym, ap, ◌∙◌, ◌⊎◌, inl, inr, true, false, some, List, [], ◌∷◌, ◌++◌, ◌==◌,
  string_eq, ltb, length, arith, length-drop, Bool-cases, Option-cases, All, All-map, All-Elem,
  Elem,
}
use option_chain_based_strat.Common.Dict.{Dict, lookup, insert, lookup-insert, beq_refl}
use option_chain_based_strat.Risk.Amount.{Amount}
use option_chain_based_strat.Risk.Client.{ClientState, record_slippage}
use option_chain_based_strat.Risk.Manager.{
  Client, client_risk_halt, Manager, all_active, set_liquidating, is_liquidating, liquidate_client,
  liquidate_all, kill_all,
}

-- After record_slippage no more than 500 slippages are kept.
record_slippage-le :
    (provider : String) (points : Amount) (s : ClientState)
    → length (record_slippage provider points s).slippage ≤ 500
unfolding record_slippage
record_slippage-le provider points s =
    let all = s.slippage ++ (provider, points) ∷ [] in
    elim (Bool-cases (ltb 500 (length all))) [
      | inl long ↦ rw (long, record_slippage) (omega (arith, length-drop (length all - 500) all))
      | inr short ↦ rw (short, record_slippage) (ground (arith, short))
    ]

-- No liquidation is under way.
abbrev pub Calm : Dict String ClientState → Type 0
Calm states = (i : String) → is_liquidating (lookup i states) ≡ false

abbrev pub Halted : Dict String Client → String → Type 0
Halted reg i = (c : Client) × (lookup i reg ≡ some c) × (c.halted ≡ true)

abbrev Known : Dict String Client → String → Type 0
Known reg i = (c : Client) × (lookup i reg ≡ some c)

module _ {V : Type 0} where
  lookup-insert_self : (i : String) (v : V) (d : Dict String V) → lookup i (insert i v d) ≡ some v
  lookup-insert_self i v d = lookup-insert i i v d ∙ rw (beq_refl i)

  lookup-insert_same :
      (i j : String) (v : V) (d : Dict String V)
      → (i == j) ≡ true
      → lookup j (insert i v d) ≡ some v
  lookup-insert_same i j v d h = lookup-insert i j v d ∙ rw h

  lookup-insert_other :
      (i j : String) (v : V) (d : Dict String V)
      → (i == j) ≡ false
      → lookup j (insert i v d) ≡ lookup j d
  lookup-insert_other i j v d h = lookup-insert i j v d ∙ rw h

  lookup-insert_cases :
      (i j : String) (v : V) (d : Dict String V)
      → (lookup j (insert i v d) ≡ some v) ⊎ (lookup j (insert i v d) ≡ lookup j d)
  lookup-insert_cases i j v d = elim (Bool-cases (i == j)) [
    | inl same ↦ inl (lookup-insert_same i j v d same)
    | inr other ↦ inr (lookup-insert_other i j v d other)
  ]

Calm-insert :
    (i : String) (s : ClientState) (states : Dict String ClientState)
    → ((j : String) → (i == j) ≡ false → is_liquidating (lookup j states) ≡ false)
    → s.liquidating ≡ false
    → Calm (insert i s states)
Calm-insert i s states calm off j = elim (Bool-cases (i == j)) [
  | inl same ↦ ap is_liquidating (lookup-insert_same i j s states same) ∙ off
  | inr other ↦ ap is_liquidating (lookup-insert_other i j s states other) ∙ calm j other
]

Calm-set_liquidating :
    (i : String) (states : Dict String ClientState)
    → Calm states
    → Calm (set_liquidating false i (set_liquidating true i states))
Calm-set_liquidating i states calm = elim (Option-cases (lookup i states)) [
  | inl gone ↦
      (let same : set_liquidating true i states ≡ states = rw (gone, set_liquidating) in
        let same_ : set_liquidating false i states ≡ states = rw (gone, set_liquidating) in
        subst Calm (sym (ap (set_liquidating false i) same ∙ same_)) calm)
  | inr (s, there) ↦
      (let on : ClientState = record s { liquidating = true } in
        let off : ClientState = record s { liquidating = false } in
        let first : set_liquidating true i states ≡ insert i on states =
          rw (there, set_liquidating) in
        let second : set_liquidating false i (insert i on states)
            ≡ insert i off (insert i on states) =
          rw (lookup-insert_self i on states, set_liquidating) in
        subst Calm (sym (ap (set_liquidating false i) first ∙ second)) (
          Calm-insert i off (insert i on states)
            (λ j other. ap is_liquidating (lookup-insert_other i j on states other) ∙ calm j) refl))
]

abbrev halt_in : String → Client → Manager → Manager
halt_in i c m = record m {
  registry = insert i (record c { halted = true }) m.registry;
  states = set_liquidating false i (set_liquidating true i m.states);
  published = m.published ++ client_risk_halt i ∷ [];
}

liquidate_client-halt_in :
    (i : String) (c : Client) (m : Manager)
    → Calm m.states
    → lookup i m.registry ≡ some c
    → liquidate_client i m ≡ halt_in i c m
unfolding liquidate_client
liquidate_client-halt_in i c m calm there = rw (calm i, there, liquidate_client)

Known-insert :
    (i : String) (c : Client) (reg : Dict String Client) (j : String)
    → Known reg j
    → Known (insert i c reg) j
Known-insert i c reg j (d, there) = elim (lookup-insert_cases i j c reg) [
  | inl new ↦ (c, new)
  | inr old ↦ (d, old ∙ there)
]

Halted-insert :
    (i : String) (c : Client) (reg : Dict String Client) (j : String)
    → c.halted ≡ true
    → Halted reg j
    → Halted (insert i c reg) j
Halted-insert i c reg j off (d, there, h) = elim (lookup-insert_cases i j c reg) [
  | inl new ↦ (c, new, off)
  | inr old ↦ (d, old ∙ there, h)
]

liquidate_all-Halted :
    (ids done : List String) (m : Manager)
    → Calm m.states
    → All (Known m.registry) ids
    → All (Halted m.registry) done
    → All (Halted (liquidate_all ids m).registry) done
      × All (Halted (liquidate_all ids m).registry) ids
unfolding liquidate_all
liquidate_all-Halted [] done m calm known halted = (halted, tt)
liquidate_all-Halted (i ∷ ids) done m calm ((c, there), known) halted =
    let off : Client = record c { halted = true } in
    let ((first, rest), others) =
      liquidate_all-Halted ids (i ∷ done) (halt_in i c m) (Calm-set_liquidating i m.states calm)
        (All-map _ _ ids (Known-insert i off m.registry) known)
        (
          (off, lookup-insert_self i off m.registry, refl),
          All-map _ _ done (λ j. Halted-insert i off m.registry j refl) halted,
        ) in
    subst
      (λ m'.
        All (Halted (liquidate_all ids m').registry) done
        × All (Halted (liquidate_all ids m').registry) (i ∷ ids))
      (sym (liquidate_client-halt_in i c m calm there)) (rest, (first, others))

all_active-on :
    (k : String) (v : Client) (reg : Dict String Client)
    → v.active ≡ true
    → all_active ((k, v) ∷ reg) ≡ k ∷ all_active reg
unfolding all_active
all_active-on k v reg h = rw (h, all_active)

all_active-off :
    (k : String) (v : Client) (reg : Dict String Client)
    → v.active ≡ false
    → all_active ((k, v) ∷ reg) ≡ all_active reg
unfolding all_active
all_active-off k v reg h = rw (h, all_active)

Known-cons :
    (k : String) (v : Client) (reg : Dict String Client) (i : String)
    → Known reg i
    → Known ((k, v) ∷ reg) i
Known-cons k v reg i (c, there) = elim (Bool-cases (k == i)) [
  | inl same ↦ (v, rw same)
  | inr other ↦ (c, rw other there)
]

all_active-Known : (reg : Dict String Client) → All (Known reg) (all_active reg)
all_active-Known [] = unfold all_active in tt
all_active-Known ((k, v) ∷ reg) =
    let rest = All-map _ _ (all_active reg) (Known-cons k v reg) (all_active-Known reg) in
    elim (Bool-cases v.active) [
      | inl on ↦ rw (all_active-on k v reg on) ((v, rw (beq_refl k)), rest)
      | inr off ↦ rw (all_active-off k v reg off) rest
    ]

Elem-all_active :
    (i : String) (c : Client) (reg : Dict String Client)
    → lookup i reg ≡ some c
    → c.active ≡ true
    → Elem i (all_active reg)
Elem-all_active i c [] there on = absurd (cc)
Elem-all_active i c ((k, v) ∷ reg) there on = elim (Bool-cases (k == i)) [
  | inl same ↦
      (let here : v ≡ c = some-injective _ _ (rw same at there) in
        rw (all_active-on k v reg (ap (λ x. x.active) here ∙ on))
          (inl ((string_eq.same_iff k i).0 same)))
  | inr other ↦
      (let later = Elem-all_active i c reg (rw other at there) on in
        elim (Bool-cases v.active) [
          | inl yes_ ↦ rw (all_active-on k v reg yes_) (inr later)
          | inr no_ ↦ rw (all_active-off k v reg no_) later
        ])
]

-- Where no kill is under way and no client is being liquidated, kill_all halts every active client
-- of the registry, whatever the number and the order of them.
pub kill_all-Halted :
    (m : Manager) (i : String) (c : Client)
    → m.kill_all_active ≡ false
    → Calm m.states
    → lookup i m.registry ≡ some c
    → c.active ≡ true
    → Halted (kill_all m).1.registry i
unfolding kill_all
kill_all-Halted m i c idle calm there on =
    let (_, halted) =
      liquidate_all-Halted (all_active m.registry) [] (record m { kill_all_active = true }) calm
        (all_active-Known m.registry) tt in
    rw (idle, kill_all)
      (All-Elem _ (all_active m.registry) halted (Elem-all_active i c m.registry there on))
