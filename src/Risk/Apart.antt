-- ===== src/Risk/Apart.antt =====
-- A fill concerns its own client alone.
use Prim.Native.String.{String}
use option_chain_based_strat.Common.{
  ◌≡◌, ◌∙◌, inl, inr, Bool, true, false, not, ◌&&◌, ap, some, [], ◌∷◌, ◌==◌, string_eq,
  if◌then◌else◌, Bool-cases, Option-cases, is_some,
}
use mathlib.Core.Bool.{false≢true}
use option_chain_based_strat.Common.Dict.{Dict, lookup, contains, insert, lookup-insert}
use option_chain_based_strat.Executor.Orders.{is_complete}
use option_chain_based_strat.Risk.Position.{Fill}
use option_chain_based_strat.Risk.Client.{ClientState, new_state}
use option_chain_based_strat.Risk.Manager.{
  Client, Manager, sync_registry, handle_fill, filled_state,
}

not_both : (a b : Bool) → b ≡ true → (a && not b) ≡ true → ⊥
not_both true true h k = false≢true k
not_both false true h k = false≢true k
not_both a false h k = false≢true h

sync_one :
    (i j : String) (fresh s : ClientState) (take : Bool) (states : Dict String ClientState)
    → lookup j states ≡ some s
    → lookup j (if take && not (contains i states) then insert i fresh states else states) ≡ some s
sync_one i j fresh s take states there = elim (Bool-cases (take && not (contains i states))) [
  | inr stay ↦ rw stay there
  | inl put ↦ elim (Bool-cases (i == j)) [
    | inr other ↦ rw put (lookup-insert i j fresh states ∙ rw other there)
    | inl same ↦
        (let here : contains i states ≡ true =
            ap (λ k. is_some (lookup k states)) ((string_eq.same_iff i j).0 same)
            ∙ ap is_some there in
          absurd (not_both take (contains i states) here put))
  ]
]

sync_registry-keeps :
    (reg : Dict String Client) (states : Dict String ClientState) (j : String) (s : ClientState)
    → lookup j states ≡ some s
    → lookup j (sync_registry reg states) ≡ some s
unfolding sync_registry
sync_registry-keeps [] states j s there = there
sync_registry-keeps ((i, c) ∷ reg) states j s there =
    sync_registry-keeps reg _ j s (sync_one i j (new_state c.capital) s c.active states there)

-- A fill, whatever its status, leaves the state of every other client as it is.
pub handle_fill-apart :
    (f : Fill) (m : Manager) (j : String) (s : ClientState)
    → (f.client_id == j) ≡ false
    → lookup j m.states ≡ some s
    → lookup j (handle_fill f m).states ≡ some s
handle_fill-apart f m j s other there =
    let synced = sync_registry-keeps m.registry m.states j s there in
    elim (Bool-cases (is_complete f.status)) [
      | inr open_ ↦ unfold handle_fill in rw (open_, handle_fill) there
      | inl done ↦ elim (Option-cases (lookup f.client_id (sync_registry m.registry m.states))) [
        | inl gone ↦ unfold handle_fill in rw (done, gone, handle_fill) synced
        | inr (t, here) ↦
            unfold handle_fill in
            rw (done, here, handle_fill)
              (lookup-insert f.client_id j (filled_state f m.pending t)
                  (sync_registry m.registry m.states)
                ∙ rw other synced)
      ]
    ]
