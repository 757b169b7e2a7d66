-- ===== src/Clients/Persisted.antt =====
-- What the file of ClientRegistry in config/client_profiles.py keeps of the clients.
use Prim.Native.String.{String}
use mathlib.Core.Path.{subst}
use option_chain_based_strat.Common.{
  ◌≡◌, refl, ap, ◌∙◌, sym, false, Option, none, some, List, [], ◌∷◌, map, string_eq, ◌==◌, inl, inr,
  Bool-cases, if_true, if_false,
}
use option_chain_based_strat.Common.Int.{pos}
use option_chain_based_strat.Common.Dict.{lookup, insert, values, lookup-insert}
use option_chain_based_strat.Clients.Profile.{ClientProfile}
use option_chain_based_strat.Clients.Registry.{
  Clients, Saved, to_dict, profile_of, load_records, Json, save, load_non_sensitive,
}

-- Every client is registered once and under its own id.
unfoldable pub IsRegistry : Clients → Type 0
IsRegistry [] = Unit
IsRegistry ((cid, c) ∷ clients) =
    (c.client_id ≡ cid) × (lookup cid clients ≡ none) × IsRegistry clients

-- What comes back of a client.
abbrev pub restored : ClientProfile → ClientProfile
restored c = record c {
  broker_bindings = [];
  daily_pnl = pos 0;
  daily_trades = 0;
  is_halted = false;
}

abbrev pub option_map :
    (ClientProfile → ClientProfile) → Option ClientProfile → Option ClientProfile
option_map f none = none
option_map f (some c) = some (f c)

abbrev first_of : Option ClientProfile → Option ClientProfile → Option ClientProfile
first_of none o = o
first_of (some c) o = some c

abbrev loaded : Clients → Clients → Clients
loaded [] acc = acc
loaded ((cid, c) ∷ clients) acc = loaded clients (insert c.client_id (restored c) acc)

load_records-loaded :
    (today : String) (clients acc : Clients)
    → load_records today (map to_dict (values clients)) acc ≡ inr (loaded clients acc)
unfolding load_records to_dict profile_of
load_records-loaded today [] acc = refl
load_records-loaded today ((cid, c) ∷ clients) acc =
    load_records-loaded today clients (insert c.client_id (restored c) acc)

lookup-loaded :
    (j : String) (clients acc : Clients)
    → IsRegistry clients
    → lookup j (loaded clients acc)
      ≡ first_of (option_map restored (lookup j clients)) (lookup j acc)
unfolding IsRegistry
lookup-loaded j [] acc h = refl
lookup-loaded j ((cid, c) ∷ clients) acc (own, once, rest) = elim (Bool-cases (cid == j)) [
  | inl hit ↦
      let here : cid ≡ j = (string_eq.same_iff cid j).0 hit in
      let gone : lookup j clients ≡ none = subst (λ k. lookup k clients ≡ none) here once in
      let put : lookup j (insert c.client_id (restored c) acc) ≡ some (restored c) =
        lookup-insert c.client_id j (restored c) acc
        ∙ if_true (some (restored c)) (lookup j acc) (ap (λ k. k == j) own ∙ hit) in
      lookup-loaded j clients (insert c.client_id (restored c) acc) rest
      ∙ ap (λ o. first_of (option_map restored o) (lookup j (insert c.client_id (restored c) acc)))
          gone
      ∙ put
      ∙ ap (λ o. first_of (option_map restored o) (lookup j acc))
          (sym (if_true (some c) (lookup j clients) hit))
  | inr miss ↦
      let put : lookup j (insert c.client_id (restored c) acc) ≡ lookup j acc =
        lookup-insert c.client_id j (restored c) acc
        ∙ if_false (some (restored c)) (lookup j acc) (ap (λ k. k == j) own ∙ miss) in
      lookup-loaded j clients (insert c.client_id (restored c) acc) rest
      ∙ ap (first_of (option_map restored (lookup j clients))) put
      ∙ ap (λ o. first_of (option_map restored o) (lookup j acc))
          (sym (if_false (some c) (lookup j clients) miss))
]

first_of-none : (o : Option ClientProfile) → first_of o none ≡ o
first_of-none none = refl
first_of-none (some c) = refl

-- With a JSON library that reads what it wrote: where every client of a registry is registered once
-- and under its own id, an empty registry loads the saved file without an error, and then holds
-- exactly these clients, each with its profile as it was but for the bindings, of which there are
-- none, and for the results of the day, which are cleared.
pub load_non_sensitive-save :
    {Text : Type 0} (json : Json Text)
    → ((recs : List Saved) → json.parse (json.dump recs) ≡ some recs)
    → (today : String) (clients : Clients) → IsRegistry clients
    → (back : Clients) × (load_non_sensitive json today (some (save json clients)) [] ≡ inr back)
      × ((j : String) → lookup j back ≡ option_map restored (lookup j clients))
unfolding load_non_sensitive save
load_non_sensitive-save json reads today clients h = (
  loaded clients [],
  rw (reads (map to_dict (values clients)), load_non_sensitive)
      (load_records-loaded today clients []),
  λ j. lookup-loaded j clients [] h ∙ first_of-none (option_map restored (lookup j clients)),
)
