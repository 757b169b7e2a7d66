-- ===== src/Clients/Registry.antt =====
-- ClientRegistry of config/client_profiles.py. The file is what the JSON library writes and reads,
-- which is a parameter; a key that a saved record lacks is `none`.
use Prim.Native.String.{String}
use option_chain_based_strat.Common.{
  Bool, true, false, Option, none, some, List, [], ◌∷◌, ◌++◌, map, keep, string_eq, ◌==◌,
  if◌then◌else◌, ◌⊎◌, inl, inr,
}
use option_chain_based_strat.Common.Int.{pos}
use option_chain_based_strat.Common.Dict.{Dict, lookup, insert, erase, contains, values}
use option_chain_based_strat.Clients.Profile.{
  BrokerBinding, RiskProfile, default_risk, ClientProfile, Raised, key_error, value_error,
  assertion_error, json_error, mask, validate, has_binding, is_tradeable, halt, reset_daily,
}

abbrev pub Clients : Type 0
Clients = Dict String ClientProfile

unfoldable pub register_client : ClientProfile → Clients → Raised ⊎ Clients
unfolding validate
register_client c clients =
    if contains c.client_id clients
    then inl value_error
    else if validate c.risk
    then inr (insert c.client_id c clients)
    else inl assertion_error

unfoldable pub update_client : ClientProfile → Clients → Raised ⊎ Clients
unfolding validate
update_client c clients =
    if contains c.client_id clients
    then if validate c.risk then inr (insert c.client_id c clients) else inl assertion_error
    else inl key_error

unfoldable pub remove_client : String → Clients → Bool × Clients
remove_client client_id clients = (contains client_id clients, erase client_id clients)

unfoldable pub active_clients : Clients → List ClientProfile
active_clients clients = keep (λ c. c.active) (values clients)

unfoldable pub tradeable_clients : Clients → List ClientProfile
unfolding is_tradeable
tradeable_clients clients = keep is_tradeable (values clients)

unfoldable pub add_broker_binding : String → BrokerBinding → Clients → Raised ⊎ Clients
unfolding has_binding
add_broker_binding client_id b clients = elim (lookup client_id clients) [
  | none ↦ inl key_error
  | some c ↦
      if has_binding b.binding_id c.broker_bindings
      then inl value_error
      else inr
          (insert client_id (record c { broker_bindings = c.broker_bindings ++ b ∷ [] }) clients)
]

-- The fields of a binding that are injected.
pub data Credential : Type 0 where
  user_id password api_key api_secret totp_secret client_code access_token : Credential

unfoldable pub set_credential : Credential → String → BrokerBinding → BrokerBinding
set_credential user_id v b = record b { user_id = v }
set_credential password v b = record b { password = v }
set_credential api_key v b = record b { api_key = v }
set_credential api_secret v b = record b { api_secret = v }
set_credential totp_secret v b = record b { totp_secret = v }
set_credential client_code v b = record b { client_code = v }
set_credential access_token v b = record b { access_token = v }

unfoldable pub set_credentials : List (Credential × String) → BrokerBinding → BrokerBinding
unfolding set_credential
set_credentials [] b = b
set_credentials ((k, v) ∷ kwargs) b = set_credentials kwargs (set_credential k v b)

-- The first binding with the id, or the error that there is none.
unfoldable pub inject_into :
    String → List (Credential × String) → List BrokerBinding → Raised ⊎ List BrokerBinding
unfolding set_credentials
inject_into binding_id kwargs [] = inl key_error
inject_into binding_id kwargs (b ∷ bs) =
    let rest = inject_into binding_id kwargs bs in
    if b.binding_id == binding_id
    then inr (set_credentials kwargs b ∷ bs)
    else elim rest [ inl e ↦ inl e | inr bs' ↦ inr (b ∷ bs') ]

unfoldable pub inject_credentials :
    String → String → List (Credential × String) → Clients → Raised ⊎ Clients
unfolding inject_into
inject_credentials client_id binding_id kwargs clients = elim (lookup client_id clients) [
  | none ↦ inl key_error
  | some c ↦ elim (inject_into binding_id kwargs c.broker_bindings) [
    | inl e ↦ inl e
    | inr bs ↦ inr (insert client_id (record c { broker_bindings = bs }) clients)
  ]
]

unfoldable pub for_all : (ClientProfile → ClientProfile) → Clients → Clients
for_all f [] = []
for_all f ((cid, c) ∷ clients) = (cid, f c) ∷ for_all f clients

unfoldable pub reset_all_daily : Clients → Clients
unfolding for_all reset_daily
reset_all_daily clients = for_all reset_daily clients

unfoldable pub halt_all : Clients → Clients
unfolding for_all halt
halt_all clients = for_all halt clients

-- A saved record, with the keys of `to_dict`.
pub record Saved : Type 0 where
  pub client_id : Option String
  pub name : Option String
  pub email : Option String
  pub phone : Option String
  pub risk : Option RiskProfile
  pub broker_bindings : Option (List BrokerBinding)
  pub enabled_strategies : Option (List String)
  pub expiry_preference : Option String
  pub moneyness_execution : Option String
  pub active : Option Bool
  pub created_date : Option String
  pub notes : Option String
  pub is_admin_approved : Option Bool
  pub is_client_bot_active : Option Bool
  pub target_index : Option String

unfoldable pub to_dict : ClientProfile → Saved
unfolding mask
to_dict c = record {
  client_id = some c.client_id;
  name = some c.name;
  email = some c.email;
  phone = some c.phone;
  risk = some c.risk;
  broker_bindings = some (map mask c.broker_bindings);
  enabled_strategies = some c.enabled_strategies;
  expiry_preference = some c.expiry_preference;
  moneyness_execution = some c.moneyness_execution;
  active = some c.active;
  created_date = some c.created_date;
  notes = some c.notes;
  is_admin_approved = some c.is_admin_approved;
  is_client_bot_active = some c.is_client_bot_active;
  target_index = some c.target_index;
}

-- `rec.get(key, default)`
abbrev pub get_or : {A : Type 0} → A → Option A → A
get_or default none = default
get_or default (some a) = a

-- The profile of a record, whose client id is there.
unfoldable pub profile_of : String → String → Saved → ClientProfile
profile_of today client_id rec = record {
  client_id = client_id;
  name = get_or "" rec.name;
  email = get_or "" rec.email;
  phone = get_or "" rec.phone;
  risk = get_or default_risk rec.risk;
  broker_bindings = [];
  enabled_strategies = get_or ("A" ∷ "B" ∷ "C" ∷ []) rec.enabled_strategies;
  expiry_preference = get_or "CURRENT_WEEK" rec.expiry_preference;
  moneyness_execution = get_or "ATM" rec.moneyness_execution;
  active = get_or true rec.active;
  created_date = get_or today rec.created_date;
  notes = get_or "" rec.notes;
  is_admin_approved = get_or true rec.is_admin_approved;
  is_client_bot_active = get_or false rec.is_client_bot_active;
  target_index = get_or "NIFTY" rec.target_index;
  daily_pnl = pos 0;
  daily_trades = 0;
  is_halted = false;
}

unfoldable pub load_records : String → List Saved → Clients → Raised ⊎ Clients
unfolding profile_of
load_records today [] clients = inr clients
load_records today (rec ∷ recs) clients = elim rec.client_id [
  | none ↦ inl key_error
  | some cid ↦ load_records today recs (insert cid (profile_of today cid rec) clients)
]

-- The JSON library on the records of this file.
pub record Json (Text : Type 0) : Type 0 where
  pub dump : List Saved → Text
  pub parse : Text → Option (List Saved)

module _ {Text : Type 0} (json : Json Text) where
  unfoldable pub save : Clients → Text
  unfolding to_dict
  save clients = json.dump (map to_dict (values clients))

  -- With the file, if there is one.
  unfoldable pub load_non_sensitive : String → Option Text → Clients → Raised ⊎ Clients
  unfolding load_records
  load_non_sensitive today none clients = inr clients
  load_non_sensitive today (some text) clients = elim (json.parse text) [
    | none ↦ inl json_error
    | some recs ↦ load_records today recs clients
  ]
