-- ===== src/Clients/Tests.antt =====
-- The theorem on the saved clients, at two concrete ones.
use Prim.Native.String.{String}
use option_chain_based_strat.Common.{◌≡◌, refl, true, some, List, [], ◌∷◌, inr, string_eq}
use option_chain_based_strat.Common.Int.{negsuc}
use option_chain_based_strat.Common.Dict.{lookup}
use option_chain_based_strat.Clients.Profile.{BrokerBinding, default_risk, ClientProfile}
use option_chain_based_strat.Clients.Registry.{Clients, Saved, Json, save, load_non_sensitive}
use option_chain_based_strat.Clients.Persisted.{
  IsRegistry, restored, option_map, load_non_sensitive-save,
}

abbrev binding : BrokerBinding
binding = record {
  binding_id = "b1";
  provider = "fyers";
  label = "";
  user_id = "u";
  password = "p";
  api_key = "";
  api_secret = "";
  totp_secret = "";
  client_code = "";
  access_token = "";
  assigned_strategy = "";
  is_trade_enabled = true;
  token_generated_at = "";
  token_expiry_at = "";
  lot_multiplier = 100;
  product_type = "MIS";
  trading_mode = "paper";
  enabled = true;
  source_ip = "";
}

abbrev client : String → ClientProfile
client cid = record {
  client_id = cid;
  name = "a client";
  email = "";
  phone = "";
  risk = default_risk;
  broker_bindings = binding ∷ [];
  enabled_strategies = "A" ∷ [];
  expiry_preference = "MONTHLY";
  moneyness_execution = "ATM";
  active = true;
  created_date = "2025-01-01";
  notes = "";
  is_admin_approved = true;
  is_client_bot_active = true;
  target_index = "NIFTY";
  daily_pnl = negsuc 99;
  daily_trades = 3;
  is_halted = true;
}

abbrev two_clients : Clients
two_clients = ("C001", client "C001") ∷ ("C002", client "C002") ∷ []

-- A file that holds the records as they are.
abbrev plain : Json (List Saved)
plain = record { dump = λ recs. recs; parse = λ text. some text }

two_clients-IsRegistry : IsRegistry two_clients
unfolding IsRegistry
two_clients-IsRegistry = (refl, refl, (refl, refl, tt))

load_non_sensitive-save_example :
    (back : Clients) × (load_non_sensitive plain "2025-02-02" (some (save plain two_clients)) []
      ≡ inr back)
    × ((j : String) → lookup j back ≡ option_map restored (lookup j two_clients))
load_non_sensitive-save_example =
    load_non_sensitive-save plain (λ recs. refl) "2025-02-02" two_clients two_clients-IsRegistry
