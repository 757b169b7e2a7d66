-- ===== src/Clients/Profile.antt =====
-- BrokerBinding, RiskProfile and ClientProfile of config/client_profiles.py. Money is in paise, and
-- percentages, ratios and multipliers are in hundredths.
use Prim.Native.String.{String}
use option_chain_based_strat.Common.{
  ℕ, ◌+◌, ◌*◌, Bool, true, false, not, ◌&&◌, ◌||◌, List, [], ◌∷◌, ◌++◌, string_eq, ◌==◌, leb, ltb,
  eqb, if◌then◌else◌, keep, length, ◌⊎◌, inl, inr,
}
use option_chain_based_strat.Common.Int.{ℤ, pos, ◌+ℤ◌, pos_part, neg_part}

pub record BrokerBinding : Type 0 where
  pub binding_id : String
  pub provider : String
  pub label : String
  pub user_id : String
  pub password : String
  pub api_key : String
  pub api_secret : String
  pub totp_secret : String
  pub client_code : String
  pub access_token : String
  pub assigned_strategy : String
  pub is_trade_enabled : Bool
  pub token_generated_at : String
  pub token_expiry_at : String
  pub lot_multiplier : ℕ
  pub product_type : String
  pub trading_mode : String
  pub enabled : Bool
  pub source_ip : String

-- What a logged or saved credential shows.
abbrev pub masked : String → String
masked s = if s == "" then s else "***"

unfoldable pub mask : BrokerBinding → BrokerBinding
mask b = record b {
  password = masked b.password;
  api_key = masked b.api_key;
  api_secret = masked b.api_secret;
  totp_secret = masked b.totp_secret;
  access_token = masked b.access_token;
}

pub record RiskProfile : Type 0 where
  pub capital : ℕ
  pub max_risk_per_trade_pct : ℕ
  pub max_daily_loss_pct : ℕ
  pub max_open_positions : ℕ
  pub max_daily_trades : ℕ
  pub min_risk_reward : ℕ
  pub margin_utilization_limit : ℕ
  pub size_multiplier : ℕ

abbrev pub default_risk : RiskProfile
default_risk = record {
  capital = 50_000_000;
  max_risk_per_trade_pct = 100;
  max_daily_loss_pct = 300;
  max_open_positions = 1;
  max_daily_trades = 5;
  min_risk_reward = 200;
  margin_utilization_limit = 80;
  size_multiplier = 100;
}

-- Whether no assertion of `validate` fails.
unfoldable pub validate : RiskProfile → Bool
validate r =
    (ltb 0 r.max_risk_per_trade_pct && leb r.max_risk_per_trade_pct 500)
    && (ltb 0 r.max_daily_loss_pct && leb r.max_daily_loss_pct 1_000)
    && leb 100 r.min_risk_reward
    && leb r.margin_utilization_limit 100

pub record ClientProfile : Type 0 where
  pub client_id : String
  pub name : String
  pub email : String
  pub phone : String
  pub risk : RiskProfile
  pub broker_bindings : List BrokerBinding
  pub enabled_strategies : List String
  pub expiry_preference : String
  pub moneyness_execution : String
  pub active : Bool
  pub created_date : String
  pub notes : String
  pub is_admin_approved : Bool
  pub is_client_bot_active : Bool
  pub target_index : String
  pub daily_pnl : ℤ
  pub daily_trades : ℕ
  pub is_halted : Bool

-- What the operations raise.
pub data Raised : Type 0 where
  key_error value_error assertion_error json_error : Raised

unfoldable pub has_binding : String → List BrokerBinding → Bool
has_binding binding_id [] = false
has_binding binding_id (b ∷ bs) = (b.binding_id == binding_id) || has_binding binding_id bs

unfoldable pub add_broker : BrokerBinding → ClientProfile → Raised ⊎ ClientProfile
unfolding has_binding
add_broker b c =
    if has_binding b.binding_id c.broker_bindings
    then inl value_error
    else inr (record c { broker_bindings = c.broker_bindings ++ b ∷ [] })

unfoldable pub remove_broker : String → ClientProfile → Bool × ClientProfile
remove_broker binding_id c =
    let kept = keep (λ b. not (b.binding_id == binding_id)) c.broker_bindings in
    (ltb (length kept) (length c.broker_bindings), record c { broker_bindings = kept })

unfoldable pub enabled_brokers : ClientProfile → List BrokerBinding
enabled_brokers c = keep (λ b. b.enabled) c.broker_bindings

-- `_daily_pnl <= -max_daily_loss_inr()`
abbrev pub lost_too_much : ClientProfile → Bool
lost_too_much c =
    eqb (pos_part c.daily_pnl) 0
    && leb (c.risk.capital * c.risk.max_daily_loss_pct) (neg_part c.daily_pnl * 10_000)

unfoldable pub is_tradeable : ClientProfile → Bool
unfolding enabled_brokers
is_tradeable c =
    if not c.active || c.is_halted
    then false
    else if not c.is_admin_approved
    then false
    else if not c.is_client_bot_active
    then false
    else if leb c.risk.max_daily_trades c.daily_trades
    then false
    else if lost_too_much c
    then false
    else ltb 0 (length (enabled_brokers c))

unfoldable pub record_trade : ℤ → ClientProfile → ClientProfile
record_trade pnl c = record c { daily_trades = c.daily_trades + 1; daily_pnl = c.daily_pnl +ℤ pnl }

unfoldable pub halt : ClientProfile → ClientProfile
halt c = record c { is_halted = true }

unfoldable pub resume : ClientProfile → ClientProfile
resume c = record c { is_halted = false }

unfoldable pub reset_daily : ClientProfile → ClientProfile
reset_daily c = record c { daily_pnl = pos 0; daily_trades = 0; is_halted = false }
