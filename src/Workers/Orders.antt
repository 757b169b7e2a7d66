-- ===== src/Workers/Orders.antt =====
-- The orders of ClientExecutionWorker for a signal, in
-- execution_bridge/parallel_worker_pool.py. Capital is in paise, and percentages and multipliers
-- are in hundredths. The calls of a broker, its rate limit included, are parameters over the state
-- of that broker, and so are the instrument registry and the operations of `str`.
use Prim.Native.String.{String}
use option_chain_based_strat.Common.{
  ℕ, suc, ◌+◌, ◌*◌, ◌/◌, Bool, true, false, not, ◌||◌, Option, none, some, List, [], ◌∷◌, ◌++◌, map,
  string_eq, ◌==◌, leb, eqb, if◌then◌else◌, min, max, keep, get_elem?,
}
use option_chain_based_strat.Common.Dict.{Dict, lookup}

-- The date of a contract, with what the source compares: the order of dates and their months.
pub record Expiry : Type 0 where
  pub ordinal : ℕ
  pub month : ℕ

pub data Preference : Type 0 where
  current_week next_week monthly : Preference

-- REGISTRY of data_layer/instrument_registry.py, as far as a worker calls it.
pub record Registry : Type 0 where
  pub is_loaded : String → Bool
  pub all_expiries : String → List Expiry
  pub get_broker_symbol : String → Option Expiry → ℕ → String → String → Option String

pub record Signal : Type 0 where
  pub source : String
  pub underlying : String
  pub target_strike : ℕ
  pub option_type : String

-- The fields of the client that a worker reads.
pub record TradingClient : Type 0 where
  pub enabled_strategies : List String
  pub expiry_preference : Preference
  pub providers : Dict String String
  pub capital : ℕ
  pub max_risk_per_trade_pct : ℕ
  pub size_multiplier : ℕ

-- The market order of a signal; its tag is left out.
pub record Request : Type 0 where
  pub broker_symbol : String
  pub exchange : String
  pub qty : ℕ

-- _SOURCE_TO_LETTER
abbrev pub source_to_letter : Dict String String
source_to_letter =
    ("OI_Zone_Breakout", "A")
    ∷ ("Liquidity_Trap", "B")
    ∷ ("TrapTrading_Engine", "B")
    ∷ ("Panic_Scanner", "C")
    ∷ []

-- `initial` is `s[0].upper()`.
unfoldable pub strategy_letter : (String → String) → String → String
strategy_letter initial source = elim (lookup source source_to_letter) [
  | some letter ↦ letter
  | none ↦ if source == "" then "?" else initial source
]

-- `cfg.exchange.lot_sizes.get(underlying, 25)`
abbrev pub lot_size_of : Dict String ℕ → String → ℕ
lot_size_of lot_sizes underlying = elim (lookup underlying lot_sizes) [ none ↦ 25 | some n ↦ n ]

-- `option_sl_dist * lot_size` in paise, and the lots that the risk of a trade allows.
abbrev pub risk_per_lot : ℕ → ℕ
risk_per_lot lot_size = 5_000 * lot_size

unfoldable pub allowed_lots : TradingClient → ℕ → ℕ
allowed_lots c lot_size =
    (c.capital * c.max_risk_per_trade_pct * c.size_multiplier) / (1_000_000 * risk_per_lot lot_size)

unfoldable pub compute_lots : TradingClient → ℕ → ℕ
unfolding allowed_lots
compute_lots c lot_size = if leb lot_size 0 then 0 else max 1 (min (allowed_lots c lot_size) 10)

-- The expiries from today on.
abbrev pub is_future : ℕ → Expiry → Bool
is_future today e = leb today e.ordinal

-- `future.index(exp)`
unfoldable pub index_of : ℕ → List Expiry → ℕ
index_of ordinal [] = 0
index_of ordinal (e ∷ es) = if eqb e.ordinal ordinal then 0 else suc (index_of ordinal es)

-- Whether an expiry is the last one or the next one lies in another month.
unfoldable pub ends_month : List Expiry → Expiry → Bool
unfolding index_of
ends_month future e = elim (get_elem? future (index_of e.ordinal future + 1)) [
  | none ↦ true
  | some after ↦ not (eqb after.month e.month)
]

unfoldable pub find_expiry : (Expiry → Bool) → List Expiry → Option Expiry
find_expiry p [] = none
find_expiry p (e ∷ es) = if p e then some e else find_expiry p es

-- `future[-1]` of a list that is not empty.
abbrev pub last_of : Expiry → List Expiry → Expiry
last_of e [] = e
last_of e (f ∷ fs) = last_of f fs

unfoldable pub choose_expiry : Preference → List Expiry → Option Expiry
unfolding ends_month find_expiry
choose_expiry p [] = none
choose_expiry current_week (e ∷ es) = some e
choose_expiry next_week (e ∷ []) = some e
choose_expiry next_week (e ∷ f ∷ es) = some f
choose_expiry monthly (e ∷ es) = elim (find_expiry (ends_month (e ∷ es)) (e ∷ es)) [
  | none ↦ some (last_of e es)
  | some found ↦ some found
]

unfoldable pub derive_expiry : Registry → TradingClient → ℕ → String → Option Expiry
unfolding choose_expiry
derive_expiry reg c today underlying =
    if reg.is_loaded underlying
    then choose_expiry c.expiry_preference (keep (is_future today) (reg.all_expiries underlying))
    else none

abbrev pub or_mock : Option String → String
or_mock none = "mock"
or_mock (some provider) = provider

-- Where the registry raises, its answer is `none`.
unfoldable pub translate : Registry → TradingClient → ℕ → Signal → String → Option String
unfolding derive_expiry
translate reg c today sig binding =
    reg.get_broker_symbol sig.underlying (derive_expiry reg c today sig.underlying)
      sig.target_strike sig.option_type (or_mock (lookup binding c.providers))

abbrev pub is_enabled : String → List String → Bool
is_enabled letter [] = false
is_enabled letter (s ∷ ss) = (s == letter) || is_enabled letter ss

-- A broker of the worker: its trading mode and its state.
pub record Handle (B : Type 0) : Type 0 where
  pub trading_mode : String
  pub state : B

-- The calls of a broker, over its state; a call that raises gives `none`.
pub record Calls (B F : Type 0) : Type 0 where
  pub acquire : B → B
  pub place_order : Request → B → Option String × B
  pub get_order_status : String → B → Option F × B

module _ {B F : Type 0} (calls : Calls B F) where
  -- The fill that is published and recorded as a trade, if none of the calls raises.
  unfoldable pub place : Request → B → Option F × B
  place req b =
      let (id, b') = calls.place_order req (calls.acquire b) in
      elim id [ none ↦ (none, b') | some oid ↦ calls.get_order_status oid (calls.acquire b') ]

  module _ (reg : Registry) (c : TradingClient) (today : ℕ) (lot_sizes : Dict String ℕ)
      (sig : Signal) where
    -- The order for one binding, if there is one.
    unfoldable pub request_for : String → String → Option Request
    unfolding translate compute_lots
    request_for binding trading_mode =
        if trading_mode == "paper" then none else elim (translate reg c today sig binding) [
          | none ↦ none
          | some symbol ↦
              let lot_size = lot_size_of lot_sizes sig.underlying in
              let lots = compute_lots c lot_size in
              if leb lots 0
              then none
              else some (record {
                broker_symbol = symbol;
                exchange = if sig.underlying == "SENSEX" then "BFO" else "NFO";
                qty = lots * lot_size;
              })
        ]

    unfoldable pub serve_one : String → Handle B → List F × Handle B
    unfolding request_for place
    serve_one binding h = elim (request_for binding h.trading_mode) [
      | none ↦ ([], h)
      | some req ↦
          let (fill, b) = place req h.state in
          (elim fill [ none ↦ [] | some f ↦ f ∷ [] ], record h { state = b })
    ]

    -- The loop over the brokers, with the fills in the order in which they are published.
    unfoldable pub serve_all : List F → Dict String (Handle B) → List F × Dict String (Handle B)
    unfolding serve_one
    serve_all fills [] = (fills, [])
    serve_all fills ((binding, h) ∷ rest) =
        let (more, h') = serve_one binding h in
        let (all, rest') = serve_all (fills ++ more) rest in (all, (binding, h') ∷ rest')

    -- `_process`; the trades that it records are its fills.
    unfoldable pub process :
        (String → String)
        → (String → String)
        → Dict String (Handle B)
        → List F × Dict String (Handle B)
    unfolding serve_all strategy_letter
    process initial upper brokers =
        if is_enabled (strategy_letter initial sig.source) (map upper c.enabled_strategies)
        then serve_all [] brokers
        else ([], brokers)
