-- ===== src/Workers/Sizing.antt =====
-- The size of an order of ClientExecutionWorker in execution_bridge/parallel_worker_pool.py, and
-- that the bindings of a client do not touch each other.
use Prim.Native.String.{String}
use native.Mathlib.Decide.{dec_lt}
use native.Mathlib.Nat.{div-mul-le_self, mul-le-mul_right}
use option_chain_based_strat.Common.{
  ◌≡◌, refl, ap, ◌∙◌, sym, ℕ, ◌*◌, ◌/◌, ◌≤◌, ◌<◌, Option, none, some, List, [], ◌∷◌, ◌++◌,
  string_eq, ◌==◌, min, max, arith, inl, inr, Bool-cases, map, if_true, if_false,
}
use option_chain_based_strat.Common.Dict.{Dict, lookup}
use option_chain_based_strat.Workers.Orders.{
  TradingClient, Registry, Signal, Handle, Calls, allowed_lots, risk_per_lot, compute_lots,
  serve_one, serve_all, process, strategy_letter, is_enabled,
}

capped : (q unit budget : ℕ) → q * unit ≤ budget → max 1 (min q 10) * unit ≤ max unit budget
capped q unit budget h = elim (dec_lt 1 q) [
  | yes more ↦
      let n = max 1 (min q 10) in
      let few : n ≤ q = omega arith in
      let le : n * unit ≤ q * unit = mul-le-mul_right unit few in omega (arith, le, h)
  | no one ↦
      let n : max 1 (min q 10) ≡ 1 = omega arith in
      let same : max 1 (min q 10) * unit ≡ 1 * unit = ap (λ k. k * unit) n in omega (arith, same)
]

-- With lots of at least one unit an order is for 1 to 10 lots, and it risks no more than the client's
-- risk for a trade times its size multiplier, or than a single lot does.
pub compute_lots-bounds :
    (c : TradingClient) (lot_size : ℕ)
    → 0 < lot_size
    → (1 ≤ compute_lots c lot_size)
      × (compute_lots c lot_size ≤ 10)
      × (compute_lots c lot_size * (1_000_000 * risk_per_lot lot_size)
          ≤ max
              (1_000_000 * risk_per_lot lot_size)
              (c.capital * c.max_risk_per_trade_pct * c.size_multiplier))
unfolding compute_lots allowed_lots
compute_lots-bounds c lot_size h =
    let budget = c.capital * c.max_risk_per_trade_pct * c.size_multiplier in
    let unit = 1_000_000 * risk_per_lot lot_size in
    let sized : compute_lots c lot_size ≡ max 1 (min (budget / unit) 10) = ground arith in
    rw sized
      (omega arith, omega arith, capped (budget / unit) unit budget (div-mul-le_self budget unit))

module _ {B F : Type 0} (calls : Calls B F) (reg : Registry) (c : TradingClient) (today : ℕ)
    (lot_sizes : Dict String ℕ) (sig : Signal) where
  -- What a signal makes of one broker alone.
  alone : String → Option (Handle B) → Option (Handle B)
  alone binding none = none
  alone binding (some h) = some (serve_one calls reg c today lot_sizes sig binding h).1

  lookup-serve_all :
      (binding : String) (fills : List F) (brokers : Dict String (Handle B))
      → lookup binding (serve_all calls reg c today lot_sizes sig fills brokers).1
        ≡ alone binding (lookup binding brokers)
  unfolding serve_all alone
  lookup-serve_all binding fills [] = refl
  lookup-serve_all binding fills ((j, h) ∷ rest) = elim (Bool-cases (j == binding)) [
    | inl hit ↦
        if_true (some (serve_one calls reg c today lot_sizes sig j h).1)
          (lookup binding
            (serve_all calls reg c today lot_sizes sig
              (fills ++ (serve_one calls reg c today lot_sizes sig j h).0) rest).1)
          hit
        ∙ ap (λ k. some (serve_one calls reg c today lot_sizes sig k h).1)
            ((string_eq.same_iff j binding).0 hit)
        ∙ ap (alone binding) (sym (if_true (some h) (lookup binding rest) hit))
    | inr miss ↦
        if_false (some (serve_one calls reg c today lot_sizes sig j h).1)
          (lookup binding
            (serve_all calls reg c today lot_sizes sig
              (fills ++ (serve_one calls reg c today lot_sizes sig j h).0) rest).1)
          miss
        ∙ lookup-serve_all binding (fills ++ (serve_one calls reg c today lot_sizes sig j h).0) rest
        ∙ ap (alone binding) (sym (if_false (some h) (lookup binding rest) miss))
  ]

  -- Whether and what a signal orders at one broker, and what that broker makes of it, does not
  -- depend on the other brokers of the client, on what they raise, or on their fills.
  pub process-apart :
      (initial upper : String → String) (binding : String) (d e : Dict String (Handle B))
      → lookup binding d ≡ lookup binding e
      → lookup binding (process calls reg c today lot_sizes sig initial upper d).1
        ≡ lookup binding (process calls reg c today lot_sizes sig initial upper e).1
  unfolding process
  process-apart initial upper binding d e same =
      elim (Bool-cases
        (is_enabled (strategy_letter initial sig.source) (map upper c.enabled_strategies))) [
          | inr off ↦ rw off same
          | inl on ↦ rw on (
              lookup-serve_all binding [] d
              ∙ ap (alone binding) same
              ∙ sym (lookup-serve_all binding [] e))
        ]
