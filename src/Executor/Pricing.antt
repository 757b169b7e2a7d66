-- ===== src/Executor/Pricing.antt =====
-- _round_tick and the slippage ladder of execute_leg in execution_bridge/smart_executor.py. Where the
-- source divides, a fraction is kept as a numerator over a positive denominator.
use option_chain_based_strat.Common.{
  ℕ, ◌+◌, ◌-◌, ◌*◌, ◌≤◌, ◌<◌, ◌≡◌, ap, false, arith, eqb, if◌then◌else◌, max,
}
use native.Mathlib.Nat.{mul-le-mul_right, le_antisymm, le_refl}
use option_chain_based_strat.Common.Round.{round_div, round_div-ge, round_div-le}
use option_chain_based_strat.Executor.Orders.{OrderSide, buy, sell}

abbrev pub cent : ℕ
cent = 1_000_000

-- `_round_tick(n / d, tick)`; a tick of 0 is none.
unfoldable pub round_tick : ℕ → ℕ → ℕ → ℕ
unfolding round_div
round_tick n d tick =
    if eqb tick 0 then round_div n (d * cent) * cent else round_div n (d * tick) * tick

-- The numerator of `mid + (touch - mid) * attempt / c` over 2 * c, where c = max(chases, 1) and
-- `mid` is (bid + ask) / 2.
abbrev pub touch : OrderSide → ℕ → ℕ → ℕ
touch sell bid ask = bid
touch buy bid ask = ask

unfoldable pub ladder : OrderSide → ℕ → ℕ → ℕ → ℕ → ℕ
ladder side bid ask attempt c = (bid + ask) * (c - attempt) + 2 * touch side bid ask * attempt

-- `price` of one attempt.
unfoldable pub limit_price : OrderSide → ℕ → ℕ → ℕ → ℕ → ℕ → ℕ
unfolding ladder round_tick
limit_price side bid ask attempt chases tick =
    let c = max chases 1 in round_tick (ladder side bid ask attempt c) (2 * c) tick

ladder_ge :
    (side : OrderSide) (bid ask attempt left : ℕ)
    → bid ≤ ask
    → bid * (2 * (attempt + left)) ≤ (bid + ask) * left + 2 * touch side bid ask * attempt
ladder_ge sell bid ask attempt left h = omega (arith, mul-le-mul_right left h)
ladder_ge buy bid ask attempt left h =
    omega (arith, mul-le-mul_right left h, mul-le-mul_right attempt h)

ladder_le :
    (side : OrderSide) (bid ask attempt left : ℕ)
    → bid ≤ ask
    → (bid + ask) * left + 2 * touch side bid ask * attempt ≤ ask * (2 * (attempt + left))
ladder_le sell bid ask attempt left h =
    omega (arith, mul-le-mul_right left h, mul-le-mul_right attempt h)
ladder_le buy bid ask attempt left h = omega (arith, mul-le-mul_right left h)

round_tick_bounds :
    (n d tick lo hi : ℕ)
    → 0 < d
    → 0 < tick
    → lo * tick * d ≤ n
    → n ≤ hi * tick * d
    → (lo * tick ≤ round_tick n d tick) × (round_tick n d tick ≤ hi * tick)
unfolding round_tick
round_tick_bounds n d tick lo hi pd pt above below =
    let on : eqb tick 0 ≡ false = ground arith in
    let pos_ : 0 < d * tick = grind arith in
    rw on (
      mul-le-mul_right tick (unfold round_tick in round_div-ge n (d * tick) lo pos_ (omega arith)),
      mul-le-mul_right tick (unfold round_tick in round_div-le n (d * tick) hi pos_ (omega arith)),
    )

limit_price_between :
    (side : OrderSide) (b a tick attempt c : ℕ)
    → b ≤ a
    → 0 < tick
    → attempt ≤ c
    → 0 < c
    → let price = round_tick (ladder side (b * tick) (a * tick) attempt c) (2 * c) tick in
      (b * tick ≤ price) × (price ≤ a * tick)
limit_price_between side b a tick attempt c spread pt k pc =
    let wide = mul-le-mul_right tick spread in
    let whole : attempt + (c - attempt) ≡ c = omega arith in
    round_tick_bounds (ladder side (b * tick) (a * tick) attempt c) (2 * c) tick b a (omega arith)
      pt
      (unfold ladder in
        omega (
          arith,
          ladder_ge side (b * tick) (a * tick) attempt (c - attempt) wide,
          ap (λ (t : ℕ). b * tick * (2 * t)) whole,
        ))
      (unfold ladder in
        omega (
          arith,
          ladder_le side (b * tick) (a * tick) attempt (c - attempt) wide,
          ap (λ (t : ℕ). a * tick * (2 * t)) whole,
        ))

-- With a bid and an ask on the grid of a tick above 0, the bid no higher than the ask, no attempt up
-- to the last one is priced outside of the spread:
-- a sale is never offered under the bid, and a purchase never above the ask.
pub limit_price_bounds :
    (side : OrderSide) (b a tick attempt chases : ℕ)
    → b ≤ a
    → 0 < tick
    → attempt ≤ max chases 1
    → (b * tick ≤ limit_price side (b * tick) (a * tick) attempt chases tick)
      × (limit_price side (b * tick) (a * tick) attempt chases tick ≤ a * tick)
unfolding limit_price
limit_price_bounds side b a tick attempt chases spread pt k =
    limit_price_between side b a tick attempt (max chases 1) spread pt k (omega arith)

round_div_exact : (k d : ℕ) → 0 < d → round_div (k * d) d ≡ k
round_div_exact k d h =
    le_antisymm (round_div-le (k * d) d k h (le_refl _)) (round_div-ge (k * d) d k h (le_refl _))

round_tick_exact :
    (k d tick n : ℕ) → 0 < d → 0 < tick → n ≡ k * tick * d → round_tick n d tick ≡ k * tick
round_tick_exact k d tick n pd pt e =
    let (low, high) = round_tick_bounds n d tick k k pd pt (omega arith) (omega arith) in
    le_antisymm high low

ladder_last :
    (side : OrderSide) (bid ask c : ℕ) → ladder side bid ask c c ≡ touch side bid ask * (2 * c)
unfolding ladder
ladder_last sell bid ask c = let none_left : c - c ≡ 0 = omega arith in rw none_left (omega arith)
ladder_last buy bid ask c = let none_left : c - c ≡ 0 = omega arith in rw none_left (omega arith)

-- With a bid and an ask on the grid of a tick above 0, and at least one chase, the last attempt is
-- priced at the touch: at the bid for a sale, at the ask for a purchase.
limit_price_last :
    (side : OrderSide) (b a tick chases : ℕ)
    → 0 < tick
    → 0 < chases
    → limit_price side (b * tick) (a * tick) chases chases tick ≡ touch side (b * tick) (a * tick)
unfolding limit_price
limit_price_last side b a tick chases pt pc =
    let c : max chases 1 ≡ chases = omega arith in rw c (last side)
  where
    last :
        (s : OrderSide)
        → round_tick (ladder s (b * tick) (a * tick) chases chases) (2 * chases) tick
          ≡ touch s (b * tick) (a * tick)
    last sell =
        round_tick_exact b (2 * chases) tick _ (omega arith) pt (ladder_last sell _ _ chases)
    last buy = round_tick_exact a (2 * chases) tick _ (omega arith) pt (ladder_last buy _ _ chases)
