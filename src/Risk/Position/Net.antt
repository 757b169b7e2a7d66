-- ===== src/Risk/Position/Net.antt =====
-- What a position holds after a run of fills.
use option_chain_based_strat.Common.{
  ℕ, ◌<◌, ◌≡◌, refl, ap, ◌∙◌, Option, none, some, List, [], ◌∷◌, arith, All,
}
use option_chain_based_strat.Common.Int.{ℤ, pos, sub_ℕ, ◌+ℤ◌, int_laws}
use option_chain_based_strat.Executor.Orders.{OrderSide, buy, sell}
use option_chain_based_strat.Risk.Amount.{Amount}
use option_chain_based_strat.Risk.Position.{
  Fill, Position, extended, reduced, filled, update_mark, apply_fill, apply_fills,
}

-- A position has a side exactly while it is open.
abbrev pub Sided : ℕ → Option OrderSide → Type 0
Sided qty none = qty ≡ 0
Sided qty (some side) = 0 < qty

-- The quantity with its sign: what is bought less what is sold.
abbrev pub signed : ℕ → Option OrderSide → ℤ
signed n (some buy) = pos n
signed n (some sell) = sub_ℕ 0 n
signed n none = pos 0

abbrev pub net : Position → ℤ
net p = signed p.qty p.side

module _ (qty : ℕ) (price : Amount) where
  filled-Sided :
      (side : OrderSide) (o : Option OrderSide) (p : Position)
      → p.side ≡ o
      → 0 < qty
      → Sided p.qty o
      → Sided (filled side qty price p).qty (filled side qty price p).side
  unfolding filled extended reduced
  filled-Sided buy none p e h s = ground (arith, e, s)
  filled-Sided buy (some buy) p e h s = ground (arith, e, s)
  filled-Sided buy (some sell) p e h s = ground (arith, e, s)
  filled-Sided sell none p e h s = ground (arith, e, s)
  filled-Sided sell (some buy) p e h s = ground (arith, e, s)
  filled-Sided sell (some sell) p e h s = ground (arith, e, s)

  filled-net :
      (side : OrderSide) (o : Option OrderSide) (p : Position)
      → p.side ≡ o
      → Sided p.qty o
      → net (filled side qty price p) ≡ net p +ℤ signed qty (some side)
  unfolding filled extended reduced ◌+ℤ◌
  filled-net buy none p e s = ground (arith, e, s)
  filled-net buy (some buy) p e s = ground (arith, e, s)
  filled-net buy (some sell) p e s = ground (arith, e, s)
  filled-net sell none p e s = ground (arith, e, s)
  filled-net sell (some buy) p e s = ground (arith, e, s)
  filled-net sell (some sell) p e s = ground (arith, e, s)

abbrev pub total : List Fill → ℤ
total [] = pos 0
total (f ∷ fs) = signed f.qty (some f.side) +ℤ total fs

-- From a position that has a side exactly if it is open, fills of at least one unit lead to such a
-- position; and its quantity, with the sign of its side, is the one before and what the fills bought
-- less what they sold, through every opening, addition, reduction and reversal.
pub apply_fills-net :
    (fs : List Fill) (p : Position)
    → Sided p.qty p.side
    → All (λ f. 0 < f.qty) fs
    → let r = apply_fills fs p in (Sided r.qty r.side) × (net r ≡ net p +ℤ total fs)
unfolding apply_fills apply_fill update_mark
apply_fills-net [] p s h = (s, grind int_laws)
apply_fills-net (f ∷ fs) p s (h, hs) =
    let side = filled-Sided f.qty f.avg_price f.side p.side p refl h s in
    let moved = filled-net f.qty f.avg_price f.side p.side p refl s in
    let (ok, sum) = apply_fills-net fs (apply_fill f p) side hs in
    (
      ok,
      sum
          ∙ ap (λ z. z +ℤ total fs) moved
          ∙ +ℤ_assoc (net p) (signed f.qty (some f.side)) (total fs),
    )
  where
    +ℤ_assoc : (a b c : ℤ) → (a +ℤ b) +ℤ c ≡ a +ℤ (b +ℤ c)
    +ℤ_assoc a b c = grind int_laws
