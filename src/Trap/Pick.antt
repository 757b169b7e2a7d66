-- ===== src/Trap/Pick.antt =====
-- select_best_ltf_entry and select_fresh_ltf_entry of strategies/trap_scanner/scanner.py. The text of
-- a timestamp orders as the timestamp does, and `""`, which stands for none, comes before all.
use option_chain_based_strat.Common.{
  ℕ, suc, Bool, true, false, ◌&&◌, ◌||◌, Option, none, some, List, [], ◌∷◌, ltb, leb, eqb,
  if◌then◌else◌, keep,
}
use option_chain_based_strat.Trap.Bars.{Entry}
use option_chain_based_strat.Trap.Scan.{is_closed, is_trapped}
pub mod Choice

pub data OptType : Type 0 where
  ce pe : OptType

-- `_ts`
abbrev pub ts : Option ℕ → ℕ
ts none = 0
ts (some t) = suc t

-- `min(xs, key=…)`: the first of the least.
unfoldable pub first_min : (Entry → ℕ) → Entry → List Entry → Entry
first_min key best [] = best
first_min key best (x ∷ xs) = first_min key (if ltb (key x) (key best) then x else best) xs

-- `sorted(xs, key=…)[-1]`: the last of the greatest, since the sort is stable.
unfoldable pub last_max : (Entry → Entry → Bool) → Entry → List Entry → Entry
last_max leq best [] = best
last_max leq best (x ∷ xs) = last_max leq (if leq best x then x else best) xs

unfoldable pub min_by : (Entry → ℕ) → List Entry → Option Entry
unfolding first_min
min_by key [] = none
min_by key (x ∷ xs) = some (first_min key x xs)

unfoldable pub max_by : (Entry → Entry → Bool) → List Entry → Option Entry
unfolding last_max
max_by leq [] = none
max_by leq (x ∷ xs) = some (last_max leq x xs)

unfoldable pub select_best_ltf_entry : List Entry → Option Entry
unfolding min_by
select_best_ltf_entry entries = min_by (λ e. e.zone_low) (keep (λ e. is_closed e.status) entries)

-- The keys `(trapped_on, zone_low)` and `(trapped_on, -zone_high)`, compared as tuples.
abbrev pub deeper : OptType → Entry → Entry → Bool
deeper ce a b =
    ltb (ts a.trapped_on) (ts b.trapped_on)
    || (eqb (ts a.trapped_on) (ts b.trapped_on) && leb a.zone_low b.zone_low)
deeper pe a b =
    ltb (ts a.trapped_on) (ts b.trapped_on)
    || (eqb (ts a.trapped_on) (ts b.trapped_on) && leb b.zone_high a.zone_high)

abbrev pub closed_before : Entry → Entry → Bool
closed_before a b = leb (ts a.closed_on) (ts b.closed_on)

abbrev pub formed_after : ℕ → Entry → Bool
formed_after last e = ltb last (suc e.ref_ts)

-- `_best_among` on the zones that are left after the last closed one.
unfoldable pub fresh_among : OptType → Option Entry → List Entry → Option Entry
unfolding max_by
fresh_among opt none trapped = max_by (deeper opt) trapped
fresh_among opt (some last) trapped =
    max_by (deeper opt) (keep (formed_after (ts last.closed_on)) trapped)

unfoldable pub select_fresh_ltf_entry : OptType → List Entry → Option Entry
unfolding fresh_among
select_fresh_ltf_entry opt entries =
    fresh_among opt (max_by closed_before (keep (λ e. is_closed e.status) entries))
      (keep (λ e. is_trapped e.status) entries)
