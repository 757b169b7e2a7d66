-- ===== src/Trap/Replay.antt =====
-- simulate_today_trades of strategies/trap_scanner/scanner.py. Prices and the buffer are paise, the
-- stop and the profit are signed. `is_today` is the comparison with `date.today()`.
use option_chain_based_strat.Common.{
  ℕ, ◌+◌, ◌*◌, ◌/◌, ◌-◌, Bool, true, false, ◌||◌, ◌&&◌, Option, none, some, List, [], ◌∷◌, ltb, leb,
  if◌then◌else◌, keep, sort_by,
}
use option_chain_based_strat.Common.Int.{ℤ, pos, ◌+ℤ◌, ◌-ℤ◌, ◌*ℤ◌, sub_ℕ, leb_ℤ}
use option_chain_based_strat.Trap.Bars.{Bar, Status, closed, Entry}
use option_chain_based_strat.Trap.Scan.{is_closed, round_thirds}
pub mod Walk

pub data Outcome : Type 0 where
  open_trade sl_hit t1_sl t1_running squared_off : Outcome

pub record Trade : Type 0 where
  pub entry_price : ℕ
  pub entry_time : ℕ
  pub sl : ℤ
  pub t1 : ℕ
  pub result : Outcome
  pub exit_price : Option ℤ
  pub exit_time : Option ℕ
  pub pnl : ℤ
  pub units : ℕ

-- The prices and sizes that the loop over the bars does not change.
pub record Plan : Type 0 where
  pub entry_price : ℕ
  pub sl_price : ℤ
  pub t1_price : ℕ
  pub units : ℕ

-- `t1_units = units // 2`, `rem_units = units - t1_units`
abbrev pub t1_units : Plan → ℕ
t1_units p = p.units / 2

abbrev pub rem_units : Plan → ℕ
rem_units p = p.units - t1_units p

-- What the loop leaves: the result, the exit price and time, and the profit.
pub record Exit : Type 0 where
  pub result : Outcome
  pub price : ℤ
  pub time : ℕ
  pub pnl : ℤ

-- The profit on `n` units between two prices.
abbrev pub gain : ℤ → ℕ → ℕ → ℤ
gain exit entry n = (exit -ℤ pos entry) *ℤ pos n

-- The profit where the half `t1_units` left at T1, and the rest at a price.
abbrev pub split_gain : Plan → ℤ → ℤ
split_gain p price =
    gain (pos p.t1_price) p.entry_price (t1_units p) +ℤ gain price p.entry_price (rem_units p)

-- The branch that breaks the loop: the bar reached the stop.
unfoldable pub stopped : Plan → Bool → Bar → Exit
stopped p false b = record {
  result = sl_hit;
  price = p.sl_price;
  time = b.time;
  pnl = gain p.sl_price p.entry_price p.units;
}
stopped p true b = record {
  result = t1_sl;
  price = p.sl_price;
  time = b.time;
  pnl = split_gain p p.sl_price;
}

-- The `else` of the loop, at the last bar.
unfoldable pub ended : Plan → Bool → Bar → Exit
ended p true b = record {
  result = t1_running;
  price = pos b.close;
  time = b.time;
  pnl = split_gain p (pos b.close);
}
ended p false b = record {
  result = squared_off;
  price = pos b.close;
  time = b.time;
  pnl = gain (pos b.close) p.entry_price p.units;
}

abbrev pub at_stop : Plan → Bar → Bool
at_stop p b = leb_ℤ (pos b.low) p.sl_price

abbrev pub at_t1 : Plan → Bar → Bool
at_t1 p b = leb p.t1_price b.high

-- `for bar_ts, bar in df_fwd.iterrows()`, with the flag `t1_hit` and the bar before.
unfoldable pub walk : Plan → Bool → Bar → List Bar → Exit
unfolding stopped ended
walk p t1_hit last [] = ended p t1_hit last
walk p t1_hit last (b ∷ bars) =
    let rest = walk p (t1_hit || at_t1 p b) b bars in
    if at_stop p b then stopped p t1_hit b else rest

-- What is written of an entry whose zone closed at `closed_on`.
unfoldable pub replay : Plan → ℕ → List Bar → Trade
unfolding walk
replay p closed_on [] = record {
  entry_price = p.entry_price;
  entry_time = closed_on;
  sl = p.sl_price;
  t1 = p.t1_price;
  result = open_trade;
  exit_price = none;
  exit_time = none;
  pnl = pos 0;
  units = p.units;
}
replay p closed_on (b ∷ bars) =
    let x = walk p false b (b ∷ bars) in
    record {
      entry_price = p.entry_price;
      entry_time = closed_on;
      sl = p.sl_price;
      t1 = p.t1_price;
      result = x.result;
      exit_price = some x.price;
      exit_time = some x.time;
      pnl = x.pnl;
      units = p.units;
    }

abbrev pub plan : ℕ → ℕ → Entry → ℕ → Plan
plan buffer units e trigger = record {
  entry_price = trigger;
  sl_price = sub_ℕ e.zone_low buffer;
  t1_price = e.sl;
  units = units;
}

-- The loop over the eligible entries. A setup with no `zone_trigger` raises a KeyError: `none`.
unfoldable pub replay_all : (ℕ → Bool) → ℕ → ℕ → List Bar → List Entry → Option (List Trade)
unfolding replay
replay_all is_today buffer units df [] = some []
replay_all is_today buffer units df (e ∷ es) =
    let rest = replay_all is_today buffer units df es in
    elim e.closed_on [
      | none ↦ rest
      | some t ↦
          if is_closed e.status && is_today t
          then elim (round_thirds e.zone_trigger) [
            | none ↦ none
            | some trigger ↦ elim rest [
              | none ↦ none
              | some trades ↦
                  some
                    (replay (plan buffer units e trigger) t (keep (λ b. ltb t b.time) df) ∷ trades)
            ]
          ]
          else rest
    ]

unfoldable pub simulate_today_trades :
    (ℕ → Bool) → ℕ → ℕ → ℕ → List Entry → List Bar → Option (List Trade)
unfolding replay_all
simulate_today_trades is_today buffer lot_size qty entries [] = some []
simulate_today_trades is_today buffer lot_size qty entries (b ∷ bars) =
    elim (replay_all is_today buffer (qty * lot_size) (b ∷ bars) entries) [
      | none ↦ none
      | some trades ↦ some (sort_by (λ t. t.entry_time) trades)
    ]
