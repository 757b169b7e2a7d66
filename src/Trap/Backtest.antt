-- ===== src/Trap/Backtest.antt =====
-- backtest of strategies/trap_scanner/scanner.py. A time is a number of minutes of which `day` and
-- `minute` give the date and the minute of the day. The columns of a trade that only copy keys of
-- its entry are left out.
use Prim.Native.String.{String}
use option_chain_based_strat.Common.{
  ℕ, ◌+◌, ◌*◌, ◌-◌, Bool, true, false, not, ◌||◌, ◌&&◌, Option, none, some, List, [], ◌∷◌, ltb, leb,
  eqb, if◌then◌else◌, keep, sort_by, get_last?, is_some, string_eq,
}
use option_chain_based_strat.Common.Int.{ℤ, pos, ◌+ℤ◌, ◌-ℤ◌, ◌*ℤ◌, sub_ℕ, leb_ℤ, ltb_ℤ, max_ℤ}
use option_chain_based_strat.Common.Dict.{Dict, lookup}
use option_chain_based_strat.Trap.Bars.{Bar, Status, active, trapped, closed, Entry}
use option_chain_based_strat.Trap.Scan.{is_active}
pub mod Spacing

-- A setup with the keys that `backtest` reads beside those of the scan. A target of 0 counts as
-- missing, as it does in the `or`.
pub record Setup : Type 0 where
  pub zone : Entry
  pub htf_target : ℕ
  pub df_key : String

pub data Reason : Type 0 where
  sl target squareoff : Reason

pub record Trade : Type 0 where
  pub entry_ts : ℕ
  pub exit_ts : ℕ
  pub entry_price : ℕ
  pub target_price : ℕ
  pub sl_price : ℤ
  pub exit_price : ℤ
  pub reason : Reason
  pub pnl : ℤ

-- The keyword arguments. `max_entry_time` is a minute of the day; `min_rr` is in hundredths, and 0
-- turns it off, as 0 turns `min_zone_width` off.
pub record Options : Type 0 where
  pub buffer : ℕ
  pub units : ℕ
  pub max_entry_time : Option ℕ
  pub min_rr : ℕ
  pub min_zone_width : ℕ
  pub df_map : Dict String (List Bar)

-- A time taken apart: the date, and the minute of the day.
pub record Calendar : Type 0 where
  pub day : ℕ → ℕ
  pub minute : ℕ → ℕ

abbrev pub target_of : Setup → ℕ
target_of s = if eqb s.htf_target 0 then s.zone.sl else s.htf_target

abbrev pub stop_of : Options → Setup → ℤ
stop_of o s = sub_ℕ s.zone.zone_low o.buffer

-- `open_until is not None and entry_ts <= open_until`
abbrev pub still_open : Option ℕ → ℕ → Bool
still_open none ts = false
still_open (some u) ts = leb ts u

abbrev pub too_late : Calendar → Option ℕ → ℕ → Bool
too_late cal none ts = false
too_late cal (some m) ts = leb m (cal.minute ts)

-- The zone's width is signed: a bull zone or a bad bar may have its ends exchanged.
abbrev pub too_narrow : Options → Setup → Bool
too_narrow o s =
    ltb 0 o.min_zone_width && ltb_ℤ (sub_ℕ s.zone.zone_high s.zone.zone_low) (pos o.min_zone_width)

-- `(target - entry_price) / risk < min_rr`, where the risk is at least 0.01.
abbrev pub poor_reward : Options → Setup → Bool
poor_reward o s =
    let risk = max_ℤ (pos s.zone.entry -ℤ stop_of o s) (pos 1) in
    ltb 0 o.min_rr && ltb_ℤ (sub_ℕ (target_of s) s.zone.entry *ℤ pos 100) (pos o.min_rr *ℤ risk)

-- `df_map.get(key, df) if df_map else df`
abbrev pub frame_of : Options → List Bar → Setup → List Bar
frame_of o df s = elim (lookup s.df_key o.df_map) [ none ↦ df | some f ↦ f ]

-- `future`: the later bars of the same day.
abbrev pub future : Calendar → ℕ → List Bar → List Bar
future cal ts df = keep (λ b. ltb ts b.time && eqb (cal.day b.time) (cal.day ts)) df

-- The exit price, its reason and its time.
abbrev pub Exit : Type 0
Exit = ℤ × Reason × ℕ

-- The loop over the future bars.
unfoldable pub find_exit : ℤ → ℕ → List Bar → Option Exit
find_exit stop goal [] = none
find_exit stop goal (b ∷ bars) =
    let rest = find_exit stop goal bars in
    if leb_ℤ (pos b.low) stop
    then some (stop, sl, b.time)
    else if leb goal b.high
    then some (pos goal, target, b.time)
    else rest

abbrev pub close_at : Option Bar → Option Exit
close_at none = none
close_at (some b) = some (pos b.close, squareoff, b.time)

abbrev pub head? : List Bar → Option Bar
head? [] = none
head? (b ∷ bars) = some b

-- The square-off: at the last future bar, or else at the first bar of the entry's own time.
abbrev pub or_square_off : Option Exit → ℕ → List Bar → List Bar → Option Exit
or_square_off (some x) ts later df = some x
or_square_off none ts [] df = close_at (head? (keep (λ b. eqb b.time ts) df))
or_square_off none ts (b ∷ later) df = close_at (get_last? (b ∷ later))

unfoldable pub exit_of : Calendar → Options → List Bar → Setup → ℕ → Option Exit
unfolding find_exit
exit_of cal o df s ts =
    let frame = frame_of o df s in
    let later = future cal ts frame in
    or_square_off (find_exit (stop_of o s) (target_of s) later) ts later frame

-- The five `continue`s before the exit is looked for, the first for a setup that was never trapped.
abbrev pub passed_over : Calendar → Options → Option ℕ → Setup → ℕ → Bool
passed_over cal o open_until s ts =
    not (is_some s.zone.trapped_on)
    || (still_open open_until ts
        || (too_late cal o.max_entry_time ts || (too_narrow o s || poor_reward o s)))

abbrev pub trade_at : Options → Setup → ℕ → Exit → Trade
trade_at o s ts (price, why, exit_ts) = record {
  entry_ts = ts;
  exit_ts = exit_ts;
  entry_price = s.zone.entry;
  target_price = target_of s;
  sl_price = stop_of o s;
  exit_price = price;
  reason = why;
  pnl = (price -ℤ pos s.zone.entry) *ℤ pos o.units;
}

-- The loop over the eligible setups, each with its closing time.
unfoldable pub trade_all : Calendar → Options → List Bar → Option ℕ → List (Setup × ℕ) → List Trade
unfolding exit_of
trade_all cal o df open_until [] = []
trade_all cal o df open_until ((s, ts) ∷ rest) = elim (passed_over cal o open_until s ts) [
  | true ↦ trade_all cal o df open_until rest
  | false ↦ elim (exit_of cal o df s ts) [
    | none ↦ trade_all cal o df open_until rest
    | some x ↦ trade_at o s ts x ∷ trade_all cal o df (some x.2) rest
  ]
]

-- The setups that are trapped or closed and have a closing time.
abbrev pub eligible : List Setup → List (Setup × ℕ)
eligible [] = []
eligible (s ∷ ss) = elim s.zone.closed_on [
  | none ↦ eligible ss
  | some t ↦ elim (is_active s.zone.status) [ true ↦ eligible ss | false ↦ (s, t) ∷ eligible ss ]
]

unfoldable pub backtest : Calendar → Options → List Bar → List Setup → List Trade
unfolding trade_all
backtest cal o df setups = trade_all cal o df none (sort_by (λ e. e.1) (eligible setups))
