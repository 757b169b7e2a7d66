-- ===== src/Trap/Bars.antt =====
-- The rows of the data frames that strategies/trap_scanner/scanner.py reads and writes. A price is a
-- whole number of paise, which is what `round(x, 2)` leaves of it, and a time is a number that only
-- orders bars.
use option_chain_based_strat.Common.{ℕ, Option, Bool}

-- A row of the OHLCV frame; the scanner never reads `open` and `volume`.
pub record Bar : Type 0 where
  pub time : ℕ
  pub high : ℕ
  pub low : ℕ
  pub close : ℕ

pub data Status : Type 0 where
  active trapped closed : Status

pub data Kind : Type 0 where
  bear bull : Kind

-- The dict of one setup. `zone_trigger` is counted in thirds of a paisa, so that the division by 3
-- is exact; the scans of the spot price do not set it.
pub record Entry : Type 0 where
  pub kind : Kind
  pub ref_ts : ℕ
  pub entry : ℕ
  pub sl : ℕ
  pub zone_high : ℕ
  pub zone_low : ℕ
  pub zone_trigger : Option ℕ
  pub status : Status
  pub trapped_on : Option ℕ
  pub closed_on : Option ℕ
  pub event_idx : Option ℕ

-- A row of the events frame. `your_entry` is the trigger, rounded to a paisa.
pub record Event : Type 0 where
  pub kind : Kind
  pub trap_bar : ℕ
  pub ref_bar : ℕ
  pub entry_level : ℕ
  pub sl_level : ℕ
  pub zone_high : ℕ
  pub zone_low : ℕ
  pub your_entry : Option ℕ
  pub is_open : Bool
  pub close_bar : Option ℕ
