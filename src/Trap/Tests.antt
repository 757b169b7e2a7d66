-- ===== src/Trap/Tests.antt =====
-- The scanner on a few bars.
use option_chain_based_strat.Common.{
  ℕ, ◌≡◌, refl, true, false, none, some, List, [], ◌∷◌, ◌++◌, map,
}
use option_chain_based_strat.Common.Int.{pos}
use option_chain_based_strat.Trap.Bars.{Bar, trapped, closed, bear, Entry}
use option_chain_based_strat.Trap.Scan.{make, scan_htf, new_bear, new_bull}
use option_chain_based_strat.Trap.Scan.Fate.{core, setups, scan_htf-setups}
use option_chain_based_strat.Trap.Scan.Journal.{Inv, scan_htf-Inv}
use option_chain_based_strat.Trap.Ltf.{make_ltf_bull, scan_bull_bars, scan_bull_bars-setups}
use option_chain_based_strat.Trap.Pick.{ce, select_fresh_ltf_entry}
use option_chain_based_strat.Trap.Pick.Choice.{Chooses, select_fresh_ltf_entry-Chooses}
use option_chain_based_strat.Trap.Replay.{Plan, walk}
use option_chain_based_strat.Trap.Replay.Walk.{until_stop, any_t1, last_bar, told, walk_lem}
use option_chain_based_strat.Trap.Backtest.{Setup, Options, Calendar, backtest}
use option_chain_based_strat.Trap.Backtest.Spacing.{Spaced, backtest-Spaced}

abbrev bar : ℕ → ℕ → ℕ → ℕ → Bar
bar t h l c = record { time = t; high = h; low = l; close = c }

-- The second bar opens a setup at 90 with a stop at 100, the third traps it, the fourth closes it.
abbrev day : List Bar
day = bar 2 95 80 85 ∷ bar 3 110 92 108 ∷ bar 4 109 88 90 ∷ []

abbrev first : Bar
first = bar 1 100 90 95

scan_htf-setups_example :
    map core (scan_htf (first ∷ day)).0 ≡ setups false (new_bear make) first day
scan_htf-setups_example = scan_htf-setups first day

scan_htf-Inv_example : Inv (scan_htf (first ∷ day)).0 (scan_htf (first ∷ day)).1
scan_htf-Inv_example = scan_htf-Inv (first ∷ day)

scan_bull_bars-setups_example :
    map core (scan_bull_bars (first ∷ day)).0 ≡ setups true (new_bull make_ltf_bull) first day
scan_bull_bars-setups_example = scan_bull_bars-setups first day

abbrev zone : Entry
zone = record {
  kind = bear;
  ref_ts = 1;
  entry = 90;
  sl = 100;
  zone_high = 90;
  zone_low = 80;
  zone_trigger = some 250;
  status = closed;
  trapped_on = some 3;
  closed_on = some 4;
  event_idx = some 0;
}

abbrev later_zone : Entry
later_zone = record zone { ref_ts = 6; status = trapped; trapped_on = some 7; closed_on = none }

select_fresh_ltf_entry-Chooses_example :
    Chooses ce (zone ∷ later_zone ∷ []) (select_fresh_ltf_entry ce (zone ∷ later_zone ∷ []))
select_fresh_ltf_entry-Chooses_example = select_fresh_ltf_entry-Chooses ce (zone ∷ later_zone ∷ [])

select_fresh_ltf_entry_later : select_fresh_ltf_entry ce (zone ∷ later_zone ∷ []) ≡ some later_zone
unfolding select_fresh_ltf_entry
select_fresh_ltf_entry_later = refl

abbrev long : Plan
long = record { entry_price = 90; sl_price = pos 79; t1_price = 100; units = 10 }

abbrev fall : List Bar
fall = bar 5 101 95 99 ∷ bar 6 96 70 75 ∷ []

walk_lem_example :
    walk long false first fall
    ≡ told long
        (any_t1 long (until_stop long fall).0)
        (last_bar first fall)
        (until_stop long fall).1
walk_lem_example = walk_lem long first fall

abbrev clock : Calendar
clock = record { day = λ t. 0; minute = λ t. t }

abbrev plain : Options
plain = record {
  buffer = 1;
  units = 10;
  max_entry_time = none;
  min_rr = 0;
  min_zone_width = 0;
  df_map = [];
}

abbrev traded : List Setup
traded = record { zone = zone; htf_target = 0; df_key = "" } ∷ []

backtest-Spaced_example :
    Spaced clock plain (day ++ fall) none (backtest clock plain (day ++ fall) traded)
backtest-Spaced_example = backtest-Spaced clock plain (day ++ fall) traded
