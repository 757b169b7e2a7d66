-- ===== src/Trap/Ltf.antt =====
-- scan_ltf and scan_ltf_bull of strategies/trap_scanner/scanner.py: a scan of the 5-minute bars that
-- lie in the zone of a trap of the higher timeframe. The factors 0.95 and 1.05 are exact fractions.
use option_chain_based_strat.Common.{
  ℕ, ◌+◌, ◌*◌, ◌≡◌, Bool, true, ◌&&◌, none, some, List, [], ◌∷◌, map, arith, ltb, leb,
  if◌then◌else◌, length, keep,
}
use option_chain_based_strat.Trap.Bars.{Bar, active, bull, Entry, Event}
use option_chain_based_strat.Trap.Scan.{new_bull, scan_from, scan_htf}
use option_chain_based_strat.Trap.Scan.Fate.{core, setups, scan_from-setups, Fresh}

-- The keys that tie a setup to the trap of the higher timeframe.
pub record Tags : Type 0 where
  pub htf_ref_bar : ℕ
  pub htf_trap_bar : ℕ
  pub htf_zone_high : ℕ
  pub htf_zone_low : ℕ
  pub htf_target : ℕ

abbrev pub in_bear_zone : Tags → Bar → Bool
in_bear_zone t b = leb b.low t.htf_zone_high && leb (95 * t.htf_zone_low) (100 * b.close)

abbrev pub in_bull_zone : Tags → Bar → Bool
in_bull_zone t b = leb t.htf_zone_low b.high && leb (100 * b.close) (105 * t.htf_zone_high)

abbrev pub tagged : Tags → List Entry × List Event → List (Tags × Entry) × List Event
tagged t (entries, events) = (map (λ e. (t, e)) entries, events)

unfoldable pub scan_ltf : Tags → List Bar → List (Tags × Entry) × List Event
scan_ltf t bars =
    let zone = keep (in_bear_zone t) bars in
    if ltb (length zone) 2 then ([], []) else tagged t (scan_htf zone)

-- The setup that scan_ltf_bull opens. In thirds the trigger, high - (high - low) / 3, is
-- 2 * high + low.
unfoldable pub make_ltf_bull : ℕ → ℕ → ℕ → ℕ → Entry
make_ltf_bull ref_ts entry sl next_high = record {
  kind = bull;
  ref_ts = ref_ts;
  entry = entry;
  sl = sl;
  zone_high = next_high;
  zone_low = entry;
  zone_trigger = some (2 * next_high + entry);
  status = active;
  trapped_on = none;
  closed_on = none;
  event_idx = none;
}

unfoldable pub scan_bull_bars : List Bar → List Entry × List Event
unfolding scan_from new_bull
scan_bull_bars [] = ([], [])
scan_bull_bars (b ∷ bars) = scan_from true (new_bull make_ltf_bull) b bars [] []

unfoldable pub scan_ltf_bull : Tags → List Bar → List (Tags × Entry) × List Event
unfolding scan_bull_bars
scan_ltf_bull t bars =
    let zone = keep (in_bull_zone t) bars in
    if ltb (length zone) 2 then ([], []) else tagged t (scan_bull_bars zone)

new_bull-Fresh : (prev curr : Bar) → Fresh (new_bull make_ltf_bull prev curr)
unfolding new_bull make_ltf_bull
new_bull-Fresh prev curr = ground arith

-- The setups of the bull scan are, in the order of their bars, those that neighbouring bars with a
-- rising high open, and each has the fate that the bars behind it alone decide, where the search for
-- the bar that closes it begins with the very bar that trapped it.
pub scan_bull_bars-setups :
    (b : Bar) (bars : List Bar)
    → map core (scan_bull_bars (b ∷ bars)).0 ≡ setups true (new_bull make_ltf_bull) b bars
scan_bull_bars-setups b bars =
    unfold scan_bull_bars in scan_from-setups true _ new_bull-Fresh b bars [] []
