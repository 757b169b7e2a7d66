-- ===== src/Trap/Scan.antt =====
-- scan_htf and scan_htf_spot of strategies/trap_scanner/scanner.py: the loop over the bars, and in
-- each bar the loop over the setups found so far. The two scans and scan_ltf_bull write the same
-- three steps out, with `>` and `<` exchanged for the bull side.
pub mod Fate
pub mod Links
pub mod Pass
pub mod Journal
use option_chain_based_strat.Common.{
  ℕ, ◌+◌, ◌*◌, ◌/◌, Bool, true, false, not, ◌&&◌, ◌||◌, Option, none, some, List, [], ◌∷◌, ◌++◌,
  ltb, leb, eqb, if◌then◌else◌, length, update_at,
}
use option_chain_based_strat.Trap.Bars.{
  Bar, Status, active, trapped, closed, Kind, bear, bull, Entry, Event,
}

-- `make` of scan_htf. The trigger is low + (high - low) / 3, which in thirds is 2 * low + high.
unfoldable pub make : ℕ → ℕ → ℕ → ℕ → Entry
make ref_ts entry sl next_low = record {
  kind = bear;
  ref_ts = ref_ts;
  entry = entry;
  sl = sl;
  zone_high = entry;
  zone_low = next_low;
  zone_trigger = some (2 * next_low + entry);
  status = active;
  trapped_on = none;
  closed_on = none;
  event_idx = none;
}

-- `make_bear` and `make_bull` of scan_htf_spot.
unfoldable pub make_bear : ℕ → ℕ → ℕ → ℕ → Entry
make_bear ref_ts entry sl next_low = record {
  kind = bear;
  ref_ts = ref_ts;
  entry = entry;
  sl = sl;
  zone_high = entry;
  zone_low = next_low;
  zone_trigger = none;
  status = active;
  trapped_on = none;
  closed_on = none;
  event_idx = none;
}

unfoldable pub make_bull : ℕ → ℕ → ℕ → ℕ → Entry
make_bull ref_ts entry sl next_high = record {
  kind = bull;
  ref_ts = ref_ts;
  entry = entry;
  sl = sl;
  zone_high = next_high;
  zone_low = entry;
  zone_trigger = none;
  status = active;
  trapped_on = none;
  closed_on = none;
  event_idx = none;
}

abbrev pub is_active : Status → Bool
is_active active = true
is_active _ = false

abbrev pub is_trapped : Status → Bool
is_trapped trapped = true
is_trapped _ = false

abbrev pub is_closed : Status → Bool
is_closed closed = true
is_closed _ = false

-- `curr["high"] > e["sl"]` for a bear setup, `curr["low"] < e["sl"]` for a bull setup.
abbrev pub trap_hit : Kind → ℕ → Bar → Bool
trap_hit bear sl b = ltb sl b.high
trap_hit bull sl b = ltb b.low sl

-- `curr["low"] <= e["entry"]`, and `curr["high"] >= e["entry"]`.
abbrev pub close_hit : Kind → ℕ → Bar → Bool
close_hit bear entry b = leb b.low entry
close_hit bull entry b = leb entry b.high

-- `ts != e["trapped_on"]`
abbrev pub other_bar : Bar → Option ℕ → Bool
other_bar b none = true
other_bar b (some t) = not (eqb b.time t)

-- `round(zone_trigger, 2)`: of a number of thirds the nearest whole is never a tie.
abbrev pub round_thirds : Option ℕ → Option ℕ
round_thirds none = none
round_thirds (some n) = some ((n + 1) / 3)

unfoldable pub trap_event : Entry → ℕ → Event
trap_event e ts = record {
  kind = e.kind;
  trap_bar = ts;
  ref_bar = e.ref_ts;
  entry_level = e.entry;
  sl_level = e.sl;
  zone_high = e.zone_high;
  zone_low = e.zone_low;
  your_entry = round_thirds e.zone_trigger;
  is_open = true;
  close_bar = none;
}

abbrev pub close_event : ℕ → Event → Event
close_event ts v = record v { is_open = false; close_bar = some ts }

-- `events[e["event_idx"]][…] = …`. The index of a trapped setup is always set.
abbrev pub mark_closed : Option ℕ → ℕ → List Event → List Event
mark_closed none ts events = events
mark_closed (some i) ts events = update_at events i (close_event ts)

-- The first `if`: the trap fires.
unfoldable pub trap : Bar → Entry → List Event → Entry × List Event
trap b e events =
    if is_active e.status && trap_hit e.kind e.sl b
    then (
      record e { status = trapped; trapped_on = some b.time; event_idx = some (length events) },
      events ++ trap_event e b.time ∷ [],
    )
    else (e, events)

-- The second `if`: the zone is closed. `same_bar` is set in scan_ltf_bull, which lacks the test
-- `ts != e["trapped_on"]`.
unfoldable pub close_zone : Bool → Bar → Entry → List Event → Entry × List Event
close_zone same_bar b e events =
    if is_trapped e.status && close_hit e.kind e.entry b && (same_bar || other_bar b e.trapped_on)
    then (
      record e { status = closed; closed_on = some b.time },
      mark_closed e.event_idx b.time events,
    )
    else (e, events)

-- The body of `for e in entries`.
unfoldable pub touch : Bool → Bar → Entry → List Event → Entry × List Event
unfolding trap close_zone
touch same_bar b e events =
    if is_closed e.status
    then (e, events)
    else (let (e', events') = trap b e events in close_zone same_bar b e' events')

unfoldable pub touch_all : Bool → Bar → List Entry → List Event → List Entry × List Event
touch_all same_bar b [] events = ([], events)
touch_all same_bar b (e ∷ es) events =
    let (e', events') = touch same_bar b e events in
    let (es', events'') = touch_all same_bar b es events' in (e' ∷ es', events'')

-- A new bearish setup: this bar's low is under the previous one's.
unfoldable pub new_bear : (ℕ → ℕ → ℕ → ℕ → Entry) → Bar → Bar → List Entry
new_bear build prev curr =
    if ltb curr.low prev.low then build prev.time prev.low prev.high curr.low ∷ [] else []

unfoldable pub new_bull : (ℕ → ℕ → ℕ → ℕ → Entry) → Bar → Bar → List Entry
new_bull build prev curr =
    if ltb prev.high curr.high then build prev.time prev.high prev.low curr.high ∷ [] else []

-- `for i in range(1, len(df))` of a scan with one list of setups, where `find` opens new ones.
unfoldable pub scan_from :
    Bool
    → (Bar → Bar → List Entry)
    → Bar
    → List Bar
    → List Entry
    → List Event
    → List Entry × List Event
scan_from same_bar find prev [] entries events = (entries, events)
scan_from same_bar find prev (curr ∷ rest) entries events =
    let (entries', events') = touch_all same_bar curr entries events in
    scan_from same_bar find curr rest (entries' ++ find prev curr) events'

unfoldable pub scan_htf : List Bar → List Entry × List Event
unfolding scan_from new_bear
scan_htf [] = ([], [])
scan_htf (b ∷ bars) = scan_from false (new_bear make) b bars [] []

-- The same loop with the two lists of scan_htf_spot, which share the events.
unfoldable pub spot_from :
    Bar → List Bar → List Entry → List Entry → List Event → List Entry × List Event
spot_from prev [] bears bulls events = (bears ++ bulls, events)
spot_from prev (curr ∷ rest) bears bulls events =
    let (bears', events') = touch_all false curr bears events in
    let (bulls', events'') = touch_all false curr bulls events' in
    spot_from curr rest (bears' ++ new_bear make_bear prev curr)
      (bulls' ++ new_bull make_bull prev curr) events''

unfoldable pub scan_htf_spot : List Bar → List Entry × List Event
unfolding spot_from new_bear new_bull
scan_htf_spot [] = ([], [])
scan_htf_spot (b ∷ bars) = spot_from b bars [] [] []

-- spot_bias: the direction of the last open trap, or NEUTRAL.
pub data Bias : Type 0 where
  bullish bearish neutral : Bias

abbrev pub direction : Kind → Bias
direction bear = bullish
direction bull = bearish

unfoldable pub bias_from : Bias → List Event → Bias
bias_from b [] = b
bias_from b (v ∷ vs) = bias_from (if v.is_open then direction v.kind else b) vs

unfoldable pub spot_bias : List Event → Bias
unfolding bias_from
spot_bias events = bias_from neutral events
