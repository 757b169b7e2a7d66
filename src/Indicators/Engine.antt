-- ===== src/Indicators/Engine.antt =====
-- PoolIndicatorEngine of strategies/pool_indicator_engine.py. Prices are in paise and times in
-- milliseconds; the RSI of a series is a parameter. The three deques of an option, which are made
-- together, are one track.
use option_chain_based_strat.Common.{
  ℕ, zero, suc, ◌+◌, ◌-◌, Bool, true, false, ◌&&◌, ◌||◌, Option, none, some, List, [], ◌∷◌, ◌++◌,
  ltb, leb, eqb, if◌then◌else◌, length, get_elem?, get_last?, drop,
}
use option_chain_based_strat.Common.Int.{ℤ, pos, sub_ℕ, ◌+ℤ◌, ◌-ℤ◌, ltb_ℤ}
use option_chain_based_strat.Common.Dict.{Dict, lookup, insert}
use option_chain_based_strat.Straddle.Chain.{Key, key_eq, ce, pe}

pub record Track : Type 0 where
  pub closes : List ℕ
  pub atps : List ℕ
  pub mins : List ℤ

pub record PoolEngine : Type 0 where
  pub rsi_len : ℕ
  pub roc_len : ℕ
  pub maxlen : ℕ
  pub latest : Dict Key (ℕ × ℕ)
  pub last_atp_ts : Dict Key ℕ
  pub tracks : Dict Key Track

abbrev pub empty_track : Track
empty_track = record { closes = []; atps = []; mins = [] }

abbrev pub or_empty_track : Option Track → Track
or_empty_track none = empty_track
or_empty_track (some t) = t

abbrev pub track_at : Key → PoolEngine → Track
track_at k e = or_empty_track (lookup k e.tracks)

abbrev pub or_zeros : Option (ℕ × ℕ) → ℕ × ℕ
or_zeros none = (0, 0)
or_zeros (some v) = v

-- A price of 0 keeps the last good one, and only a good atp is stamped.
unfoldable pub update_tick : ℕ → Key → ℕ → ℕ → PoolEngine → PoolEngine
update_tick now k ltp atp e =
    let last = or_zeros (lookup k e.latest) in
    record e {
      latest =
          insert k ((if ltb 0 ltp then ltp else last.0), (if ltb 0 atp then atp else last.1))
            e.latest;
      last_atp_ts = if ltb 0 atp then insert k now e.last_atp_ts else e.last_atp_ts;
    }

-- `append` and `appendleft` of a deque with a greatest length.
abbrev pub push_right : {A : Type 0} → ℕ → A → List A → List A
push_right n x xs = let ys = xs ++ x ∷ [] in drop (length ys - n) ys

abbrev pub first_of_list : {A : Type 0} → ℕ → List A → List A
first_of_list zero xs = []
first_of_list (suc n) [] = []
first_of_list (suc n) (x ∷ xs) = x ∷ first_of_list n xs

abbrev pub push_left : {A : Type 0} → ℕ → A → List A → List A
push_left n x xs = first_of_list n (x ∷ xs)

-- The minute of a bar: the one that is given, or that behind the last bar.
unfoldable pub minute_of : Option ℕ → List ℤ → ℤ
minute_of (some m) mins = pos m
minute_of none mins = elim (get_last? mins) [ none ↦ pos 0 | some m ↦ m +ℤ pos 1 ]

unfoldable pub commit_track : ℕ → Option ℕ → ℕ × ℕ → Track → Track
unfolding minute_of
commit_track maxlen minute (ltp, atp) t = record {
  closes = push_right maxlen ltp t.closes;
  atps = push_right maxlen atp t.atps;
  mins = push_right maxlen (minute_of minute t.mins) t.mins;
}

unfoldable pub commit_all : Option ℕ → Dict Key (ℕ × ℕ) → PoolEngine → PoolEngine
unfolding commit_track
commit_all minute [] e = e
commit_all minute ((k, v) ∷ latest) e =
    commit_all minute latest
      (record e { tracks = insert k (commit_track e.maxlen minute v (track_at k e)) e.tracks })

unfoldable pub commit_bar : Option ℕ → PoolEngine → PoolEngine
unfolding commit_all
commit_bar minute e = commit_all minute e.latest e

-- `min(int(existing_min), 0) - n`
unfoldable pub base_of : ℕ → List ℤ → ℤ
base_of n [] = sub_ℕ 0 n
base_of n (m ∷ mins) = (if ltb_ℤ m (pos 0) then m else pos 0) -ℤ pos n

-- The loop from the last seed down to the first; a missing atp raises when the close of its bar is
-- already in.
unfoldable pub seed_down : ℕ → ℤ → List ℕ → List ℕ → ℕ → Track → Bool × Track
seed_down maxlen base closes atps zero t = (false, t)
seed_down maxlen base closes atps (suc i) t = elim (get_elem? closes i) [
  | none ↦ (true, t)
  | some close ↦ elim (get_elem? atps i) [
    | none ↦ (true, record t { closes = push_left maxlen close t.closes })
    | some atp ↦ seed_down maxlen base closes atps i (record {
      closes = push_left maxlen close t.closes;
      atps = push_left maxlen atp t.atps;
      mins = push_left maxlen (base +ℤ pos i) t.mins;
    })
  ]
]

-- `seed_strike`, with whether it raises.
unfoldable pub seed_strike : Key → List ℕ → List ℕ → PoolEngine → Bool × PoolEngine
unfolding seed_down base_of
seed_strike k closes atps e =
    let t = track_at k e in
    let seeded =
      seed_down e.maxlen (base_of (length closes) t.mins) closes atps (length closes) t in
    (seeded.0, record e { tracks = insert k seeded.1 e.tracks })

unfoldable pub is_warm : Key → PoolEngine → Bool
is_warm k e = let n = length (track_at k e).closes in leb (e.rsi_len + 1) n && leb (e.roc_len + 1) n

-- Whether a leg had a good tick within the time; 0 turns the check off.
abbrev pub leg_fresh : ℕ → ℕ → Option ℕ → Bool
leg_fresh now max_ms none = false
leg_fresh now max_ms (some ts) = leb (now - ts) max_ms

unfoldable pub pair_atp_fresh : ℕ → ℕ → ℕ → ℕ → PoolEngine → Bool
pair_atp_fresh now ce_strike pe_strike max_ms e =
    eqb max_ms 0
    || (leg_fresh now max_ms (lookup (ce_strike, ce) e.last_atp_ts)
        && leg_fresh now max_ms (lookup (pe_strike, pe) e.last_atp_ts))

-- The atps of live bars, whose minute is not below 0.
unfoldable pub live_atps : List ℕ → List ℤ → List ℕ
live_atps [] ms = []
live_atps (a ∷ as_) [] = []
live_atps (a ∷ as_) (m ∷ ms) = if ltb_ℤ m (pos 0) then live_atps as_ ms else a ∷ live_atps as_ ms

-- The last one and the one before it.
unfoldable pub last_pair : List ℕ → Option (ℕ × ℕ)
last_pair [] = none
last_pair (a ∷ []) = none
last_pair (a ∷ b ∷ []) = some (b, a)
last_pair (a ∷ b ∷ c ∷ as_) = last_pair (b ∷ c ∷ as_)

-- What the strategy feeds the engine with.
pub data PoolEvent : Type 0 where
  tick_of : (now : ℕ) (k : Key) (ltp atp : ℕ) → PoolEvent
  bar_of : (minute : Option ℕ) → PoolEvent
  seed_of : (k : Key) (closes atps : List ℕ) → PoolEvent

-- Whether a seed raises, and the engine behind the event.
unfoldable pub on_pool_event : PoolEvent → PoolEngine → Bool × PoolEngine
unfolding update_tick commit_bar seed_strike
on_pool_event (tick_of now k ltp atp) e = (false, update_tick now k ltp atp e)
on_pool_event (bar_of minute) e = (false, commit_bar minute e)
on_pool_event (seed_of k closes atps) e = seed_strike k closes atps e

unfoldable pub on_pool_events : List PoolEvent → PoolEngine → List Bool × PoolEngine
unfolding on_pool_event
on_pool_events [] e = ([], e)
on_pool_events (v ∷ vs) e =
    let r = on_pool_event v e in let rest = on_pool_events vs r.1 in (r.0 ∷ rest.0, rest.1)
