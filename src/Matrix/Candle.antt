-- ===== src/Matrix/Candle.antt =====
-- _Bucket and _floor_ts of matrix_engine/candle_cache.py, with IndexTick and CandleEvent of
-- data_layer/base_feeder.py. Prices are paise, and a timestamp is an IST datetime.
use Prim.Native.String.{String}
use option_chain_based_strat.Common.{
  ℕ, zero, suc, ◌+◌, ◌*◌, ◌/◌, ◌%◌, Bool, Option, none, some, leb, max, min,
}

pub record Stamp : Type 0 where
  pub day : ℕ
  pub hour : ℕ
  pub minute : ℕ
  pub second : ℕ
  pub microsecond : ℕ

-- IndexTick
pub record Tick : Type 0 where
  pub symbol : String
  pub ltp : ℕ
  pub opening : ℕ
  pub high : ℕ
  pub low : ℕ
  pub volume : ℕ
  pub timestamp : Stamp

-- _Bucket, which is also the dict of a completed candle.
pub record CandleBucket : Type 0 where
  pub ts : Stamp
  pub opening : ℕ
  pub high : ℕ
  pub low : ℕ
  pub close : ℕ
  pub volume : ℕ

pub record CandleEvent : Type 0 where
  pub symbol : String
  pub timeframe : ℕ
  pub opening : ℕ
  pub high : ℕ
  pub low : ℕ
  pub close : ℕ
  pub volume : ℕ
  pub timestamp : Stamp
  pub is_bullish : Bool

-- The start of the period of `minutes` in which a time lies.
abbrev pub period_start : Stamp → ℕ → Stamp
period_start ts minutes =
    let floored = ((ts.hour * 60 + ts.minute) / minutes) * minutes in
    record ts { hour = floored / 60; minute = floored % 60; second = 0; microsecond = 0 }

-- A period of no minutes divides by zero.
unfoldable pub floor_ts : Stamp → ℕ → Option Stamp
floor_ts ts zero = none
floor_ts ts (suc m) = some (period_start ts (suc m))

-- _Bucket(bucket_ts, tick.open, tick.high, tick.low, tick.ltp, tick.volume)
abbrev pub new_candle : Stamp → Tick → CandleBucket
new_candle at tick = record {
  ts = at;
  opening = tick.opening;
  high = tick.high;
  low = tick.low;
  close = tick.ltp;
  volume = tick.volume;
}

unfoldable pub update : Tick → CandleBucket → CandleBucket
update tick b = record b {
  high = max b.high tick.high;
  low = min b.low tick.low;
  close = tick.ltp;
  volume = b.volume + tick.volume;
}

-- The event of a bucket that closes.
abbrev pub closed_event : Tick → ℕ → CandleBucket → CandleEvent
closed_event tick tf b = record {
  symbol = tick.symbol;
  timeframe = tf;
  opening = b.opening;
  high = b.high;
  low = b.low;
  close = b.close;
  volume = b.volume;
  timestamp = b.ts;
  is_bullish = leb b.opening b.close;
}
