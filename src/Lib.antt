-- ===== src/Lib.antt =====
-- A model of the option-chain trading system: the detection of traps in a series of bars, the
-- selection of the options of a straddle, the managers that start and stop the strategies, the
-- execution of an order leg at a broker, the rate limit on the calls of brokers, the risk manager
-- that follows the fills, the candles that are built from ticks and their reset at an opening gap,
-- the workers that order for each client, the registry of the clients, the subscriptions of option
-- strikes, the minute series of options, and the store of open positions.
--
-- Parts. The scanner finds setups in bars and picks the zone to trade; the selection picks the two
-- options of a straddle; the managers run one strategy for each deployment; the strategies turn the
-- choices into legs; the executor fills a leg at a broker; the risk manager books the fills and
-- halts clients. Ticks go to the candle cache, to the gap handler, which clears and reloads the
-- cache, and to the rebalancer of strikes, whose pins the cleanup removes behind a closed position;
-- the router puts each valid signal into the queue of every client's worker.
--   Trap      strategies/trap_scanner/scanner.py. Scan has scan_htf, scan_htf_spot and spot_bias,
--             with the loop over the bars as scan_from and the body of the inner loop as touch; Ltf
--             has scan_ltf and scan_ltf_bull, Pick select_best_ltf_entry and
--             select_fresh_ltf_entry, Replay simulate_today_trades, and Backtest backtest.
--   Executor  execution_bridge/smart_executor.py and the orders of execution_bridge/base_broker.py.
--             Leg has the methods under their names; execute_leg is cut into chase (the loop over
--             the attempts), mop_up and run_leg, and Pricing has _round_tick and the ladder. The
--             broker and the clock of the event loop are the parameter Broker, a record of
--             functions over a state of the world. Mock has MockBroker as such a record, and Paper
--             what a leg comes to over it.
--   Straddle  strategies/straddle_selection.py, strategies/theta_calc.py and compute_atm of
--             strategies/strike_utils.py. Chain has the values and indicators of options, Select
--             select_partner_for, select_balanced_pair and reentry_block_reason, Pool scan_pool and
--             classify_roll. Each search is cut into the body of its loop, which gives a list of
--             candidates (partner_at, under_anchor, pool_at), and the loop that keeps the best of
--             them (Best.best_of); Partner, Balance and Scored say what they choose, and Theta
--             compares the two time values.
--   Books     strategies/straddle_book_manager.py and strategies/trap_book_manager.py. Wanted has
--             _wanted, Reconcile the three loops of _reconcile over any book, Managers the two
--             reconciliations and set_expiry_mode; Running says what they leave. Whether a
--             constructor, `start` or `stop` of a strategy raises, and whether `start` restores a
--             position, are parameters; restores_from is the latter over the position store.
--   Risk      management/risk_manager.py. Position has _PositionRecord (apply_fill cut into its
--             branches opened, extended and reduced), Client _ClientRiskState, and Manager the
--             handlers of RiskManager over its registry, states, buffer of signals and published
--             events; Position.Net and Kill say what they do, and Apart that a fill concerns one
--             client.
--   Limiter   execution_bridge/rate_limiter.py. Bucket has the token bucket, with one round of
--             acquire's loop as attempt, and the registry; Bounds says what it lets through.
--   Matrix    matrix_engine/candle_cache.py and matrix_engine/gap_handler.py. Candle has _Bucket
--             and _floor_ts, Series _CandleSeries (on_tick cut into floor_ts and enter) and feed,
--             the ticks of one symbol and timeframe in the loop of CandleCache.run; Cache has the
--             cache, Gap the handler with _on_tick as on_gap_tick. Windows is the log of ticks that
--             a series stands for, Refines and Partition compare the two; Gap.Outcome, Gap.Once and
--             Gap.Restored say what the handler concludes, how often it fires and what it leaves.
--   Workers   execution_bridge/parallel_worker_pool.py, and the dispatch of
--             execution_bridge/execution_router.py with SignalPackage.is_valid. Circuit has the
--             queue and the circuit breaker, with one round of run as round; Orders has _process
--             (serve_all, with the body of its loop as serve_one), _place, _compute_lots and
--             _derive_expiry; Pool has WorkerPool. Branches and Ledger, Cooldown and Sizing say
--             what they do.
--   Clients   config/client_profiles.py: Profile has the three records, Registry ClientRegistry and
--             its file, and Persisted what the file keeps.
--   Strikes   data_layer/strike_rebalancer.py and data_layer/strike_cleanup.py. Rebalancer has
--             StrikeRebalancer, with _on_tick cut into the mark of the close, the cleanup at the
--             close and follow; Cleanup has StrikeCleanup, Sets the sets of strikes. Pinned,
--             Sequences and Counts say what they do.
--   Indicators  strategies/pool_indicator_engine.py. Engine has the three deques of each option as
--             one Track, with the loop of seed_strike as seed_down; Pair has pair_indicators, whose
--             RSI is a parameter, and Groups the candles of several minutes; Aligned says that
--             the deques stay in step, Floor and Resampled which bar a candle is.
--   Storage   data_layer/position_store.py: Positions has save, load and clear over a disk of
--             files, and Restart says what is restored.
--
-- Numbers. A price of the scanner is a whole number of paise, and of the executor a multiple of
-- 1e-8; the selection counts in any one unit; a quotient is kept exact, or rounded where the
-- source rounds it. Floating-point error is not modelled. Signed amounts are Common.Int.ℤ, and
-- those of the risk manager the quotients of Risk.Amount. Candles, spots, strikes and capital are
-- in paise; percentages and multipliers of a client are in hundredths.
--
-- Fuel and time. The bucket's acquire runs over the list of the times at which its task wakes. The
-- two polling loops of the executor run on fuel: the length of the timeout in milliseconds and one
-- more. Each round sleeps for the poll interval, so that the deadline comes first on a clock that
-- advances.
--
-- Interleaving. A handler that awaits is one step: an event that arrives while _rebalance awaits
-- the feeder, or while a reset awaits its callbacks, is taken before or behind it. The worker is
-- cut at each signal, so that signals arrive between any two of its rounds.
--
-- Not modelled: logging, the feeds, the SQL storage, the dashboard, the broker adapters, the log-in
-- of brokers, the technical indicators of matrix_engine, and the strategies' event handlers, which
-- are input and output or wait for their own modules.
pub mod Common
pub mod Trap
pub mod Executor
pub mod Straddle
pub mod Books
pub mod Risk
pub mod Limiter
pub mod Matrix
pub mod Workers
pub mod Clients
pub mod Storage
pub mod Strikes
pub mod Indicators
