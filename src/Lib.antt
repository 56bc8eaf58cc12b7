-- ===== src/Lib.antt =====
-- The trading bot: the parts that decide whether an order may be sent, and what becomes of it.
--
-- A signal reaches the market only past several guards. The risk engine (src/risk/risk_engine.py) asks
-- them in order: the kill switch, the drawdown monitor, which may activate the kill switch, the
-- exposure manager (src/risk/exposure_manager.py), the ratio of reward to risk and the stops
-- (src/risk/stop_manager.py), and the position sizer (src/risk/position_sizer.py). Bad news tightens
-- the stops of open positions (src/risk/sentiment_stop_handler.py). The market hours
-- (src/config/market_hours.py) say when an instrument trades. The kill switch (src/risk/kill_switch.py)
-- rejects every signal while it is active, and closes the open positions; the overtrading guard
-- (src/strategy/overtrading_guard.py) limits how often a strategy trades an instrument; the performance
-- monitor (src/strategy/performance_monitor.py) disables a strategy that does badly; the drawdown
-- monitor (src/risk/drawdown_monitor.py) stops trading on a day's losses or a fall from the peak; the
-- HFT risk manager (src/risk/hft_risk.py) has a circuit breaker and limits of rates; the rate limiter
-- (src/trading/hft_rate_limiter.py) queues what is over the rate of a token bucket and cancels what
-- waits too long; the order manager (src/trading/order_manager.py) validates an order, sends it to the
-- broker, retries once, and keeps trailing stops. The copy engine
-- (src/copy_trading/copy_engine.py) copies other traders' trades past the risk engine; the
-- trader ranker and the allocation manager beside it say whose, and with how much equity. The service
-- manager (src/core/service_manager.py) runs the parts and restarts those that crash, and the
-- degradation manager (src/core/degradation.py) says which fallbacks are on. The candle buffer (src/trading/candle_buffer.py) feeds the strategies.
--
-- Files:
--   Common/...               tests, lists, dicts, text, and the numbers of a program
--   Risk/KillSwitch...       KillSwitch: activate, deactivate, evaluate_*, close_all_positions
--   Risk/Hft...              HFTRiskManager: update_pnl, the breaker, check_rate_limit, record_order
--   Risk/Drawdown...         DrawdownMonitor: update_on_trade_close, check_trade_allowed
--   Risk/Exposure...         ExposureManager: check_exposure, the scores of regions
--   Risk/Sizing...           PositionSizer: calculate_size
--   Risk/Stops...            StopManager: initial, trailing, tightened and widened stops
--   Risk/Sentiment...        SentimentStopHandler: handle_high_impact_news
--   Risk/Engine...           RiskEngine.validate_signal, on the five parts above that it calls
--   Risk/Crisis...           RiskEngine.handle_crisis_response
--   Config/MarketHours...    MarketHours: is_market_open, get_next_open; Instruments has the classes
--   CopyTrading/Engine...    CopyEngine: closing and stopping; Replication has replicate_trade, on the
--                            risk engine
--   CopyTrading/Allocation.. AllocationManager: calculate_allocations
--   CopyTrading/Ranking...   TraderRanker: rank_traders, weekly_reevaluate
--   Core/Services...         ServiceManager: start, stop, handle_service_error
--   Core/Degradation...      DegradationManager: activate, deactivate, the level and the fallbacks
--   Strategy/Performance...  PerformanceMonitor: the metrics; Lifecycle has the evaluations, the
--                            weekly re-evaluation, the disabling and the suspension
--   Strategy/Overtrading...  OvertradingGuard: can_trade, record_trade, record_loss, record_win
--   Trading/Candles...       CandleBuffer: on_tick, get_candles
--   Trading/RateLimiter...   HFTRateLimiter and TokenBucket: submit_order, process_queue, sweeps
--   Trading/OrderData        the data of OrderManager, and the calls of the broker
--   Trading/TrailingStops... OrderManager: setup_trailing_stop, _update_trailing_stops
--   Trading/Orders...        OrderManager: place_*_order, close_order, partial_take_profit
-- Each component's file holds its state as a record, its operations as functions from a state and the
-- arguments to a new state and a reply, and, where its methods can come in any order, a data type of
-- calls with `step` and `run`. The files in its folder hold proofs; Tests has concrete runs.
--
-- Numbers. Counts and times of `datetime` are natural numbers, times in microseconds. Floats and
-- decimals are numbers of a record `Arith`, a parameter of every definition that computes with them: the theorems
-- hold of any arithmetic, rounding included, and those that need an order or monotone subtraction take
-- `IsOrdered` or `IsMonotone` as a hypothesis. The risk engine and the copy engine compute with
-- decimals and with floats, which are two arithmetics there. The times of Config/MarketHours are in
-- UTC, a day's ordinal and a time of day. `fixed` in Common/Fixed is an arithmetic with four decimals
-- on the integers that satisfies both, for the runs.
--
-- What is outside is an argument: each reading of the clock, how an awaited call of the broker, of a
-- service's function or of a close function ends, whether an event publisher or a callback is there,
-- and the random identifiers. The methods of the service manager are cut into steps at every await and
-- sleep, and the steps of other calls may come between. The retry of an order, which sleeps for a
-- second, is one step with the attempt: no other call of the order manager comes between.
--
-- Loops. Nearly all loops of the source here run over a list or a fixed range, and are recursion on
-- that list or on the rounds that remain. The search of the next weekday in Config/MarketHours, a
-- `while True`, is recursion on fuel, of which it is given 7 rounds and needs at most 3.
--
-- Not modelled: logging, notifications and the status dictionaries that only read; the event loop and
-- the event bus; the trading loop, the HFT pipeline and the strategy engine, which compose the parts
-- with the network; the network clients, the strategies and models over third-party libraries, the
-- database, the web interface and the news feeds.
pub mod Common
pub mod Config
pub mod CopyTrading
pub mod Core
pub mod Risk
pub mod Strategy
pub mod Trading
