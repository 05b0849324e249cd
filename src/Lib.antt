-- ===== src/Lib.antt =====
-- The research terminal for short windows and event markets: event windows and their signals, the fair
-- value of an event market, the replay of signals and its figures, the strategy lab, the research store
-- with the capture of data into it, market data, and the research backtest.
--
-- The program is TypeScript. packages/shared-types/src/index.ts has the contracts, and
-- packages/research-signals/src has the logic. A short window is an aligned span of 5, 10 or 15
-- minutes of one symbol. The window engine finds the window that is current and its reference prices;
-- the signal engine turns the window and the market data into a signal, LONG_UP, LONG_DOWN, WAIT or
-- REJECTED; the replay runs both over past windows, judges each signal by the settlement rule of its
-- window, and the metrics sum the judgements up. For an event market, the fair value is gated by the
-- market's eligibility, estimated from past candles, and compared with the odds, which gives LONG_YES,
-- LONG_NO, NO_SIGNAL or REJECTED; the event replay labels such signals once their market has expired.
-- The strategy lab replays every parameter set of a grid by a pool of concurrent workers, ranks the results,
-- and validates them on rolling windows, each selected on one span and tried on the next. The store
-- keeps what is captured in eight tables, in memory and in a file each; the capture runs its jobs, by
-- hand or by schedule, and records each run in the store. Candles of one interval are put together to
-- candles of a longer one; the live price stream is a client of sockets and timers.
--
-- Base.antt passes on the library's names, with Boolean tests, lists, sorting, texts, integers and the
-- interface of numbers (Base/Number.antt).
-- Market.antt, ShortWindow.antt, EventReplay.antt, FairValue.antt, StrategyLab.antt: the contracts
-- (packages/shared-types/src/index.ts, and the inputs that the parts declare themselves).
-- ShortWindow/Rules.antt, ShortWindow/Settlement.antt: short-window/rule-templates.ts;
-- buildShortWindowRuleTemplate is build_short_window_rule_template, evaluateShortWindowRuleOutcome is
-- evaluate_short_window_rule_outcome, and so on: a function keeps its name, in lower case.
-- ShortWindow/Window.antt: short-window/window-engine.ts.
-- ShortWindow/Signal.antt, ShortWindow/Signal/Features.antt: short-window/signal-engine.ts.
-- ShortWindow/Replay.antt: short-window/replay.ts. ShortWindow/Metrics.antt: short-window/metrics.ts.
-- EventReplay/Windows.antt: replay/window.ts. EventReplay/Labels.antt: replay/outcome-labeler.ts.
-- EventReplay/Metrics.antt: replay/metrics.ts.
-- FairValue/Eligibility.antt: fair-value/market-eligibility.ts, and inferSymbols of
-- polymarket/market-mapper.ts. FairValue/Probability.antt: fair-value/probability.ts.
-- FairValue/Edge.antt, FairValue/Response.antt: fair-value/edge.ts.
-- StrategyLab/Grid.antt: strategy-lab/parameter-grid.ts. StrategyLab/Ranking.antt:
-- strategy-lab/ranking.ts. StrategyLab/Sweep.antt: strategy-lab/sweep-runner.ts, whose
-- mapWithConcurrency is StrategyLab/Sweep/Pool.antt. StrategyLab/WalkForward.antt:
-- strategy-lab/walk-forward.ts.
-- Store/Table.antt, Store/Schemas.antt, Store/Jsonl.antt, Store/Queries.antt: store/jsonl-store.ts.
-- Store/Records.antt: store/types.ts and the source check of store/schema.ts.
-- Capture.antt: capture/types.ts. Capture/Runs.antt, Capture/Schedule.antt: capture/scheduler.ts.
-- MarketData/Aggregate.antt: ohlcv/aggregate.ts. MarketData/Realtime.antt:
-- realtime/binance-spot-ws.ts. Backtest.antt: backtest/runner.ts and strategies/baselines.ts.
-- (These paths are under packages/research-signals/src.) The other files have the theorems, and each
-- Tests.antt, and StrategyLab/Runs.antt, applies them at concrete inputs.
--
-- Numbers: a price or a rate is of any type F with the operations of Number, which stand for those of
-- a double. A theorem that needs laws of them takes IsOrdered F, which states of comparison, minimum,
-- maximum and rounding what holds of doubles, NaN apart. Base/Fixed.antt is a number type that
-- computes and has these laws; it serves the tests. The whole part of a number is known only of finite
-- ones, from below, and by whole numbers up to 2 ^ 53; the ratios of the rolling windows are taken not
-- to be NaN. Counts and times are natural numbers, a time being its milliseconds since 1970; texts of
-- times are taken to be valid dates. An id that is a template text is the tuple of its parts. Fields
-- that are constant (isResearchOnly, strategyId) are left out.
--
-- The loop of replayCandles has fuel, the end of the span divided by the interval, plus one; that is
-- enough, since every round moves the cursor on by the interval, and the theorem on the windows that are
-- replayed holds for it without a condition. The loop of buildRollingWindows has the source's own bound
-- of twelve windows for fuel. All other loops run over lists.
--
-- Concurrency: a worker of the pool stands still at an awaited call, and the order in which the calls
-- come back is a list of the numbers of workers, of which the theorems speak for any. The scheduler of
-- the capture is its record of last runs and the calls that await a job; its ticks, and the ends and
-- failures of the jobs, come in any order. The client of the live stream is a state with the number of
-- its sockets and the lists of its timers, and its callbacks are events that come in any order.
--
-- What JSON keeps of a row, and which appends to a file fail, belong to a table of the store and are
-- arbitrary; a failed append is taken to leave the file as it was. The jobs of a capture, the replay
-- of one parameter set, the regular expressions, the printing of numbers and times, Math.log and
-- Math.exp are arguments. Where the replay of a parameter set throws, the source ends the whole sweep;
-- the argument stands for one that answers.
--
-- Not modelled: the SQLite backend; of the store's queries getStatus and two of the three that give the
-- latest result; the runner of the event replay, which fetches; the confluence engine, the indicators
-- and the console; the adapters that fetch market data, and the parsers of their messages; the API
-- gateway and the web application. They fetch, format or compute with transcendental functions, or stand
-- for a later extension.
pub mod Base
pub mod Market
pub mod ShortWindow
pub mod StrategyLab
pub mod Store
pub mod Capture
pub mod EventReplay
pub mod MarketData
pub mod Backtest
pub mod FairValue
