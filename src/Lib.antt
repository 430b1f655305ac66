-- ===== src/Lib.antt =====
-- Velocity-Vortex: a model of the trading system's order book, of its trading bots with their
-- indicators and of its back test, of its clients of the broker, of its order scheduler with the
-- executors, and of its server of the database.
--
-- The computing server (Computing-Server) runs bots, which gather candles, compute indicators on
-- them and place orders, and it has an order book that matches orders; the order manager server
-- (Order-Manager-Server) takes orders from a queue as texts and deals them out to the executors
-- of several brokers; the IO server (IO-Server) stores what comes on Redis channels in an SQLite
-- database and serves the database over HTTP.
--
-- Base: numbers with their Boolean tests, lists, integers, texts as lists of bytes. Number: std::atoi,
--   std::stoi, std::stoll, strtoll and std::to_string.
--
-- Orderbook: Computing-Server/include/Orderbook and Computing-Server/src/Orderbook.
--   Order: `Order_` (order_.hpp, order_.cpp) and `Trade_` (transactions.hpp).
--   Level: `bids_` and `asks_`, two maps from a price to a queue of orders, each as a list of
--     levels in the map's order, with `push_back` for `map[price].push_back(order)` and
--     `erase_order` for the erasure by an iterator. A node is found by its order's id; an erasure
--     that finds none stands for a dangling iterator.
--   Match: the two loops of `Orderbook::MatchOrders`, `match_level` and `match_loop`, on fuel,
--     one unit a round; out of fuel is a result of its own. How much fuel is enough is stated in
--     Matching/Spin and in Hang.
--   Book: `AddOrder`, `CanMatch`, `CancelOrder`, `ModifyOrder`, `Size` and `GetOrderInfos`, with
--     the mutex as a flag: a thread that locks it while it holds it comes to `deadlock`. A call is
--     one step, since each holds the mutex from its first line to its last.
--   Invariant, Index, Valid: what is well formed. Matching: one rule for invariants of the loops
--     (Rule) and its uses. Insert, Erase, Cancel, Ready, Add, Locks, Hang, ExactFill: the methods.
--   MarketMaking: `executeMarketMakingStrategy` and the setters, with the operations of double as a
--     parameter; Position is about the position that it leaves.
--   Prices and ids are only compared, so their widths do not matter; the only sum of quantities,
--     in `GetOrderInfos`, wraps around at 2 ^ 32.
--
-- Trading: Computing-Server/src/AlgoEngine-Core/indicators, src/Utilities, src/Velocity-Bot/strategies
-- and src/Risk-Analysis-Core.
--   Double: the operations of `double` are a parameter of everything in Trading, with no laws but
--     those that a theorem names. The parallel sum, too, which may give another sum each time.
--   Candle: `Bar`, `OHLCV`, their conversions and `buildAggregatedCandle`; Bounds is about the last.
--     A conversion of a double to an integer that is out of range is `none`.
--   Indicator: `Indicator` and `SignalResult`; its modules are the indicators, with
--     `calculate_signal` for `calculateSignal` and `calculate` for `calculate` (Ratios has PERatio
--     and DividendYield, FibonacciLevels the indicator FibonacciRetracement). A call returns,
--     throws, or has no defined behaviour. Cci: the number of threads is a parameter; Cci/Threads
--     compares their parts with one loop.
--   BackTester: src/Backtesting-Bot/bot.cpp; Aligned is about its vectors and marks, Plot has the
--     points and the ticks of `plotResults`.
--   Bot: `initialize`, `processTrading` and `run` of the bots, which differ in their
--     indicators, in the number of candles that make one and in `executeTradingLogic`: those are a
--     `Strategy`, one in each of TrendFollowing, MeanReversion, FibonacciRetracement,
--     VolatilityBreakout and TestBot (src/Velocity-Bot/test/bot.cpp). What a round gets from outside is an input: an exception, a closed
--     market, no bar or a bar. Calls of `createOrder` are kept in a list; it throws nothing. Rule
--     and Run are rules for what a bot's calls and rounds keep, Obeys, Orders, Consistent and Never
--     their uses.
--   Risk: src/Risk-Analysis-Core, on the same type of doubles; the conversion of a double to an index is
--     a parameter.
--
-- Alpaca: the clients of the broker, Computing-Server/src/Order-Manager-Core and src/Data-Fetcher-Core.
--   Services: JsonCpp and libcurl are parameters, records of functions without laws. A handle of
--     libcurl is its options, which stay set, with a pointer to a payload that may be freed; a transfer
--     may depend on the transfers before it.
--   ApiClient: `APIClient` (include/Order-Manager-Core/APIClient.hpp); Transfers describes what its
--     calls send. Order: `Order` (order.cpp) and `parseOrderFromJson`. OrderManager: the requests of
--     order_manager.cpp.
--   Url: `urlEncode` and `formatRFC3339` of DataFetcher.cpp; Sound reads an encoded text back. Feed:
--     `Quote`, `Trade` and `fromJson` (include/Utilities). DataFetcher: the URLs, the requests and the
--     parsing; Query reads a URL's query.
--   WebSocket: Websocket.cpp, a state with the operations that are pending, and the handler of each;
--     a run is a sequence of completions, in any order. Orderly lists the states that it comes to.
--
-- OrderManager: Order-Manager-Server/include and Order-Manager-Server/src.
--   TsQueue: `TSQueue` (include/Queue/TSQueue.hpp). Details: `OrderDetails` and `parseOrder`; a
--     text is the list of its bytes.
--   Scheduler: `Scheduler` (src/Scheduler/scheduler.cpp): `pass` is the loop that empties the
--     queue, for any policy; `round_robin`, `equalizer`, `latency_based`, `liquidity_based` are the
--     bodies of the four methods. The methods repeat such passes for ever, and no other thread is
--     between two steps of a pass.
--   ExecutorManager: `ExecutorManager` (src/Executor-Manager-Core/executor_manager.cpp), whose requests
--     have the code of `OrderManager` in Alpaca, and its loop, a sequence of its own steps and of
--     pushes by the scheduler. Payload, Loop: the JSON object of an order, and what is posted; three
--     steps for each order are enough. Server: `main` (src/main.cpp), a sequence of messages, of rounds of
--     RoundRobin, whose queue nothing fills, and of steps of the executors.
--
-- IoServer: IO-Server/src and IO-Server/include.
--   Library: what the code calls of the C++ library on doubles and of nlohmann::json is a parameter,
--     a record of functions without laws. Program: a handler is the calls it makes of the database
--     and of the clock, each with what follows for every answer, and `catching` is its try block;
--     Keeps is a rule for what holds of a program whatever the answers are. Database: a state with
--     those calls, over which a program is run. The context that a call is given for its messages is
--     left out.
--   Statement, Json, Params: the helpers of `APIRouter` (src/api_router.cpp). A JSON object is its
--     fields, each once.
--   Router: the handlers, by what they serve: Market, Snapshots, Strategies, Orders, Signals,
--     Positions; Ask has the steps that they share and Routes the table of `setup_routes`. Sound and
--     its modules are about all of them, Cancel about one. The two routes
--     of /api/calc are in Calculation. How a URL is matched
--     with a pattern is the web framework's.
--   Calculation: `RCAHandler`, `MCAHandler` (src/calculations), with the operations on doubles and the
--     square root as a parameter. Registry: `CalculationRegistry` and the endpoints that use it, with
--     two parameters for what the web framework makes of a text and of a missing field. Methods: the
--     registry of src/main.cpp; Sound is about a request to it.
--   SqliteDb: `SQLiteDB::exec`, `query` and the scalar queries (src/SQLiteDB.cpp) over the calls of
--     SQLite, a parameter; the loops are on fuel, and one unit more than there are rows is enough.
--     Rows: the map that a row is. Fetch, Leak: the loops, and the statements left open.
--   RedisSubscriber: src/Redissubscriber.cpp; a string made of a null pointer is not defined; Split is `splitString`, Sound is about the whole.
--
-- Not modelled: the order book bots; the providers of the data broker (DataBroker-Server), which do not
-- compile as they stand and have the bodies of `DataFetcher`, and its WebSocket, which has those of
-- the computing server; the connections to Redis and ZeroMQ, the opening of the database and its
-- bootstrap from files, the numerical models, the plotting library, the front end: input and output, or calls
-- of libraries.
pub mod Base
pub mod Orderbook
pub mod Trading
pub mod OrderManager
pub mod Alpaca
pub mod IoServer
