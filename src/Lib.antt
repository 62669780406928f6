-- ===== src/Lib.antt =====
-- A verification library for binance-algo, a research platform for Binance USD-M futures data.
--
-- The program downloads and records market data, keeps what it knows of the files in an
-- operational SQLite database, and runs research experiments whose runs, outputs and promotions
-- stand in a second SQLite database. This library models the parts that decide what these
-- databases hold, the streams and sockets that feed the recorder, its recovery after a crash, the
-- workflows that run over the registry, the position state machine that the strategies share, the
-- reconstruction of trades, the replay of recorded files, and the retries of the REST client.
--
-- Parts, the files that model them, and the sources:
--   Base          shared names, Boolean tests on numbers, results
--   Table         tables as lists of rows in rowid order: SELECT, UPDATE, INSERT OR IGNORE
--                 Table.Laws: reads after writes and unique keys; Table.Marked: UPDATE ... WHERE
--                 key IN (...)
--   Transaction   methods that read and write a database and may raise; a transaction restores
--                 the database when its body raises (`transaction` of both stores)
--   Manifest      src/binance_algo/data/manifest.py: records, statuses, tables of transitions
--   StateStore    src/binance_algo/data/state_store.py: `StateStore`. Files and Jobs have one
--                 definition per method, with the method's name; Ops runs sequences of calls;
--                 Listing has `list_data_files`, Sorted its order; FileTrace follows each
--                 call
--   SparseState   src/binance_algo/research/state_machine.py: `causal_sparse_state`. Column has
--                 the body of the inner loop for one column, Matrix the loops and the checks
--   Registry      src/binance_algo/research/experiments/store.py: `ResearchStore`, with the
--                 statuses of models.py, the tables of migrations.py and
--                 `current_research_stage` of promotion.py. Runs, Outputs, Campaigns, Experiments
--                 and Promotions have one definition per method; Ops runs sequences of calls of
--                 the methods that write, other than those on the tables of features; RunTrace
--                 follows each call; Atomic is about four of the methods
--   Recorder      src/binance_algo/data/writer.py: `_flush_partition` with its calls of the state
--                 store (Flush), `_append`, `flush_all` and `run` (Buffers), and the recovery of the
--                 files of an earlier run, `recover_recorder_artifacts`, `_recover_orphan` and
--                 `_inspect` (Inspection, Recovery); and
--                 src/binance_algo/exchange/binance_usdm/websocket.py: `_observe` (Sequence)
--   Streams       src/binance_algo/exchange/binance_usdm/public_streams.py: the parsers of combined
--                 messages (Parsers), over JSON values (Json) and the readers of their fields
--                 (Fields); Schemas lists the columns of each event type
--   Sockets       websocket.py: one message (Client), a connection and the loop of `run` with its
--                 back-off, its records of disconnections and its bounded queue (Session)
--   Trades        src/binance_algo/research/trades.py: the loop of `reconstruct_trade_events` over
--                 the rows of one fold and symbol (Episode); Runs has the runs of rows with one
--                 sign, and the event of a run, to compare it with
--   Rest          src/binance_algo/exchange/binance_usdm/rest.py: `_get_json_value` with its retries
--                 and delays (Client); Verdict says what a reply settles
--   Replay        src/binance_algo/data/replay.py: `_sql_string` and the list of paths in `_query`
--                 (Query), `select_replay_files` and `parse_replay_datasets` (Selection), and the
--                 replay engine with its virtual clock (Engine); Literals reads the literals back
--   Experiments   src/binance_algo/research/experiments/runner.py: `ExperimentRunner.run` (Runner),
--                 and campaign_runner.py: `CampaignRunner.register` (Registration) and
--                 `CampaignRunner.run` with one worker (CampaignRunner), over the methods of
--                 Registry. Moves has what single methods do, Calls the
--                 sequences of calls, Successes the succeeded runs along them
--
-- A state is a record of tables, and a method is a function from the state to its result, a
-- value or an error, and the state after it. Each method is one step: SQLite runs `BEGIN
-- IMMEDIATE` transactions one after another, so a history is a list of calls. What a call
-- raises is an element of a data type with the arguments of its message. A constraint of a
-- table that SQLite enforces (primary key, UNIQUE, CHECK, foreign key) is a test before the
-- insertion: a plain INSERT raises, INSERT OR IGNORE drops the row in silence, and a missing
-- foreign key raises in both. A value of the clock is an argument of the method that reads it.
--
-- Parameters: SHA-256 digests and the identities made from them, the tests on float64 values
-- (finite, equal, zero), and the type of these values. Nothing is assumed of the digests. The
-- libraries that the parsers call (decoding of JSON and of numbers) and those that inspect
-- files are records of operations. Seconds and the speed of a replay are float64, with the
-- operations of the code. JSON columns and canonical JSON are the texts that the code stores.
-- Times, counts, folds and random seeds are natural numbers. Loops are structural recursions on
-- lists, and the retries of a request recur on the attempts that are left, of which there are
-- as many as the code allows; there is no other fuel.
--
-- While an experiment runs, its thread beats and other processes call the registry: these are a
-- list of ticks, in any order. What the computation gives, and whether its files can be moved
-- and a traceback written, are arguments. What a socket gives, what a connection attempt comes
-- to, and the jitter of each pause are the input of a run of a connection. The rows that the
-- writer hands to a flush are kept by a flush that may raise at any batch.
--
-- Not modelled: files, the network and logging; the pool of several workers of a campaign;
-- numpy and polars computations on float64 (features, strategies, backtests); the migration
-- runner and the connection settings; the commands that change the subscriptions of a route,
-- and the metrics for Prometheus; the SQL that orders the rows of a replay, which comes to the
-- engine as a list of events; feature definitions, feature sets and their evaluations in the
-- registry; whether an integer of a message fits the width of its column; the gates and reports
-- of promotions; the metrics of trades.
pub mod Base
pub mod Table
pub mod Transaction
pub mod Manifest
pub mod StateStore
pub mod SparseState
pub mod Registry
pub mod Recorder
pub mod Trades
pub mod Rest
pub mod Streams
pub mod Sockets
pub mod Experiments
pub mod Replay
