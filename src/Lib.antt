-- ===== src/Lib.antt =====
-- chain_data_service: a service that records the Solana transactions of tracked addresses in an
-- SQLite database and serves them over HTTP.
--
-- The parts, and the files that model them:
--   Models, Config      src/models/mod.rs and src/config.rs: the transaction record, the configuration.
--   Validation          src/validation.rs: the checks on request parameters.
--   Cache               src/cache: keys, the two cache managers, over the interface Cache.Moka.
--   Db                  src/db: Db.Tables has the tables of src/db/mod.rs and one function for each SQL
--                       statement; Db.Exec runs statements, any of which may fail; Db.Address and
--                       Db.Transaction are the functions of address.rs and transaction.rs.
--                       Db.Service is what these functions are to do, without the tables, and
--                       Db.RoundTrip is about what is stored and then read. Db.Schema has the
--                       statements that make the tables.
--   Api                 src/api: errors, responses, and the handlers of route.rs; Api.Served is about
--                       the page that is served, and Api.Router is create_router, with requests that
--                       are served one after another.
--   Blockchain.Batch    src/blockchain/batch_manager.rs: the buffer in front of the workers.
--   Blockchain.Extract  src/blockchain/models.rs: from the node's data to a transaction.
--   Blockchain.Services what this side calls outside the repository, and chunks of requests.
--   Blockchain.Client   src/blockchain/client.rs: the calls of the node, with retries; Client.Node
--                       makes of them the node that the rest sees.
--   Blockchain.Workers  src/blockchain/worker_pool.rs: the channel and the workers, as steps.
--   Blockchain.Processor  src/blockchain/processor.rs, and the loop of a worker of worker_pool.rs;
--                       Delivers is about what such a loop has stored, and Authentic about where that
--                       comes from.
--   Blockchain.Polling  src/blockchain/polling.rs; History is the historical polling, Loop the main
--                       loop, and Gains is about what they add to the batch manager.
--   Blockchain.Lock     src/blockchain/polling.rs: the mutex that start_polling puts around the batch
--                       manager, as steps of the tasks that lock it.
--   Blockchain.System   the tasks that src/main.rs and start_polling spawn around their two pairs of a
--                       batch manager and a worker pool, as steps: System.Sending has the small steps
--                       of one pair.
--   Blockchain.Pipeline from the batches that a worker takes to the tables, and from there to the
--                       answer of the server (Pipeline.Served).
--   Startup             src/db/connection.rs, src/db/migration.rs and the start of src/main.rs.
--   Shutdown            the end of src/main.rs.
--   Program             src/main.rs as a whole, over these parts, and src/state.rs; Program.Life runs
--                       requests and batches one after another. Life.Flights has the calls of
--                       get_transactions in parts, with anything between the two statements of
--                       each, and Life.Pages is about the pages that they return.
--   Base, Fixtures and Witnesses have the shared lemmas, concrete data, and the theorems at concrete
--   inputs.
--
-- How they interact: main opens the database and starts the rest, and awaits it in the end. The
-- polling asks the node for signatures and transactions and adds these to the batch manager, which
-- sends batches to the workers; a worker fetches a batch again, registers the addresses that it
-- names and stores it. The handlers validate their parameters, and read and write the same
-- database; the query for transactions goes through the cache.
--
-- Functions and types keep the names of the source. State is passed on: `World` is what a database
-- call may read and change, `Poll` is the state of the polling, and `BatchManager` that of the
-- manager. A mutex that is held for one call makes the calls a sequence, which `Event` writes out.
-- The mutex that start_polling puts around the batch manager is held until the shutdown
-- (Blockchain.System): Blockchain.Polling is what its loops do when their calls of add_transaction
-- return. A send to a full channel waits: Blockchain.Batch leaves the wait out, and
-- Blockchain.System has the capacity.
-- The n-th statement fails if `fault n` says so, and the n-th request is answered by its number, so
-- that the theorems hold for every pattern of failures and answers.
--
-- Numbers: unsigned integers are natural numbers, with the wrap-around written out where the source
-- can reach it; `i64` is the type of integers of Base, with wrap-around in the balances and ages.
-- `f64` is a parameter, since no code here computes with an amount.
--
-- Fuel: `chunks` runs on the length of its list, which its lemma shows to be enough. The historical
-- polling runs on fuel, and ends with one round more than the node has signatures for the address.
-- The main loop is a function of the ticks before the shutdown, and the workers are a step
-- relation.
--
-- Parameters: bs58, moka, serde_json, the routing of axum (Api.Router.Axum, with the laws that it
-- documents; for_method is what it does to the answer to HEAD) and the parsers of its query
-- strings, the RPC library (Rpc), the retry library (Backon, with the law that it documents), the
-- parser of database addresses, the orders in which the hash maps, the hash sets and the database
-- list what they hold, and the clock.
--
-- Not modelled: the signal handlers, which are calls of libraries, so that the shutdown starts at
-- some time; a worker that panics; requests and batches that interleave statement by statement,
-- but for the two statements of a page; how long a send to a full channel waits;
-- column types of the schema beyond the fields of Db.Tables; how long the rate limiter and the
-- retries wait; logging, and the test programs.
mod Base
mod Fixtures
mod Witnesses
pub mod Models
pub mod Config
pub mod Validation
pub mod Cache
pub mod Db
pub mod Api
pub mod Blockchain
pub mod Startup
pub mod Shutdown
pub mod Program
