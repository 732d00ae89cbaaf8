-- ===== src/Lib.antt =====
-- crawlrs is a distributed web crawler. A frontier holds the URLs to fetch, sharded by host: each
-- shard has a queue of URLs per host, a wake-time per host, the list of hosts that are ready, and
-- the leases of the workers. Workers claim a URL, check politeness, fetch it, parse it, store the
-- body, record the outcome in a metadata ledger, hand on the links they found, and ack the URL.
-- A supervisor restarts workers that crash.
--
-- Files and the code that they model:
--   Prelude          shared names, Boolean tests, equality instances, association lists with laws
--   Core             crates/crawlrs-core/src: types.rs (UrlId, UrlEntry, outcomes), error.rs,
--                    crawl_scope.rs, blocklist.rs, hash.rs, traits/sharding.rs. A URL is a type
--                    parameter read through `UrlApi`, the accessors of the `url` crate and blake3.
--                    `Escapes` is the decoding of percent escapes in url.rs, `Canonical` what it
--                    keeps, `EscapesExamples` are runs.
--   Fakes            crates/crawlrs-fakes/src/frontier.rs, the in-memory frontier. `Shard` has what
--                    each operation does to one shard, `Frontier` the methods of the trait, in the
--                    order of the source; `Attempt` the attempt tokens. `Accounting`, `Delivery`,
--                    `Liveness`, `Progress`, `Exclusion`, `Reservation`, `Reserved` and `Reclaim`
--                    each prove one concern about a shard, `Lift` carries invariants to the
--                    frontier, `Histories` to every sequence of calls, `Totality` is about the
--                    outcome of a claim and `Admission` about the quota of `submit_batch`; `Rules`
--                    has the induction rules. `Outbox` and `Ledger` are outbox.rs and
--                    metadata_store.rs, with `Once`, `Publish` and `Shipments` for what they
--                    guarantee. `Examples` and `LedgerExamples` are runs.
--   Runtime          crates/crawlrs-runtime/src. `Effects` has the calls that a worker makes,
--                    `Failure` is failure.rs, `Outbound` is compute_outbound and `Pipeline` is
--                    UrlPipeline of worker.rs. `Protocol` says in which order the calls may come,
--                    `Commit`, `Order` and `Dispatch` prove what a run does; `WorkerLoop` is the
--                    loop around it. `Supervisor` is supervisor.rs and
--                    `Budget` its guarantees. `Publisher` is outbox.rs, between the outbox, the frontier
--                    and the ledger in memory; `Shipping` and `Published` prove what becomes of its
--                    rows, `PublisherExamples` are runs.
--   Politeness       crates/crawlrs-politeness/src: `Backoff` is failure.rs and config.rs,
--                    `Composite` is backoff_tracker.rs, wake_planner.rs and composite.rs, `Circuit`
--                    has the theorems about them. `Robots` is robots.rs, `Remembered` its theorems
--                    and `RobotsExamples` runs.
--
--   Redis            crates/crawlrs-frontier/src, the frontier on Redis. `Api` states what the code relies
--                    on of Redis and postcard, `Keys` is keys.rs, `Scripts` the Lua scripts, `Reply`
--                    the errors and the parsing of host_queue.rs, `Ops` its HostQueueOps with
--                    codec.rs and promoter.rs, `Attempt` the attempt tokens and `Frontier` the
--                    RedisFrontier of frontier.rs with bloom.rs. `Views` relates the keys of a shard to
--                    a `ShardState` of the in-memory frontier and `Commands` has one command each;
--                    `Submit`, `Batch`, `Claim`, `Wake`, `Promotion` and `Reclaim` relate the scripts
--                    to the operations in memory (`Leases` is for `Reclaim`), `Histories` every
--                    sequence of them, `Sending` and `Service` the calls around them, and `Overlap`
--                    shows where promote.lua goes further. `Parsing` reads the replies back.
--                    `SortedSet` and `Memory` are a server in memory for the examples in
--                    `Memory/Examples`.
--
--   Postgres         crates/crawlrs-metadata, the ledger and the outbox on Postgres. `Tables` has the
--                    tables of migrations/0001_init.sql and each SQL statement as a function on them,
--                    `Transactions` the connection, whose answers an environment decides, `Store` the
--                    methods of store.rs on the ledger and `Publish` the one on the outbox.
--                    `Requests` are the calls as values. `Atomic` proves what a failing call leaves.
--                    `Answered`, `Mirror`, `Agreement`, `Attempting`, `Succeeding`, `Failing` and
--                    `Skipping` lead to `Refinement`, against the ledger in memory; `Constraints` and
--                    `Children` lead to `Redelivery`, and with `Keeping` to `Again`; `Batch` and
--                    `Settled` are about `Publish`. `Examples` are runs.
--
-- The mutex of the in-memory frontier and of the ledger makes each method one step, so that an
-- interleaving of workers is a list of calls. The clock is an argument of each call. Every map is an
-- association list: where the source iterates over a HashMap, the model iterates in the order of the
-- list. A `Duration` or an `Instant` is a number of nanoseconds or milliseconds, as each file says.
-- The pipeline is a function from the calls made so far to a result and one list of calls more; the
-- replies of the components are parameters that may depend on all the calls before them.
-- Redis is a type of states with the commands that the code uses, each with one law on what can be
-- read back; the bloom filter may contain what was never added. A script is one step, as Redis runs
-- it. Scores are integers; times and counts stay below 2^53, where the numbers of Lua are exact.
-- The politeness state of a host is found by the host alone, since its shard does not change, and its
-- count of failures stays below 2^32. An unknown URL is one error, although the in-memory ledger and
-- the Postgres store word it differently. The depth of a link wraps at 2^32, as in a release build.
--
-- Every loop is a structural recursion; the loop of `claim` has the number of owned shards as its
-- bound, as in the source. The loop of claim.lua has one round more than there are ready hosts,
-- which is enough as each round takes a host off the list. The supervisor's loop runs over the exits
-- of its worker, the loop of a worker over its turns. `digits` of Core/Decimal takes n + 1 rounds for
-- the number n, and its round trip shows that they are enough.
--
-- Not modelled: logging and metrics, serde, the `len` and the gauges of the Redis frontier, the
-- migrations' indexes, concurrent Postgres transactions but for the rows they lock, the HTTP fetcher,
-- the HTML parser and the columnar and WARC writers, maintenance, the politeness that allows
-- everything, the URL canonicalisation beside its decoding of escapes (it edits a URL of the `url`
-- crate), the command line, and the deployment files.
pub mod Prelude
pub mod Core
pub mod Fakes
pub mod Runtime
pub mod Politeness
pub mod Redis
pub mod Postgres
