-- ===== src/Lib.antt =====
-- Acquire Intel: a crawler for product prices that withstands blocks, with its item pipeline, its run
-- ledger, its analytics and its HTTP interface. The library models the Python code under
-- src/acquire_intel/ and the mock server under harness/.
--
-- The parts, and the files that model them:
--
-- * Resilience (src/acquire_intel/resilience/). Backoff is `compute_delay` of backoff.py, Circuit the
--   breaker and its registry of circuit.py, Proxy the `ProxyPool` of proxy.py, Identity the
--   `IdentityPool` of identity.py with its catalogue, Classifier the `classify` of classifier.py.
--   Middleware has one module for each of the four downloader middlewares of middleware.py, and
--   Middleware/Chain puts them together in the order that acquisition/scrapy_settings.py gives them:
--   `fetch` sends a request through them until a response is delivered or the request dropped, and
--   Configured makes them from the settings.
-- * Pipeline (src/acquire_intel/pipeline/). Price, Title and Normalize are normalize.py, Items is
--   `NormalizePipeline`, Quality the gates and `QualityGatePipeline`, Persistence the stage that buffers
--   a run and writes it at the end. Run sends the items of a spider through all three.
-- * Storage (src/acquire_intel/storage/). Models has the rows, Products, Observations and Runs the
--   repositories' operations on them, Queries, Listing and Tallies the reads of the routes and their
--   grouped counts, Ledger what opening and closing a run do to the rows. Decimal has the amounts of
--   money.
-- * Acquisition (src/acquire_intel/acquisition/). Runner is `run_crawl`, Orchestrator `trigger_crawl`,
--   Registry registry.py, Scheduler scheduler.py. Sources has the extractors of sources/: Json the values that they read,
--   Raw what they share (extractor.py, telemetry.py), Rest, Graphql and Html one extractor each.
-- * Analytics (src/acquire_intel/analytics/). Health is health.py, Drift is drift.py, Deals is deals.py.
-- * Api (src/acquire_intel/api/). RateLimiter and Admin are admin.py, Products, Deals, Monitoring and
--   Dashboard the routes of the files of these names, Limits their `_parse_limit`, Liveness health.py,
--   Problems errors.py.
-- * Config is `Settings` of config/settings.py, CommandLine the `main` of cli.py.
-- * Harness (harness/). Scenarios is scenarios.py, Server the answers of server.py, Pages the crawls of
--   its pages by the REST extractor, Recovery a fetch of its rate-limited scenario.
--
-- Prelude has the shared helpers: tests on numbers, lists and their stable sort, dictionaries in
-- insertion order, texts as lists of code points, decimal numerals, and exact fractions.
--
-- How the code corresponds. A class is a record, a method a function from the record to the record and
-- the result; a method that raises returns `none` or a constructor of its own. Clocks are injected: a
-- method that reads the clock takes the time as its argument `now`, a natural number of ticks, and
-- durations are numbers of the same tick. Thresholds and rates that are floats are exact fractions, those
-- of the quality gates with a sign; the overflow of `2.0 ** attempt` from 1024 on is an exception.
-- Python's `Random`, `float(text)`, `uuid4`, Unicode's tables beyond ASCII, the crawl process of Scrapy,
-- the server behind the network, `response.json()`, `json.dumps`, the CSS selectors, `urljoin`,
-- `int(text)`, ILIKE and the order that the database gives ids are parameters. A route is a function of
-- its arguments, the time and the database to the values that it prints as JSON. SQL
-- statements are operations on lists of rows; a transaction commits as a whole. The stats collectors
-- are the logs of the `inc_value` calls.
--
-- Bounds. `fetch` runs on fuel, and more fuel than the retries that are left to the request is enough,
-- with no more than 1024 backoff retries. The crawl of a REST source runs on fuel too, and more fuel
-- than the source has products is enough. All other loops are recursion on a list or a number.
--
-- Not modelled: logging, the parser of the command line, how the settings are read from the environment,
-- the application factory, the templates of the dashboard, and migrations. Of a request of the GraphQL
-- extractor the text of the query is left out. Header names are compared as they are spelled;
-- `urlparse` is modelled without brackets and control characters; texts have no lone surrogates;
-- `lower` knows of the letters beyond ASCII only the two whose small form is ASCII; the 28 digits of
-- the decimal context and its limits on exponents do not round.
mod Prelude
pub mod Config
pub mod CommandLine
pub mod Resilience
pub mod Storage
pub mod Harness
pub mod Pipeline
pub mod Acquisition
pub mod Analytics
pub mod Api
