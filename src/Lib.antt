-- ===== src/Lib.antt =====
-- Verification of werrss, a service that turns followed journals into RSS feeds. Durable jobs are
-- its spine: every synchronization, feed rebuild and repair is a row that a worker claims under a
-- lease with a fencing token, works on, and brings to an outcome in a transaction.
--
-- The parts, from the bottom up, and the files that model them:
--
--   Domain/Job             src/domain/job.rs. Types holds the data, Transitions one function per
--                          method of `Job`, Persisted the checks of `from_persisted`. A method that
--                          changes the job is a function from the job to the job and a result, so that
--                          a refusal shows what was written before it.
--   Domain/Sync            src/domain/sync.rs: runs of a synchronization and their outcomes.
--   Domain/Source          src/domain/source.rs: sources, their updates and the feed revision.
--   Domain/Pacing          src/domain/pacing.rs: pacing limits and quiet hours.
--   Domain/Article         src/domain/article.rs: observations made normal, and merged into articles.
--   Domain/UrlPolicy       src/domain/url_policy.rs: a parsed URL, and the signed ones.
--   Persistence/JobStore   src/persistence/repositories/job_repository.rs. Table is the map behind the
--                          mutex as an association list, Operations the functions from
--                          `enqueue_in_store` to `recover_expired_in_store`, Isolation the transaction
--                          with its backup and the outcome port.
--   Persistence/AccountLeases
--                          src/persistence/repositories/account_lease_repository.rs: the in-memory
--                          leases on accounts. Holding has the histories of calls, Fencing what holds
--                          of one lease along them.
--   Persistence/CredentialStore
--                          src/persistence/repositories/credential_repository.rs: the in-memory
--                          credentials of accounts, of src/domain/credentials.rs (Domain/Credentials).
--                          Records has histories of operations, Versions the order of replacements.
--   Application/JobService src/application/job_service.rs: the owner, lease and batch limit of the
--                          configuration, bound to the operations of the repository.
--   Application/Worker     src/application/worker.rs: one pass of a worker. What others do between the
--                          recovery of expired jobs and the claim, and while the handler runs, are
--                          lists of calls and events.
--   Application/QrLogin    src/application/qr_login.rs: attempts under two mutexes. Operations has
--                          starts, polls and cancellations, each with the lists of actions that other
--                          tasks do where it waits; Invariants carries a property through them.
--   Application/AssetArchive
--                          src/application/asset_archive_service.rs. The file itself holds the policy
--                          on URLs and addresses, Fetching the loop of an acquisition, Repair the
--                          fetch of one asset, Expiry the evidence that a failed one gives. What
--                          servers send and when is data.
--   Application/AuthService
--                          src/application/auth_service.rs over the in-memory stores: Waiting has the
--                          heartbeat of a lease and what other tasks do where an operation waits,
--                          Cipher the encryption of credentials, Operations the service, Reading and
--                          Refreshing what it answers.
--   Application/SyncService
--                          src/application/sync_service.rs: the classification of acquisition errors.
--   Acquisition/Pacing     src/acquisition/pacing.rs: the bounded scroll of an article.
--   Archive/UrlRewriter    src/archive/url_rewriter.rs: the scan for `src` attributes and their
--                          replacement. Pieces cuts a text at its attributes.
--   Archive/Sanitizer      src/archive/sanitizer.rs. Rendering has the renderer over the edges of a
--                          tree, Trees the tree, `sanitize` and recursion on the tree, and Markup the
--                          grammar of what is left.
--   Archive/AssetStore     src/archive/asset_store.rs: the policies of assets, and the keys and values
--                          that a blob backend exchanges. Keys reads a key as a path.
--   Common                 Hash maps, tests on numbers, lists, signed numbers, texts and results.
--   Tests                  Concrete runs.
--
-- How values are represented. Instants are nanoseconds from chrono's first instant, durations signed
-- nanoseconds, a UUID its 128-bit number (0 is nil), a text its code points. The limits of `u32` and
-- `u64` are written out where the code adds or subtracts. The version of credentials, an `i64`, is its
-- bit pattern and wraps as in a release build; where a statement needs that it does not, it bounds the
-- versions and the number of operations. Fresh UUIDs are arguments. The order in
-- which a hash map is traversed is the order of the list.
--
-- Parameters stand for what is not in the repository: chrono's addition and conversion of durations
-- (Clock, Durations), time zones (Zone), rand's generator (Generator), the uuid crate's parser, the
-- url crate's parser, serialization and join (parse, Urls), the drawing of QR codes, the SHA-256
-- digest, ring's cipher and serde_json under the encryption of credentials (CipherCrates), the refresh
-- transport (Dependencies), the JSON code of expiry evidence (EvidenceCrates), and the JSON payload
-- (Value). The tree that the scraper crate parses, the answers of HTTP servers and of the login
-- transport, and the readings of clocks are data that the operations take.
-- What is assumed of them is a record that a theorem names: IsExact, ReadsBack, InRange,
-- JoinsAbsolute, Opens.
--
-- Loops are structural recursions on the list, on the tree or on the number of rounds, and need no
-- fuel, but for the two scans for attributes: these recurse on fuel, one more than the length of the
-- text, which is enough since each round leaves a shorter text.
--
-- Concurrency is interleaving: where an operation waits, a list of what others do in the meantime is
-- applied to the shared state, and statements are about every such list.
--
-- Not modelled: the PostgreSQL repositories, whose behaviour is that of SQL text in a database; the
-- browser, HTTP and RSS layers and the start of the process; and, for now, the polling loop of the
-- worker, the scheduler and the job handlers.
pub mod Common
pub mod Domain
pub mod Persistence
pub mod Application
pub mod Acquisition
pub mod Archive
pub mod Tests
