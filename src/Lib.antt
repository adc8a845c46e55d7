-- ===== src/Lib.antt =====
-- gotst runs the tests of Go packages. A leader resolves a run profile, builds and lists the test
-- binaries, and executes each top-level test, on its own slots and on helpers that join over the
-- network. This library models the parts of it that decide what runs and which result counts.
--
-- Prelude      lists, options, maps and texts over native numbers, shared by all. A Go string is the
--              list of its bytes; a Go map is an association list or the list of its keys.
-- Go           what is used of Go's standard library: strings, decimal numbers, the text of a
--              duration, sorting, filepath.Base, hexadecimal text.
-- Files        what is used of package os: operations that may fail, as parameters with the laws that its
--              documentation states, and a disk in memory for the examples.
-- Profile      profile.go: appendUnique, mergeRunProfile, mergeRawProfile, resolveProfile and
--              profileDefinitions.resolve. The closure visit shares a map of resolved profiles and a
--              stack; both are threaded through. Profile/Spec has the declarative reading of
--              includes, without memory and stack.
-- Invocation   invocation.go: the arguments of the command line and the selection of tests.
-- TestCache    testcache.go: keys and entries, Get and Put, parseTestLog, deduplicateDependencies and
--              validateDependencies, with the environment and the file system as parameters.
-- History      history/history.go: the types of observations.
-- Server       gotst.go and history.go: Server, packageStatus and testStatus, finishTestLocked,
--              the arguments of test binaries (effectiveTestArgs) and historyKeyForTask.
-- Listing      gotst.go: setPackageTests, validateSelectedTests and allTestTasks.
-- Schedule     history.go: the newest observation of a test, orderTestTasksByHistory and
--              prepareTestEstimates, with the history of a task as a parameter.
-- Output       gotst.go: cappedBuffer.
-- Words        cacheprog.go: splitQuoted, quoteCacheProgArg and envWithout.
-- Retry        gotst.go: runTest with its repetitions and retries, where an attempt is what
--              runTestAttempt returns.
-- Fleet        distributed.go: fleet, fleetWorker, fleetTask and workLease with newFleet, addWorker,
--              nextLocked, assignLocked, accept, exchange, disconnect, run and localWorker. Workers
--              and tasks are positions in lists, and a lease is a number; Fleet/Views reads the three
--              lease maps position by position, Fleet/Invariant states that they agree, and
--              Fleet/Reach has every interleaving of the calls as a step relation.
-- LocalCache   localcache.go: get, put, writeCacheFile and readStockGoCache over the operations of package
--              os, and the loop of serve.
-- CacheProg    cacheprog.go: the client of a cache helper with its steps in any order, and the shim's
--              forward, materializeExecutable, copyExecutable and registerExecutable.
-- Worker       worker.go: workerLoop of a helper as a state machine over the events of its select and the
--              sends of its goroutines, and serveWorker on the leader, composed with the fleet's exchange
--              and disconnect and with any calls of others in between.
-- HistoryStore history.go: the dependencies that are recorded, the store on disk, the lookup at the
--              history service, loadHistory and flushHistory.
-- Progress     progress.go: testETALocked, the counters of progressSnapshot, formatEstimate and flakyTests.
-- Summary      summary.go: fleetSummaryLocked and roundDuration, over the starts of the phases (setPhase).
-- Web          web.go and live.js: makeHTMLPatch and applyPatch, the patches of the live status page.
-- Daemon       cmd/testhistoryd: the checks of requests and observations, and parseUUID.
--
-- A read through a missing test, package, lease or worker would be a nil dereference and a panic:
-- such an operation returns none. Each call of the fleet runs under the server's lock, so calls do not
-- overlap and a run is a sequence of them. Times and durations are nanoseconds as natural numbers, so
-- negative durations are not covered; the zero time is none.
--
-- Bounds and fuel. Lease numbers wrap at 2^64, so the theorems on assignments ask for the lease numbers
-- that they hand out to be left. The visit of profiles takes as fuel the number of profiles and one
-- more: a profile that is being visited is not entered again. The loops of runTest recurse on the
-- repetitions and retries that are left; main refuses a negative number of retries. splitQuoted takes
-- the length of its text as fuel, since each of its rounds takes a byte or ends.
--
-- Not modelled: subprocesses and sockets (the go command, TLS and tailcat connections), the YAML
-- decoder, PostgreSQL, the rendering of the web page, and the printing of results. Parameters stand for
-- time.ParseDuration, go/token.IsIdentifier, filepath.Clean and filepath.Rel, package os, encoding/json,
-- the hashes, the environment and the fingerprints of files.
pub mod Prelude
pub mod Go
pub mod Files
pub mod Profile
pub mod Invocation
pub mod TestCache
pub mod History
pub mod Server
pub mod Listing
pub mod Schedule
pub mod Output
pub mod Words
pub mod Retry
pub mod Fleet
pub mod LocalCache
pub mod CacheProg
pub mod Worker
pub mod Progress
pub mod Summary
pub mod Web
pub mod Daemon
pub mod HistoryStore
