-- ===== src/Lib.antt =====
-- xray-runner puts a terminal interface and, on demand, a system service on top of xray-core: it
-- starts the core with a generated config, routes all traffic or the traffic of chosen processes
-- through it, watches its health, and updates it. The library models the parts that decide what
-- happens to the user's connections, on plain data: what the kernel, the network, a clock, a
-- process or another library does is an argument.
--
-- The parts and their files:
--
-- - Service: the sessions of internal/service/service.go. Service/State has the session and the
--   service as records; sessions live in a heap, since callers keep a pointer to one across locks.
--   Service/Sections has one function per stretch of code that runs under the lock mu (resume,
--   detach, claim, stop, markStop, finish, drop, the end of a TUN core), Service/Threads the calls
--   that hold the lock op over several of them (startTun, split, teardown, the function of a grace
--   timer) as threads that wait at a stage. `step` runs one section of one caller, so a list of
--   actions is an interleaving; an action that cannot run, such as a second holder of op, does
--   nothing. Service/Requests has the checks of a request: redirectOwnedBy, the names of a split,
--   checkURLs, cleanTitle, queueLatest, status. Service/Invariant, Preservation, Turns,
--   Interleavings, Guarantees, Endings, Checks and Privacy hold the proofs. Service/GeoStore and
--   Service/GeoUploads are internal/service/geostore.go: the folder of geo databases as lists of
--   its files, an upload as what it has received, and per call which system calls fail;
--   Service/GeoRoom, GeoPlaces, GeoGuarantees, GeoPinned and GeoMissing hold the proofs.
-- - Xraycfg: ApplySplitRouting (internal/xraycfg/split.go) and HasBypassRules
--   (internal/xraycfg/directrules.go). Xraycfg/Config has a decoded config: a field of a rule is
--   absent, malformed, or has a value, and the conditions that the rewrite does not read are a
--   value of a type that is an argument. Xraycfg/Split and Xraycfg/Bypass have the code,
--   Xraycfg/Routing how the core routes by a config: the first rule that matches decides, no match
--   means the first outbound. SplitSafe, LocalTags, Unlisted and Listed hold the proofs.
--   Xraycfg/Bind has BindDirectOutbounds (mark.go) on JSON values, Xraycfg/Json its edits of objects
--   with the folded keys of clientparts.go (sameKey, soleField); an object is a list of members. There
--   it stands for the Go map, so no key stands in it twice. Xraycfg/Policy has ApplySecurityPolicy
--   (tls_policy.go), where the members are those of the text. Keys, Kept, Bound, Escapes, Secure, Clearing and
--   NoInsecure hold the proofs. A raw text that is no JSON is not modelled.
-- - Core: the life of the core process and what the user sees of it. Core/Runner has
--   RunWithRetryHooks and generation (internal/xray/runner.go) as a recursion on the rounds that
--   the loop meets: how each process ended, its hooks' errors, the clock, and cancellations.
--   Core/Health has recordHealth, resetHealth and sendStatusLocked (internal/app/health.go), the
--   channel to the status screen as a bounded queue, the screen's handling of an update
--   (internal/tui/status.go), and the count of failed checks. Core/Retry, Views, Freshness and
--   Restarts hold the proofs.
-- - Updater: internal/updater/updater.go. Updater/Transport has the rule for URLs and redirects
--   (checkTransport, checkRedirect, newGet), Updater/Releases the cache, the choice of releases and
--   assets and the checksum files, Updater/Install the commit of the databases (commitAll, commit,
--   moveAside, rollback) on a directory in which each system call may fail, and Updater/Geo
--   and Updater/CoreInstall installGeo and InstallCore on what the network gives. SafeTransport, Verified, Picks,
--   Platforms, Restores, Rollback, Undo and Success hold the proofs.
-- - Ipc: the protocol of internal/ipc. Ipc/Frames has WriteMessage, readMessage and Conn.Read on
--   byte lists, with encoding/json as an argument (proto.go, server.go), Ipc/Connections the count
--   of connLimit, Ipc/RoundTrip the proofs about frames.
-- - System: what a TUN session changes on the host (internal/system). System/Entries has the entries
--   of route_linux.go and their lookup in the lists that the kernel gives (find, ownsPrefix),
--   System/Teardown the interface netOps, the variable `installed` and DisableTunRouting,
--   System/Setup EnableTunRouting with checkTunRoutingOwned, its children Wanted and Free the entries
--   that it decides on and checkTunRoutingFree. A host is a value of any type behind the record
--   NetOps; System/Host says what is relied on of it (Lawful), and what it means that the entries of
--   the process account for the difference to the host at first. System/Journal has the records of
--   routes in journal_linux.go, System/Recover RecoverJournal of journal.go, System/Mortal a host
--   whose process dies after so many changes. Lookup, Removal, Reversal, Accounting, Undoing,
--   Failures, Ready, Preflight, Crash, Restored, Readable, Takeover and Leftovers hold the proofs.
--   System/Firewall has killSwitchRuleset of firewall_linux.go with the chain's first match,
--   System/Filters killSwitchRules of wfprules.go with the filters' weights; a packet is a record of
--   its device, mark, addresses and ports. KillSwitch and Permits hold their proofs.
-- - App: the TUN sessions of internal/app/session.go. App/Lifecycle has tunLifecycle (afterStart, setUp,
--   setUpOnline, afterStop), enableTunKillSwitch and releaseSession on a record of the session's
--   flags and of what is on the host; what the calls of one setUp meet is a record too, and the loop
--   of setUpOnline a recursion on a list of them. Protection, Steady and Sessions hold the proofs.
-- - Prelude: shared names, tests on numbers and texts, lists, integers, and outcomes.
--
-- A teardown of System's routes is the same function for a session's end, for a failed setup and for
-- the run that finds a dead one's journal, so its lemmas serve all three.
--
-- The parts meet at values, not at calls: the service and the app both hand a split config on to
-- the core, whose process Core/Runner runs, and whose health Core/Health reports under the number
-- of that process (its generation).
--
-- Bounds and fuel: only the loop of queueLatest runs on fuel, of which two rounds are enough, since
-- a round either queues the event or makes room for it. Go's other unbounded loops are recursions on a list of what
-- the loop meets, so a run over a longer list is a longer run; where the list is over before the
-- loop is, the result says so (`running` in Core/Runner). The loop of resetHealth is a recursion on
-- the channel's queue, and `none` marks that it would never end. Go's int is a natural number
-- where it counts, and an integer for user ids; no counter modelled here reaches 2 ^ 63, but for the
-- wait between two cores, which keeps its wrap-around. Texts are
-- native strings where the code compares them and lists of code points where it walks them. Tables
-- of Unicode case are arguments, and so are the parsers of net/netip and strconv.ParseUint. Lawful
-- says that no other program changes the host between two calls; what one does in the time between
-- the preflight and an add is not modelled.
--
-- Not modelled: system calls and commands (netlink, cgroups, proxies, sockets, the installation of
-- nft rules and of Windows filters), the reading and writing of JSON texts, HTTP transfers and zip
-- files, terminal drawing; and so far subscriptions, the rules of the split, the rest of
-- internal/xraycfg, the Windows routes, and of internal/app the proxy sessions and the screens.
pub mod Prelude
pub mod Service
pub mod Xraycfg
pub mod Core
pub mod Updater
pub mod Ipc
pub mod System
pub mod App
