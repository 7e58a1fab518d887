-- ===== src/Lib.antt =====
-- proxy-hub: a hub that runs proxy nodes through sing-box. This library models the core of it,
-- core/singboxcore, and parts of the services above it, service/proxy, and shows what they promise.
--
-- The program. core.go owns an instance of sing-box and a map of dynamic groups (group.go). A group
-- has proxy nodes (node.go), each with its health, its latency class and its open connections. A
-- connection that reaches a group is dialed through the nodes in the order that the group's
-- strategy gives (balancer.go, and the orders of group.go), where blacklisted nodes are revived if
-- no node is left. The group tracks the connections it made, so that a node's removal closes them,
-- and holds a stream that breaks before its first byte against its node. Probes of the nodes run in
-- a loop per group. The services (service/proxy) and the HTTP interface (api) drive the core. The
-- health of the nodes that the services see is kept in memory by a batcher, health_batcher.go,
-- which writes it to the database from time to time. When nodes or groups change,
-- runtime_reconcile.go finds the port mappings that have to be reloaded, and runtime_route.go shows
-- which node each mapping uses.
--
-- The files.
--   Prelude and its children: the shared types, tests on numbers, lists, texts, maps, sorting.
--   ProxyUri.Unique: UniqueNonEmpty and FirstNonEmpty of service/proxyuri/uri.go.
--   Singbox.Time: time.Time and time.Duration. Singbox.Policy: Policy and its defaults (group.go).
--   Singbox.Node: node.go. State is the record and its connections, Marks what successes and
--     failures do, Revival the end of a blacklisting, Snapshot the view; Eligibility,
--     Blacklisting, LatencyClass and Accounting prove their laws.
--   Singbox.Balancer: balancer.go; Fairness and Members prove its laws.
--   Singbox.RevivalOrder: the sort of the revival candidates (group.go); Lexicographic its laws.
--   Singbox.Errors and Singbox.StartError: errors.go.
--   Singbox.Group: group.go. State is DynamicGroup with its tracked connections, Members the
--     operations on nodes, Candidates the choice of nodes, Dial the dials, Traffic the reads and
--     writes, Probe the probes, Snapshot the view; Ledger, Soundness, Sound, Selection, Ordering,
--     Offer, Revived, Liveness, LeastLatency, Dialed and Blame prove their laws.
--   Singbox.Manager: what the core relies on of sing-box's outbound manager.
--   Singbox.Core: core.go. State is the core with its removals and creations, Groups and Nodes the
--     calls, Upkeep probes, collection and the view; Tags, Removal, Groupwise, GroupCalls, NodeCalls
--     and Reach prove their laws.
--   Service.Errors: the errors of service/proxy.
--   Service.Health: health_batcher.go, with the calls of health.go that change the health of a node.
--     State is the data and the configuration, Record what one result does, Store the database,
--     Batcher the loading and the calls, Flush the flush, the loop and the shutdown, Changes the
--     changes by hand. Window, Evolution, ChangeLaws, Payloads, Settling, Writing, Coherence,
--     Flushing and FlushLaws prove the laws of a flush, Loading and LoadLaws those of a load, Restart
--     joins them; Errors, Blacklisting and Readers are about what their names say.
--   Service.Rows: the readers of rows of dto.go. Service.Reconcile: runtime_reconcile.go. Closure is
--     a pass over rows and the loop that repeats it, Affected the code's loops and queries; Sweeping,
--     Reaching, Spreading, Rounds and Completeness are about the loops.
--   Service.Route: runtime_route.go. State is the routes of the status and their lookup, Selected
--     the routes of the snapshots; Steps, Ending, Leading and Finding are about the search for the
--     selected node, Order and Sorted about the list of the routes.
--   The Examples modules run the theorems on small inputs.
--
-- How code and model correspond. A method is a function by the same words in snake case that takes
-- the receiver's state and returns the new one, beside its result; a call that returns an error is
-- a Result. Methods of the core that the group also has are named with `member` or `group`. Nodes
-- and connections are pointers in the code and numbered cells in the model, so a connection keeps
-- its node after the node has left the map. Every reading of the clock is a parameter, as are the
-- answers of the network, of the outbounds and of the URI reader, and the swaps of the random
-- balancer, and the names of sing-box's built-in outbounds. The database of the services is a
-- record of its calls, each of which may fail, with the laws of what they change and find; a query
-- of the reconciliation is its rows or an error, and the JSON of the rows is read by a parameter.
-- Callbacks are events of the group. A panic of the code is an answer of its own.
--
-- Bounds. The loops of Service.Reconcile, which run until nothing changes, take fuel, one more than
-- there are nodes and groups: every round but the last adds one. The search of Service.Route for
-- the selected node takes one more than there are groups, since it visits none twice. Nothing else
-- takes fuel: all other loops are over lists. The revision of a node's health wraps at 2^64. The
-- counter of the round robin wraps at 2^64 and its conversion to int is written out; failure
-- counters, connection numbers and times are unbounded. An instant is a number of nanoseconds since
-- Go's zero time.
--
-- Concurrency. Each method runs as one step, as under its locks. The step relation of
-- Singbox.Group.Sound.Reach has dials and probe rounds both as a whole and in their parts, so that
-- other calls may come between the parts. A flush of the batcher takes the changes that come
-- between its two locks as an argument. Go's memory model is not modelled.
--
-- Tests. The unit tests of core/singboxcore ask that DisableNode and RemoveNode cut the open
-- connections of the node, and this library follows them and the code. The integration test
-- TestEmbeddedDynamicGroupDoesNotDropExistingStream, which runs only where two proxy URIs are given,
-- asks for the opposite.
--
-- Not modelled: the construction of the sing-box instance (NewCore, BoxContext, BaseOutbounds), the
-- latency probe of probe.go, the outbounds made of URIs, the rest of service, and the packages api,
-- model and utils, whose work is mostly on the database, the network and HTTP. A shutdown of the
-- batcher comes between calls, and not in the middle of one.
pub mod Prelude
pub mod ProxyUri
pub mod Singbox
pub mod Service
