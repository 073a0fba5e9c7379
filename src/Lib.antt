-- ===== src/Lib.antt =====
-- A verification library for two crates of the repository: neo-uptime-node, the probe that checks
-- the nodes of a backend and reports on them, and parts of easytier, the VPN that it runs.
--
-- The probe. Every so often it fetches the peers that the backend names (backend_client.rs),
-- brings them into a table of nodes (`sync_peers_to_db` in main.rs, over db/operations.rs), and
-- checks each node of the table (health_checker.rs). A check is counted in two rings of 96 slots,
-- a quarter of an hour each. Every so often it reports on each node to the backend, under the
-- backend's id, which it reads from the node's description (`start_status_report_task` in main.rs).
-- easytier's RPC cuts a message into pieces and merges them again (proto/rpc_impl/packet.rs); its
-- rate limiter is a token bucket that threads share without a lock (common/token_bucket.rs); its
-- proxies put IPv4 fragments together and take packets apart (gateway/ip_reassembler.rs).
--
-- easytier's access control (peers/acl_filter.rs, common/acl_processor.rs) judges each packet by the
-- rules of a configuration, which `AclRuleBuilder` may make of port whitelists. A processor keeps
-- a cache of entries that name a rule, a token bucket for each rule with a rate limit, a table of
-- connections and counters; a task forgets old entries and buckets, and a reload makes a new
-- processor that keeps the buckets, connections and counters.
--
-- easytier's routing (peers/peer_ospf_route.rs): peers tell each other, in sessions, which peers there
-- are, to whom each is connected and which groups it is in; each keeps of this the newest that it has
-- heard, and computes from it a table of next hops by shortest paths (peers/graph_algo.rs).
--
-- The files, with the code that they model (paths from neo-uptime-node/src or easytier/src):
--   Prelude          what all modules share: Boolean tests, lists over native numbers, `u64`, `i32`,
--                    texts as lists of bytes, and decimal numbers (`i32`'s `Display` and `FromStr`)
--   Probe/Status     `HealthStatus` (db/mod.rs)
--   Probe/Ring       `RingItem` and the rings (health_checker.rs); Ring/Slots: slots and rounds
--   Probe/Record     `HealthyMemRecord` and its methods (health_checker.rs); below it, History: a
--                    record as a replay of checks; Tallies, CounterRing, Stats, Load: what is proved
--                    of the methods; FromRecords: `HealthStats::from_records` (db/mod.rs)
--   Probe/Db         the table of nodes (db/operations.rs, models.rs); Db/Laws
--   Probe/Check      a check of a node (health_checker.rs): Check/Destination: what its parts mean;
--                    Check/Found: what a passed test has found; Check/Passes: what a pass of the task leaves
--   Probe/Manager    which nodes are checked (health_checker_manager.rs); Manager/Follow
--   Probe/Backend    the data and requests of backend_client.rs
--   Probe/Report     what is reported of a node (main.rs); Report/Retry: the retry loop
--   Probe/Sync       `sync_peers_to_db` (main.rs); Sync/Keeps, Sync/Resync
--   Rpc              proto/rpc_impl/packet.rs; Rpc/Chunks: cutting; Rpc/Merge: merging
--   Limiter          common/token_bucket.rs; Limiter/Threads: interleavings of its loops
--   Reassembler      gateway/ip_reassembler.rs; Reassembler/Overlap; Reassembler/Compose
--   Acl              the data of common/acl_processor.rs and proto/acl.proto
--   Acl/Rules        reading rules and matching packets; Rules/Sorted, Rules/Unreadable
--   Acl/State        the state of `AclProcessor`; State/Cleanup: what is kept of it;
--                    State/Track: the table of connections
--   Acl/Entry        the configuration of `AclProcessor`, the results and entries of its rules
--   Acl/Process      `process_packet`. Verdict: what the configuration says of a packet; Sound: the
--                    invariant of the cache and the buckets; Limits, Cleanup, Keep, Uncached,
--                    Hit, Correct, Sweep: it is kept; Serve: sequences of events; Highest, Decide: which
--                    rule decides; Counts: the counters
--   Acl/Builder      `AclRuleBuilder`; Builder/Ports, Builder/Listed, Builder/Whitelist,
--                    Builder/Merged
--   Acl/Filter       peers/acl_filter.rs; Filter/Extracted, Filter/Answers
--   Route/Dijkstra   peers/graph_algo.rs, for natural numbers with any addition. Walks: what scores and first
--                    hops mean; Edges, Turns, Rounds: the invariant of the loops; Correct; Within,
--                    Fits: an addition that wraps; Heap: a heap as it is assumed
--   Route/Messages   the messages of proto/peer_rpc.proto
--   Route/Newest     entries with versions, of which the newest stays
--   Route/Synced     `SyncedRouteInfo` and `update_peer_infos`; Infos, Merging, Order
--   Route/Conns      the connections and foreign networks of `SyncedRouteInfo`; Filled, Merged
--   Route/Trust      the trusted groups of `SyncedRouteInfo`; Caches, Proofs, Shown, Earned
--   Route/Session    `SyncRouteSession`; Saved, Restart
--   Route/Table      the next hops of `RouteTable`. Links, Paths: the graph of peers and its paths;
--                    Entries: the loop over the first hops; Hops: what a table says; LeastCost,
--                    Tight, LeastHop: the two policies; Small: sums that fit
--   Route/Graph      the graph of peers, and how `build_from_synced_info` computes the next hops; Nodes,
--                    Linked, Routes
--   Tests            the theorems at concrete inputs
--
-- How the code corresponds. A method that changes its object is a function from the object to the
-- changed one. Each reading of a clock is an argument, in whole seconds where the code uses those
-- (`update_peer_infos` stamps all infos of a call with one reading).
-- `u64`, `u16` and `i32` arithmetic wraps (the release profile has no overflow checks). A panic and
-- an error are values. The database is a parameter, the record `Orm` of Probe/Db: every call may
-- fail, and its fields name what the code relies on (an insertion takes a free id, an update
-- changes the one row, a failing call changes no row). A replay of checks (Probe/Record/History)
-- is a list of calls of `update_health_status`, the last one first. The token bucket is a step
-- relation run over a list of moves: a move is one atomic access of one thread, and an exchange can
-- fail though the value is unchanged, as the weak exchange may.
--
-- A hash map is an association list (Prelude/Assoc). A call on the processor reads the clocks once:
-- the process clock in nanoseconds, on which entries and buckets age, and the system clock in
-- seconds. The counters of a rule stand under its chain type and its place among the rules. A
-- panic of `unwrap` or `panic!` is `none`. Calls on one processor come one after the other; the
-- loops of a bucket succeed at the first try then. The crate `cidr`, `str::trim` and the packet
-- fields that pnet reads are parameters (`CidrLib` of Acl, `PnetLib` of Acl/Filter).
--
-- The code takes from std's `BinaryHeap` that `pop` gives a greatest entry (the record `BinaryHeap` of
-- Route/Dijkstra), and from petgraph the edges of a node, in any order, and the least costs of its own
-- `dijkstra` where no sum overflows (`Petgraph` of Route/Table). The addition of costs is an argument of the
-- search, as its type of costs is in the code; the next hops use that of `usize`, which wraps. Where
-- a theorem needs sums that fit, it says so: no cost of 2 ^ 32 or more and at most 2 ^ 32 nodes
-- (`IsSmall` of Route/Table/Links), which latencies that are not negative give. The set of visited nodes is petgraph's `VisitMap`, a
-- list of node indices here. A `BTreeSet` is an ascending list, a `DashMap` an association list, and
-- the calls on one `SyncedRouteInfo`, `RouteTable` or session come one after the other. A version is a
-- `u32` and its counter wraps. The check of a group proof (HMAC) and the reading of the dynamic
-- messages are arguments.
--
-- Bounds and fuel. The search for shortest paths has two more rounds than there are edges, as each
-- round takes an entry off the heap and each edge puts one on it at most, and is proved to end. The retry loop has fuel 3, the number of tries, and is proved to end in one of
-- its ways within it. `build_rpc_packet` has the length of the content as fuel (each pass takes a
-- byte or more), and the theorem on the bodies shows that it is enough. `compose_ipv4_packet` has
-- one more than the length of the payload, for the same reason. Texts are sequences of bytes.
--
-- Not modelled: HTTP, SQL, logs, timers and tasks; the protobuf encoding, compression and
-- `ZCPacket`; floating point numbers and `str::to_lowercase`, which are parameters; how much a
-- refill adds, which is an argument of the move. Of the routing: tasks and RPC calls, the choice of
-- initiators, our own info (`update_self`) and foreign networks, the maps from addresses to peers in
-- `RouteTable`. The rest of easytier.
pub mod Prelude
pub mod Probe
pub mod Rpc
pub mod Limiter
pub mod Reassembler
pub mod Route
pub mod Acl
pub mod Tests
