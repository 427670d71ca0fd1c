-- ===== src/Lib.antt =====
-- syncmesh, a file synchronisation service for Docker volumes on several nodes, in Go.
--
-- Parts and files:
--   Common, Json: texts, maps, 64-bit integers, instants, and JSON as encoding/json decodes it.
--   Config: internal/config/config.go. The records, Validate with its errors, the defaults, and Load.
--   Cluster: internal/cluster/manager.go. State has Manager with AddNode, RemoveNode and
--     UpdateNodeStatus; Leadership the elections and IsLeaderForFile; Membership the merge of what
--     other nodes report (updateClusterMembership, UpdateNodesFromHeartbeat); Network the requests
--     that the manager makes (joinCluster, sendHeartbeatToNode, refreshClusterMembership); Lifecycle
--     Start, Stop and performRaftTick. WellFormed, Keeping and Steps hold the invariant, Elections
--     and Agreement who wins, Hashing and FileLeaders who leads a file, Failover the tick, Starts the
--     errors of Start, Merging and Heartbeats what is received.
--   FileSync: internal/p2p/file_sync.go, with types.go and FileState of node.go. State has the table
--     of file states, Conflicts the strategies, Files the writes, Messages the handlers, Workers Start
--     Stop and the workers' loop. Decisions, Dispatch, Exchange, Arrival, Trading, Conflicting,
--     Converging, Manual, Writes and Restart are the proofs.
--   Engine: internal/sync/engine.go. State has the watcher's events and the life of the engine,
--     Patterns the filter, Announcing the events that are published, Watching the loop; Running and
--     Spreading say what they lead to at other peers.
--   P2pCluster: internal/p2p/cluster.go, with the records of types.go and node.go. Messages has the
--     handlers and what is published, Periodic the loop of periodicTasks; Elections and Announcing
--     are the proofs.
--   Transport: internal/p2p/real_pubsub.go. MockTopics: internal/p2p/mock_pubsub.go. Discovery:
--     internal/p2p/discovery.go, with the loops in Visiting and any sequence of calls in Table.
--   P2pNode: internal/p2p/node.go, which holds the protocols. State starts and stops them, Health is
--     the periodic check, Views what the node tells of its peers, Peers, Isolation, Failover and
--     Stopping are proofs.
--   Grpc: pkg/grpc/server.go, and in Messages pkg/proto/proto.go. Serving is NewServer, Access the
--     interceptors, Files, Cluster and Streams the calls.
--   Api: pkg/api/handler.go. Routes is NewHTTPHandler with its table of routes, State, Nodes and Uploads
--     the handlers; Serving and Listing are proofs.
--   Docker: internal/docker/client.go. Monitoring: internal/monitoring/service.go.
--   Server: internal/server/server.go. The module has the components, Running the network services and
--     Start with the goroutines that can panic; Components, Serving, Tickers, Stopping, Ending and
--     Defaults are proofs.
--   Witnesses: tests.
--
-- How the parts meet: the server starts the node, the engine and monitoring; the engine hands the
-- changes of local files to the node's file synchronisation; a peer announces a changed file, another
-- peer asks for it, and the first answers. The two APIs read what the node tells. A Manager keeps the
-- map of nodes and the leader's id, and other nodes change them by HTTP. State is passed explicitly.
-- A method with locks is one step, and goroutines are steps in any order: the relation Step for the
-- manager, run_request for a request that waits to be sent, run_pending for an event that waits to be
-- processed, the relation Move for the readers and writers of a channel. A loop over a select runs
-- over the list of what the select finds. A goroutine that the start of a component spawns is a function
-- of its own, and whether it panics before its first select is heeded where the program runs: run_server
-- has goroutine_panics for periodicTasks and healthCheckWorker, the two that start a ticker with an
-- interval of the configuration, and an argument for whether they run before the program ends with an
-- error. Its argument `registers` is whether the mux of net/http takes the paths of monitoring's pages;
-- it panics otherwise.
--
-- Conventions: a Go map is an association list, and where the source ranges over one the order in
-- which it is visited is an argument, which Enumerates ties to the map. A peer.ID is its text. A panic
-- is none, or an error. time.Time is an unbounded number of nanoseconds; time.Duration, int64
-- counters and hashes wrap. Time, HTTP, JSON of messages, the file system, SHA-256, fsnotify, libp2p
-- and the publish/subscribe service are parameters; IsCodec and IsFileSystem say what is assumed of
-- two of them. All loops run over lists or a number of attempts, so no fuel is needed.
--
-- Not modelled: cmd, main.go and internal/logger, which are calls of cobra and logrus; what
-- viper, chi, net/http, gRPC, Prometheus and libp2p do; the timestamps of the API's answers;
-- logging. The sharing of *Node pointers with a caller, and of *PeerState pointers between a
-- node's peers and the cluster's state, is left out. The manager's tick and join release their locks
-- between their parts, where another operation could come in; as steps of Step they are whole. A JSON
-- number outside the range of int64, whose conversion depends on the machine, is truncated to an
-- unbounded integer. The id of a new node's host is one argument of new_node and the id of the host that
-- is created another one of start_node; they are the same in the program.
pub mod Common
pub mod Json
pub mod Config
pub mod Api
pub mod Cluster
pub mod FileSync
pub mod Monitoring
pub mod P2pCluster
pub mod P2pNode
pub mod Server
pub mod Discovery
pub mod Docker
pub mod Engine
pub mod Grpc
pub mod MockTopics
pub mod Transport
pub mod Witnesses
