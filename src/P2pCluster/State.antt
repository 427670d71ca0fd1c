-- ===== src/P2pCluster/State.antt =====
-- internal/p2p/cluster.go, types.go and node.go: the messages, and the state of a peer that the
-- handlers change. The connections and the unused consensus record are left out.
use syncmesh.Common.{
  String, Bool, false, Option, none, some, maybe, List, [], zero_time, Time, Map, if◌then◌else◌,
  true, ◌==◌,
}
use syncmesh.Json.{Json}

pub record ClusterMessage : Type 0 where
  pub type : String
  pub peer_id : String
  pub leader_id : String
  pub metadata : Map Json
  pub timestamp : Time

pub record PeerState : Type 0 where
  pub id : String
  pub addresses : List String
  pub status : String
  pub last_seen : Time
  pub metadata : Map Json

pub record ClusterState : Type 0 where
  pub leader : String
  pub peers : Map PeerState
  pub metadata : Map Json
  pub last_update : Time

-- The protocol, with what it reads and changes of its node, and the messages that it has handed to
-- the publish/subscribe service, newest first.
pub record ClusterProtocol : Type 0 where
  pub host_id : String
  pub peer_states : Map PeerState
  pub cluster_state : ClusterState
  pub running : Bool
  pub published : List ClusterMessage

-- `NewClusterProtocol` on the node that `NewP2PNode` makes.
unfoldable pub new_cluster_protocol : String → ClusterProtocol
new_cluster_protocol host_id = record {
  host_id = host_id;
  peer_states = [];
  cluster_state = record { leader = ""; peers = []; metadata = []; last_update = zero_time };
  running = false;
  published = [];
}

-- `UpdateClusterState`.
unfoldable pub update_cluster_state : ClusterState → ClusterProtocol → ClusterProtocol
update_cluster_state state c = record c { cluster_state = state }

-- `IsLeader` with the node's `host`; `none` is the panic of a node that has none.
unfoldable pub is_leader : Option String → ClusterProtocol → Option Bool
is_leader host c = maybe host none λ id. some (c.cluster_state.leader == id)

-- `Start`: `none` is the error that the protocol is running already. Of the goroutines that it spawns,
-- `periodic_tasks` (P2pCluster.Periodic) can panic, which a run of the server heeds (Server.Running).
unfoldable pub start_protocol : ClusterProtocol → Option ClusterProtocol
start_protocol c = if c.running then none else some (record c { running = true })

-- `Stop`.
unfoldable pub stop_protocol : ClusterProtocol → ClusterProtocol
stop_protocol c = if c.running then record c { running = false } else c
