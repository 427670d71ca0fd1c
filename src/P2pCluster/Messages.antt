-- ===== src/P2pCluster/Messages.antt =====
-- internal/p2p/cluster.go: the messages that a peer publishes, and the handlers of those it gets.
use syncmesh.Common.{
  String, Bool, not, none, some, [], ◌∷◌, ◌==◌, Time, Map, lookup, insert, erase, if◌then◌else◌,
}
use syncmesh.Json.{Json, text}
use syncmesh.P2pCluster.State.{ClusterMessage, PeerState, ClusterProtocol}

-- `for k, v := range source { target[k] = v }`.
unfoldable pub copy_into : Map Json → Map Json → Map Json
copy_into target [] = target
copy_into target ((k, v) ∷ source) = copy_into (insert k v target) source

-- The message that `publishClusterMessage` builds.
unfoldable pub cluster_message : Time → String → Map Json → ClusterProtocol → ClusterMessage
cluster_message now msg_type entries c = record {
  type = msg_type;
  peer_id = "";
  leader_id = c.cluster_state.leader;
  metadata = copy_into (copy_into [] c.cluster_state.metadata) entries;
  timestamp = now;
}

-- The handlers' entry for the sender.
unfoldable pub active_peer : Time → ClusterMessage → PeerState
active_peer now msg = record {
  id = msg.peer_id;
  addresses = [];
  status = "active";
  last_seen = now;
  metadata = msg.metadata;
}

-- `handleHeartbeat`.
unfoldable pub handle_heartbeat : Time → ClusterMessage → ClusterProtocol → ClusterProtocol
handle_heartbeat now msg c = record c {
  peer_states = insert msg.peer_id (active_peer now msg) c.peer_states;
  cluster_state = record c.cluster_state { last_update = now };
}

-- `handleLeaderElection`.
unfoldable pub handle_leader_election : Time → ClusterMessage → ClusterProtocol → ClusterProtocol
handle_leader_election now msg c = record c {
  cluster_state = record c.cluster_state {
    leader = msg.leader_id;
    last_update = now;
    metadata = copy_into c.cluster_state.metadata msg.metadata;
  };
}

-- `handlePeerJoin`.
unfoldable pub handle_peer_join : Time → ClusterMessage → ClusterProtocol → ClusterProtocol
handle_peer_join now msg c = record c {
  peer_states = insert msg.peer_id (active_peer now msg) c.peer_states;
  cluster_state = record c.cluster_state {
    peers = insert msg.peer_id (active_peer now msg) c.cluster_state.peers;
  };
}

-- The entries that `startLeaderElection` adds.
abbrev pub election_entries : ClusterProtocol → Map Json
election_entries c = ("candidate", text c.host_id) ∷ ("term", text "1") ∷ []

-- The heartbeat of its own that `handleMessages` processes at each tick.
unfoldable pub own_heartbeat : Time → ClusterProtocol → ClusterMessage
own_heartbeat now c = record {
  type = "heartbeat";
  peer_id = c.host_id;
  leader_id = c.cluster_state.leader;
  metadata = [];
  timestamp = now;
}

-- The answer of the service to a message: it can be marshalled and is taken.
module _ (publish : ClusterMessage → Bool) where
  -- `publishClusterMessage`; its callers here drop the error.
  unfoldable pub publish_cluster_message :
      Time → String → Map Json → ClusterProtocol → ClusterProtocol
  publish_cluster_message now msg_type entries c =
      let msg = cluster_message now msg_type entries c in
      if publish msg then record c { published = msg ∷ c.published } else c

  -- `startLeaderElection`.
  unfoldable pub start_leader_election : Time → ClusterProtocol → ClusterProtocol
  start_leader_election now c = publish_cluster_message now "leader_election" (election_entries c) c

  -- `sendHeartbeat`.
  unfoldable pub send_heartbeat : Time → ClusterProtocol → ClusterProtocol
  send_heartbeat now c =
      publish_cluster_message now "heartbeat"
        (("node_id", text c.host_id) ∷ ("status", text "active") ∷ []) c

  -- `checkLeaderHealth`.
  unfoldable pub check_leader_health : Time → ClusterProtocol → ClusterProtocol
  check_leader_health now c =
      let election = start_leader_election now c in
      if c.cluster_state.leader == ""
      then election
      else elim (lookup c.cluster_state.leader c.peer_states) [
        | none ↦ election
        | some state ↦ if not (state.status == "active") then election else c
      ]

  -- `handlePeerLeave`.
  unfoldable pub handle_peer_leave : Time → ClusterMessage → ClusterProtocol → ClusterProtocol
  handle_peer_leave now msg c =
      let left = record c {
        peer_states = erase msg.peer_id c.peer_states;
        cluster_state = record c.cluster_state { peers = erase msg.peer_id c.cluster_state.peers };
      } in
      if msg.peer_id == c.cluster_state.leader then start_leader_election now left else left

  -- `processClusterMessage`.
  unfoldable pub process_cluster_message : Time → ClusterMessage → ClusterProtocol → ClusterProtocol
  process_cluster_message now msg c =
      if msg.type == "heartbeat"
      then handle_heartbeat now msg c
      else if msg.type == "leader_election"
      then handle_leader_election now msg c
      else if msg.type == "peer_join"
      then handle_peer_join now msg c
      else if msg.type == "peer_leave"
      then handle_peer_leave now msg c
      else c

  -- One tick of `handleMessages`.
  unfoldable pub handle_messages_tick : Time → ClusterProtocol → ClusterProtocol
  handle_messages_tick now c = process_cluster_message now (own_heartbeat now c) c
