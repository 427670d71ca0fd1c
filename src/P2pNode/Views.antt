-- ===== src/P2pNode/Views.antt =====
-- internal/p2p/node.go: what the node tells of its peers.
use syncmesh.Common.{
  ℕ, suc, String, Bool, Option, none, some, maybe, List, [], ◌∷◌, ◌==◌, Time, Map, insert,
  if◌then◌else◌,
}
use syncmesh.Json.{Json}
use syncmesh.P2pCluster.State.{PeerState}
use syncmesh.Transport.State.{peer_count}
use syncmesh.P2pNode.State.{P2pNode, get_leader_id}

-- The metadata of a peer are a `map[string]interface{}`, those of the node itself a
-- `map[string]string`.
pub data Metadata : Type 0 where
  of_values : Map Json → Metadata
  of_texts : Map String → Metadata

pub record NodeView : Type 0 where
  pub id : String
  pub addresses : List String
  pub status : String
  pub last_seen : Time
  pub metadata : Metadata

unfoldable pub peer_view : String → PeerState → NodeView
peer_view peer_id state = record {
  id = peer_id;
  addresses = state.addresses;
  status = state.status;
  last_seen = state.last_seen;
  metadata = Metadata.of_values state.metadata;
}

unfoldable pub self_view : Time → List String → String → NodeView
self_view now addrs host_id = record {
  id = host_id;
  addresses = addrs;
  status = "active";
  last_seen = now;
  metadata = Metadata.of_texts (("self", "true") ∷ []);
}

-- The loops of `GetNodes`, `GetActiveNodes` and `getActivePeerCount`.
unfoldable pub peer_views : Map PeerState → Map NodeView
peer_views [] = []
peer_views ((k, state) ∷ m) = (k, peer_view k state) ∷ peer_views m

unfoldable pub active_views : Map PeerState → Map NodeView
active_views [] = []
active_views ((k, state) ∷ m) =
    let rest = active_views m in
    if state.status == "active" then (k, peer_view k state) ∷ rest else rest

unfoldable pub active_count : Map PeerState → ℕ
active_count [] = 0
active_count ((k, state) ∷ m) =
    let rest = active_count m in if state.status == "active" then suc rest else rest

-- What `Health` returns.
pub record NodeHealth : Type 0 where
  pub running : Bool
  pub node_id : String
  pub peers : ℕ
  pub leader : String
  pub is_leader : Bool
  pub last_update : Time

module _ {Fs : Type 0} where
  -- With the clock and the addresses of the host; `none` is the panic of a service without a host.
  unfoldable pub get_nodes : Time → List String → P2pNode Fs → Option (Map NodeView)
  get_nodes now addrs n =
      maybe n.transport.host_id none
        λ id. some (insert id (self_view now addrs id) (peer_views n.cluster_sync.peer_states))

  unfoldable pub get_active_nodes : Time → List String → P2pNode Fs → Option (Map NodeView)
  get_active_nodes now addrs n =
      maybe n.transport.host_id none
        λ id. some (insert id (self_view now addrs id) (active_views n.cluster_sync.peer_states))

  unfoldable pub get_active_peer_count : P2pNode Fs → ℕ
  get_active_peer_count n = active_count n.cluster_sync.peer_states

  -- `IsLeader`, and `Health`.
  unfoldable pub node_is_leader : P2pNode Fs → Option Bool
  node_is_leader n = maybe n.transport.host_id none λ id. some (get_leader_id n == id)

  unfoldable pub node_health : P2pNode Fs → Option NodeHealth
  node_health n = maybe n.transport.host_id none λ id. some (record {
    running = n.running;
    node_id = id;
    peers = peer_count n.transport;
    leader = get_leader_id n;
    is_leader = get_leader_id n == id;
    last_update = n.cluster_sync.cluster_state.last_update;
  })
