-- ===== src/Discovery.antt =====
-- internal/p2p/discovery.go: the peers that mDNS finds. Its host and mDNS are parameters; a goroutine
-- that only logs is left out.
pub mod Visiting
pub mod Table
use syncmesh.Common.{
  String, Bool, true, false, Option, none, some, maybe, [], ◌∷◌, ◌==◌, Time, Map, insert, erase,
  modify, if◌then◌else◌,
}
use syncmesh.Json.{Json}
use syncmesh.P2pCluster.State.{PeerState, ClusterProtocol}
use syncmesh.Transport.State.{AddrInfo}

-- `mdns` says that Initialize has made a service.
pub record Discovery : Type 0 where
  pub discovered_peers : Map PeerState
  pub mdns : Bool
  pub running : Bool

pub data DiscoveryError : Type 0 where
  already_running mdns_failed : DiscoveryError

-- `NewDiscoveryProtocol`.
unfoldable pub new_discovery : Discovery
new_discovery = record { discovered_peers = []; mdns = false; running = false }

-- `Initialize`, with the setting of the configuration.
unfoldable pub initialize_discovery : Bool → Discovery → Discovery
initialize_discovery enabled d = if enabled then record d { mdns = true } else d

-- `Start`: the protocol counts as running also when mDNS fails.
unfoldable pub start_discovery : Bool → Discovery → Discovery × Option DiscoveryError
start_discovery mdns_starts d =
    let started = record d { running = true } in
    let failed = if mdns_starts then none else some DiscoveryError.mdns_failed in
    if d.running
    then (d, some DiscoveryError.already_running)
    else (started, if d.mdns then failed else none)

-- `Stop`.
unfoldable pub stop_discovery : Discovery → Discovery
stop_discovery d = if d.running then record d { running = false } else d

-- `AddPeer`.
unfoldable pub discovered_peer : Time → AddrInfo → PeerState
discovered_peer now pi = record {
  id = pi.id;
  addresses = pi.addrs;
  status = "active";
  last_seen = now;
  metadata = ("discovered", Json.text "true") ∷ [];
}

unfoldable pub add_peer : Time → AddrInfo → Discovery → Discovery
add_peer now pi d = record d {
  discovered_peers = insert pi.id (discovered_peer now pi) d.discovered_peers;
}

-- `updatePeerStatus`.
unfoldable pub update_discovered_status : Time → String → String → Discovery → Discovery
update_discovered_status now peer_id status d = record d {
  discovered_peers =
      modify peer_id (λ state. record state { status = status; last_seen = now })
        d.discovered_peers;
}

-- `connectToPeer` with the node's host, and whether Connect succeeds; `none` is the panic of a node
-- that has no host.
unfoldable pub connect_discovered :
    Option String → Bool → Time → AddrInfo → Discovery → Option Discovery
connect_discovered host connects now pi d = maybe host none λ id.
    if pi.id == id
    then some d
    else some (if connects then update_discovered_status now pi.id "active" d else d)

-- `HandlePeerFound`, with its goroutine.
unfoldable pub handle_discovered :
    Option String → Bool → Time → Time → AddrInfo → Discovery → Option Discovery
handle_discovered host connects now later pi d =
    connect_discovered host connects later pi (add_peer now pi d)

-- `RemovePeer`: of the protocol, of the node and of the state of the cluster.
unfoldable pub remove_peer : String → Discovery → ClusterProtocol → Discovery × ClusterProtocol
remove_peer peer_id d c = (
  record d { discovered_peers = erase peer_id d.discovered_peers },
  record c {
    peer_states = erase peer_id c.peer_states;
    cluster_state = record c.cluster_state { peers = erase peer_id c.cluster_state.peers };
  },
)
