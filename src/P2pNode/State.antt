-- ===== src/P2pNode/State.antt =====
-- internal/p2p/node.go: the node's parts, and how it starts and stops them. The maps of the node's
-- peers and the state of the cluster stand in `cluster_sync`, which reads and changes them, and the
-- states of its files in `file_sync`. Nothing sets `host`.
use syncmesh.Common.{String, Bool, true, false, Option, none, some, maybe, if◌then◌else◌}
use syncmesh.Config.{FileSyncConfig}
use syncmesh.FileSync.State.{Peer, new_file_sync_protocol}
use syncmesh.FileSync.Workers as Workers
use syncmesh.P2pCluster.State.{ClusterProtocol, start_protocol, stop_protocol, new_cluster_protocol}
use syncmesh.Transport.State.{
  Transport, TransportError, new_transport, set_file_sync_callback, start_transport, stop_transport,
}
use syncmesh.Discovery.{Discovery, DiscoveryError, new_discovery, start_discovery, stop_discovery}

pub record P2pNode (Fs : Type 0) : Type 0 where
  pub host : Option String
  pub transport : Transport
  pub file_sync : Peer Fs
  pub cluster_sync : ClusterProtocol
  pub discovery : Discovery
  pub running : Bool

pub data NodeError : Type 0 where
  transport_failed : TransportError → NodeError
  file_sync_failed cluster_sync_failed : NodeError
  discovery_failed : DiscoveryError → NodeError

module _ {Fs : Type 0} where
  -- `NewP2PNode` with `initializeProtocols`; the host's id is the one that it will have.
  unfoldable pub new_node : String → FileSyncConfig → Fs → P2pNode Fs
  new_node host_id config files = record {
    host = none;
    transport = set_file_sync_callback new_transport;
    file_sync = new_file_sync_protocol host_id config files;
    cluster_sync = new_cluster_protocol host_id;
    discovery = new_discovery;
    running = false;
  }

  -- The parts of `Start` after each other; a part that has started stays so when a later one fails.
  unfoldable pub start_found : Bool → P2pNode Fs → P2pNode Fs × Option NodeError
  start_found mdns_starts n =
      let found = start_discovery mdns_starts n.discovery in
      maybe found.1 (record n { discovery = found.0; running = true }, none)
        λ e. (record n { discovery = found.0 }, some (NodeError.discovery_failed e))

  unfoldable pub start_clustered : Bool → P2pNode Fs → P2pNode Fs × Option NodeError
  start_clustered mdns_starts n =
      maybe (start_protocol n.cluster_sync) (n, some NodeError.cluster_sync_failed)
        λ c. start_found mdns_starts (record n { cluster_sync = c })

  unfoldable pub start_synced : Bool → P2pNode Fs → P2pNode Fs × Option NodeError
  start_synced mdns_starts n =
      maybe (Workers.start n.file_sync) (n, some NodeError.file_sync_failed)
        λ f. start_clustered mdns_starts (record n { file_sync = f })

  -- `Start`: the id of the host that is created, whether the calls of the service succeed, and
  -- whether mDNS starts.
  unfoldable pub start_node :
      Option String → Bool → Bool → Bool → Bool → P2pNode Fs → P2pNode Fs × Option NodeError
  start_node host gossip joins subscribes mdns_starts n =
      let sent = start_transport host gossip joins subscribes n.transport in
      let served = record n { transport = sent.0 } in
      if n.running
      then (n, none)
      else maybe sent.1 (start_synced mdns_starts served)
          λ e. (served, some (NodeError.transport_failed e))

  -- `Stop`: `none` is a panic of the publish/subscribe service or of the file synchronisation.
  unfoldable pub stop_node : P2pNode Fs → Option (P2pNode Fs)
  stop_node n =
      let stopped = maybe (stop_transport n.transport) none λ transport.
        maybe (Workers.stop n.file_sync) none λ f. some (record n {
          transport = transport;
          file_sync = f;
          cluster_sync = stop_protocol n.cluster_sync;
          discovery = stop_discovery n.discovery;
          running = false;
        }) in
      if n.running then stopped else some n

  -- `GetLeaderID`, and `IsLeader`, which panics before a host is created.
  unfoldable pub get_leader_id : P2pNode Fs → String
  get_leader_id n = n.cluster_sync.cluster_state.leader
