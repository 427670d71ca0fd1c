-- ===== src/P2pNode/Isolation.antt =====
-- internal/p2p/node.go with cluster.go: what a node comes to know of the others. The program hands no
-- message of another peer to the cluster protocol, so its steps are those of the node itself.
use syncmesh.Common.{
  ◌≡◌, refl, ◌≢◌, ◌∙◌, ap, String, Bool, Option, none, some, [], ◌∷◌, eq_iff, Time, Map, lookup,
  insert, erase, lookup-insert, lookup-erase, if_elim, arith,
}
use syncmesh.Json.{Json}
use syncmesh.Config.{FileSyncConfig}
use syncmesh.FileSync.State.{Peer}
use syncmesh.P2pCluster.State.{
  ClusterMessage, PeerState, ClusterProtocol, start_protocol, stop_protocol, new_cluster_protocol,
}
use syncmesh.P2pCluster.Messages.{
  own_heartbeat, active_peer, handle_heartbeat, process_cluster_message, handle_messages_tick,
  publish_cluster_message, start_leader_election, send_heartbeat, check_leader_health,
}
use syncmesh.Transport.State.{Transport, start_transport}
use syncmesh.Discovery.{Discovery, remove_peer}
use syncmesh.P2pNode.State.{
  P2pNode, new_node, start_node, start_synced, start_clustered, start_found, stop_node,
}
use syncmesh.P2pNode.Health.{
  check_all, drop_old, with_peers, check_peer_health, cleanup_cluster_state, periodic_tick,
  lookup-check_all,
}

-- No key but one.
abbrev pub OnlySelf : String → Map PeerState → Type 0
OnlySelf id m = (k : String) → id ≢ k → lookup k m ≡ none

drop_old-OnlySelf :
    (id : String) (cutoff : Time) (m : Map PeerState)
    → OnlySelf id m
    → OnlySelf id (drop_old cutoff m)
unfolding lookup drop_old
drop_old-OnlySelf id cutoff m only k other = gone m (only k other)
  where
    gone : (m : Map PeerState) → lookup k m ≡ none → lookup k (drop_old cutoff m) ≡ none
    gone [] e = refl
    gone ((j, state) ∷ m) e = ground (arith, gone m)

check_all-OnlySelf :
    (id : String) (stamp later : String → Time) (m : Map PeerState)
    → OnlySelf id m
    → OnlySelf id (check_all stamp later m)
check_all-OnlySelf id stamp later m only k other =
    lookup-check_all stamp later k m ∙ rw (only k other) refl

insert-OnlySelf :
    (id : String) (state : PeerState) (m : Map PeerState)
    → OnlySelf id m
    → OnlySelf id (insert id state m)
insert-OnlySelf id state m only k other =
    ground (arith, lookup-insert id k state m, eq_iff id k, only k other)

erase-OnlySelf : (id j : String) (m : Map PeerState) → OnlySelf id m → OnlySelf id (erase j m)
erase-OnlySelf id j m only k other = ground (arith, lookup-erase j k m, only k other)

-- The parts of the protocol that decide who is known and who leads.
abbrev Agree : ClusterProtocol → ClusterProtocol → Type 0
Agree c d =
    (d.host_id ≡ c.host_id)
    × (d.peer_states ≡ c.peer_states)
    × (d.cluster_state.leader ≡ c.cluster_state.leader)

-- There is no leader, and no peer but the node itself.
pub record IsAlone (id : String) (c : ClusterProtocol) : Type 0 where
  pub own : c.host_id ≡ id
  pub only : OnlySelf id c.peer_states
  pub leaderless : c.cluster_state.leader ≡ ""

Agree-IsAlone : (id : String) (c d : ClusterProtocol) → Agree c d → IsAlone id c → IsAlone id d
Agree-IsAlone id c d (e₁, e₂, e₃) a = record {
  own = e₁ ∙ a.own;
  only = λ k other. ap (λ (m : Map PeerState). lookup k m) e₂ ∙ a.only k other;
  leaderless = e₃ ∙ a.leaderless;
}

module _ (publish : ClusterMessage → Bool) where
  publish_cluster_message-Agree :
      (now : Time) (type : String) (entries : Map Json) (c : ClusterProtocol)
      → Agree c (publish_cluster_message publish now type entries c)
  unfolding publish_cluster_message
  publish_cluster_message-Agree now type entries c =
      if_elim (Agree c) _ _ _ (λ _. (refl, refl, refl)) (λ _. (refl, refl, refl))

  check_leader_health-Agree :
      (now : Time) (c : ClusterProtocol) → Agree c (check_leader_health publish now c)
  unfolding check_leader_health start_leader_election publish_cluster_message
  check_leader_health-Agree now c = (ground arith, ground arith, ground arith)

  handle_messages_tick-IsAlone :
      (id : String) (now : Time) (c : ClusterProtocol)
      → IsAlone id c
      → IsAlone id (handle_messages_tick publish now c)
  unfolding handle_messages_tick process_cluster_message own_heartbeat handle_heartbeat active_peer
  handle_messages_tick-IsAlone id now c a = record {
    own = a.own;
    only = λ k other. rw a.own (insert-OnlySelf id _ c.peer_states a.only k other);
    leaderless = a.leaderless;
  }

module _ {Fs : Type 0} where
  start_node-Agree :
      (host : Option String) (gossip joins subscribes mdns_starts : Bool) (n : P2pNode Fs)
      → Agree n.cluster_sync (start_node host gossip joins subscribes mdns_starts n).0.cluster_sync
  unfolding start_node start_synced start_clustered start_found start_transport start_protocol
  start_node-Agree host gossip joins subscribes mdns_starts n =
      (ground arith, ground arith, ground arith)

  stop_node-Agree : (n m : P2pNode Fs) → stop_node n ≡ some m → Agree n.cluster_sync m.cluster_sync
  unfolding stop_node stop_protocol
  stop_node-Agree n m e = (ground arith, ground arith, ground arith)

module _ {Fs : Type 0} (publish : ClusterMessage → Bool) where
  -- What the program does with a node: the life of the node, its periodic check, the three tickers of
  -- the cluster protocol, the removal of a peer, and what changes other parts of the node.
  pub data NodeEvent (n : P2pNode Fs) : P2pNode Fs → Type 0 where
    starts :
        (host : Option String) (gossip joins subscribes mdns_starts : Bool)
        → NodeEvent n (start_node host gossip joins subscribes mdns_starts n).0
    stops : (m : P2pNode Fs) → stop_node n ≡ some m → NodeEvent n m
    ticks :
        (stamp later : String → Time) (now : Time) → NodeEvent n (periodic_tick stamp later now n)
    hears_itself :
        (now : Time)
        → NodeEvent n (record n { cluster_sync = handle_messages_tick publish now n.cluster_sync })
    beats :
        (now : Time)
        → NodeEvent n (record n { cluster_sync = send_heartbeat publish now n.cluster_sync })
    checks_leader :
        (now : Time)
        → NodeEvent n (record n { cluster_sync = check_leader_health publish now n.cluster_sync })
    removes :
        (peer_id : String)
        → NodeEvent n (record n {
          discovery = (remove_peer peer_id n.discovery n.cluster_sync).0;
          cluster_sync = (remove_peer peer_id n.discovery n.cluster_sync).1;
        })
    syncs : (f : Peer Fs) → NodeEvent n (record n { file_sync = f })
    transports : (r : Transport) → NodeEvent n (record n { transport = r })
    discovers : (d : Discovery) → NodeEvent n (record n { discovery = d })

  pub data Lives (n : P2pNode Fs) : P2pNode Fs → Type 0 where
    fresh : Lives n n
    next : {u v : P2pNode Fs} → Lives n u → NodeEvent u v → Lives n v

  NodeEvent-IsAlone :
      (id : String) {n m : P2pNode Fs}
      → NodeEvent n m
      → IsAlone id n.cluster_sync
      → IsAlone id m.cluster_sync
  unfolding periodic_tick cleanup_cluster_state check_peer_health with_peers send_heartbeat
      remove_peer
  NodeEvent-IsAlone id {n} (NodeEvent.starts host gossip joins subscribes mdns_starts) a =
      Agree-IsAlone id n.cluster_sync _
        (start_node-Agree host gossip joins subscribes mdns_starts n) a
  NodeEvent-IsAlone id {n} (NodeEvent.stops m e) a =
      Agree-IsAlone id n.cluster_sync _ (stop_node-Agree n m e) a
  NodeEvent-IsAlone id {n} (NodeEvent.ticks stamp later now) a = record {
    own = a.own;
    only =
        drop_old-OnlySelf id _ _
          (check_all-OnlySelf id stamp later n.cluster_sync.peer_states a.only);
    leaderless = a.leaderless;
  }
  NodeEvent-IsAlone id {n} (NodeEvent.hears_itself now) a =
      handle_messages_tick-IsAlone publish id now n.cluster_sync a
  NodeEvent-IsAlone id {n} (NodeEvent.beats now) a =
      Agree-IsAlone id n.cluster_sync _
        (publish_cluster_message-Agree publish now _ _ n.cluster_sync) a
  NodeEvent-IsAlone id {n} (NodeEvent.checks_leader now) a =
      Agree-IsAlone id n.cluster_sync _ (check_leader_health-Agree publish now n.cluster_sync) a
  NodeEvent-IsAlone id {n} (NodeEvent.removes peer_id) a = record {
    own = a.own;
    only = erase-OnlySelf id peer_id n.cluster_sync.peer_states a.only;
    leaderless = a.leaderless;
  }
  NodeEvent-IsAlone id (NodeEvent.syncs f) a = a
  NodeEvent-IsAlone id (NodeEvent.transports r) a = a
  NodeEvent-IsAlone id (NodeEvent.discovers d) a = a

  Lives-IsAlone :
      (id : String) {n m : P2pNode Fs}
      → Lives n m
      → IsAlone id n.cluster_sync
      → IsAlone id m.cluster_sync
  Lives-IsAlone id Lives.fresh a = a
  Lives-IsAlone id (Lives.next l e) a = NodeEvent-IsAlone id e (Lives-IsAlone id l a)

  -- A node never learns of a peer and never has a leader: whatever the program does with a new node,
  -- elections and heartbeats included, its table has no entry but its own, and the leader's id is empty.
  pub new_node-IsAlone :
      (host_id : String) (config : FileSyncConfig) (files : Fs) (n : P2pNode Fs)
      → Lives (new_node host_id config files) n
      → IsAlone host_id n.cluster_sync
  unfolding new_node new_cluster_protocol lookup
  new_node-IsAlone host_id config files n l =
      Lives-IsAlone host_id l (record { own = refl; only = λ k other. refl; leaderless = refl })
