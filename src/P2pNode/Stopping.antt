-- ===== src/P2pNode/Stopping.antt =====
-- internal/p2p/node.go with real_pubsub.go: what becomes of a node, and how it stops.
use syncmesh.Common.{
  ℕ, ◌≡◌, refl, ◌∙◌, String, Bool, true, false, Option, none, some, Time, Bool-cases, inl, inr,
  subst, arith,
}
use syncmesh.Config.{FileSyncConfig}
use syncmesh.FileSync.State.{Peer, new_file_sync_protocol}
use syncmesh.FileSync.Workers as Workers
use syncmesh.P2pCluster.State.{ClusterProtocol, start_protocol, new_cluster_protocol}
use syncmesh.Transport.State.{
  AddrInfo, Transport, new_transport, set_file_sync_callback, start_transport, stop_transport,
}
use syncmesh.Transport.Connecting.{connect_from, connect_to_peer}
use syncmesh.Discovery.{Discovery, new_discovery, start_discovery}
use syncmesh.P2pNode.State.{
  P2pNode, new_node, start_node, start_synced, start_clustered, start_found, stop_node,
}
use syncmesh.P2pNode.Health.{with_peers, check_peer_health, cleanup_cluster_state, periodic_tick}

connect_to_peer-same :
    (connect : ℕ → Bool) (pi : AddrInfo) (r : Transport)
    → ((connect_to_peer connect pi r).running ≡ r.running)
      × ((connect_to_peer connect pi r).has_cancel ≡ r.has_cancel)
unfolding connect_to_peer connect_from
connect_to_peer-same connect pi r = (ground arith, ground arith)

module _ {Fs : Type 0} where
  -- What can happen to a node. What the protocols do between is left open.
  pub data NodeStep (n : P2pNode Fs) : P2pNode Fs → Type 0 where
    starts :
        (host : Option String) (gossip joins subscribes mdns_starts : Bool)
        → NodeStep n (start_node host gossip joins subscribes mdns_starts n).0
    stops : (m : P2pNode Fs) → stop_node n ≡ some m → NodeStep n m
    ticks :
        (stamp later : String → Time) (now : Time) → NodeStep n (periodic_tick stamp later now n)
    syncs : (f : Peer Fs) → NodeStep n (record n { file_sync = f })
    coordinates : (c : ClusterProtocol) → NodeStep n (record n { cluster_sync = c })
    connects :
        (connect : ℕ → Bool) (pi : AddrInfo)
        → NodeStep n (record n { transport = connect_to_peer connect pi n.transport })
    discovers : (d : Discovery) → NodeStep n (record n { discovery = d })

  pub data Becomes (n : P2pNode Fs) : P2pNode Fs → Type 0 where
    same : Becomes n n
    next : {u v : P2pNode Fs} → Becomes n u → NodeStep u v → Becomes n v

  -- Nothing has set the service's `cancel`, and the service of a running node runs.
  pub record IsStuck (n : P2pNode Fs) : Type 0 where
    pub no_cancel : n.transport.has_cancel ≡ false
    pub serves : n.running ≡ true → n.transport.running ≡ true

  start_node-IsStuck :
      (host : Option String) (gossip joins subscribes mdns_starts : Bool) (n : P2pNode Fs)
      → IsStuck n
      → IsStuck (start_node host gossip joins subscribes mdns_starts n).0
  unfolding start_node start_synced start_clustered start_found start_transport
  start_node-IsStuck host gossip joins subscribes mdns_starts n i = record {
    no_cancel = ground (arith, i.no_cancel);
    serves = ground (arith, i.serves);
  }

  stop_panics : (n : P2pNode Fs) → IsStuck n → n.running ≡ true → stop_node n ≡ none
  unfolding stop_node stop_transport
  stop_panics n i runs = rw runs (rw (i.serves runs) (rw i.no_cancel refl))

  stop_node-IsStuck : (n m : P2pNode Fs) → IsStuck n → stop_node n ≡ some m → IsStuck m
  unfolding stop_node
  stop_node-IsStuck n m i e = elim (Bool-cases n.running) [
    | inl runs ↦ absurd ground (arith, stop_panics n i runs, e)
    | inr idle ↦ subst IsStuck (same_node n m idle e) i
  ]
    where
      same_node : (n m : P2pNode Fs) → n.running ≡ false → stop_node n ≡ some m → n ≡ m
      same_node n m idle e = ground (arith, rw idle at e)

  NodeStep-IsStuck : {n m : P2pNode Fs} → NodeStep n m → IsStuck n → IsStuck m
  unfolding periodic_tick cleanup_cluster_state check_peer_health with_peers
  NodeStep-IsStuck {n} (NodeStep.starts host gossip joins subscribes mdns_starts) i =
      start_node-IsStuck host gossip joins subscribes mdns_starts n i
  NodeStep-IsStuck {n} (NodeStep.stops m e) i = stop_node-IsStuck n m i e
  NodeStep-IsStuck (NodeStep.ticks stamp later now) i = record {
    no_cancel = i.no_cancel;
    serves = i.serves;
  }
  NodeStep-IsStuck (NodeStep.syncs f) i = record { no_cancel = i.no_cancel; serves = i.serves }
  NodeStep-IsStuck (NodeStep.coordinates c) i = record {
    no_cancel = i.no_cancel;
    serves = i.serves;
  }
  NodeStep-IsStuck {n} (NodeStep.connects connect pi) i =
      let (runs, cancel) = connect_to_peer-same connect pi n.transport in
      record { no_cancel = cancel ∙ i.no_cancel; serves = λ e. runs ∙ i.serves e }
  NodeStep-IsStuck (NodeStep.discovers d) i = record { no_cancel = i.no_cancel; serves = i.serves }

  Becomes-IsStuck : {n m : P2pNode Fs} → Becomes n m → IsStuck n → IsStuck m
  Becomes-IsStuck Becomes.same i = i
  Becomes-IsStuck (Becomes.next b s) i = NodeStep-IsStuck s (Becomes-IsStuck b i)

  -- A new node can be started, whatever the id of the host and mDNS.
  pub new_node_starts :
      (host_id id : String) (mdns_starts : Bool) (config : FileSyncConfig) (files : Fs)
      → let (n, e) =
          start_node (some id) true true true mdns_starts (new_node host_id config files) in
        (e ≡ none) × (n.running ≡ true)
  unfolding new_node new_transport set_file_sync_callback new_file_sync_protocol
      new_cluster_protocol new_discovery start_node start_synced start_clustered start_found
      start_transport start_protocol start_discovery Workers.start
  new_node_starts host_id id mdns_starts config files = (refl, refl)

  -- Whatever happens to a new node, its Stop panics whenever it runs, as it does once it has been
  -- started: the publish/subscribe service calls its `cancel`, which nothing sets.
  pub running_node_cannot_stop :
      (host_id : String) (config : FileSyncConfig) (files : Fs) (n : P2pNode Fs)
      → Becomes (new_node host_id config files) n
      → n.running ≡ true
      → stop_node n ≡ none
  unfolding new_node new_transport set_file_sync_callback
  running_node_cannot_stop host_id config files n b runs =
      stop_panics n (Becomes-IsStuck b (record { no_cancel = refl; serves = λ e. ground arith }))
        runs
