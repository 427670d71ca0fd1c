-- ===== src/Server/Components.antt =====
-- internal/server/server.go, `startComponents`: what the starts of the components make of the server.
use syncmesh.Common.{◌≡◌, refl, inl, inr, String, Bool, true, Option, none, arith, Option-cases}
use syncmesh.FileSync.State.{Peer}
use syncmesh.FileSync.Files.{Os}
use syncmesh.P2pNode.State as P2pNode
use syncmesh.P2pNode.State.{P2pNode, new_node, start_node, start_clustered, start_found, stop_node}
use syncmesh.Engine.State.{Stat, start_engine}
use syncmesh.Server.{Server, start_components, start_synced, start_monitoring}

pub start_node-running :
    {Fs : Type 0} (host : Option String) (gossip joins subscribes mdns_starts : Bool)
    (n : P2pNode Fs)
    → (start_node host gossip joins subscribes mdns_starts n).1 ≡ none
    → (start_node host gossip joins subscribes mdns_starts n).0.running ≡ true
unfolding start_node P2pNode.start_synced start_clustered start_found
start_node-running host gossip joins subscribes mdns_starts n e = ground (arith, e)

start_monitoring-node : {Fs M : Type 0} (s : Server Fs M) → (start_monitoring s).0.node ≡ s.node
unfolding start_monitoring
start_monitoring-node s = ground arith

start_synced-node :
    {Fs M : Type 0} (os : Os Fs) (stat : String → Fs → Stat) (watch : String → Fs → Bool)
    (creates : Bool) (s : Server Fs M)
    → (f : Peer Fs) × ((start_synced os stat watch creates s).0.node
        ≡ record s.node { file_sync = f })
unfolding start_synced
start_synced-node {Fs = Fs} os stat watch creates s =
    let started = start_engine os stat watch creates s.engine s.node.file_sync.files in
    let f : Peer Fs = record s.node.file_sync { files = started.0.1 } in
    elim (Option-cases started.1) [
      | inl fine ↦ (f, rw fine (start_monitoring-node _))
      | inr (e, bad) ↦ (f, rw bad refl)
    ]

module _ {Fs M : Type 0} (os : Os Fs) (stat : String → Fs → Stat) (watch : String → Fs → Bool)
    (creates : Bool) (host : Option String) (gossip joins subscribes mdns_starts : Bool) where
  pub start_components-node :
      (s : Server Fs M)
      → (start_components os stat watch creates host gossip joins subscribes mdns_starts s).1 ≡ none
      → let started = start_node host gossip joins subscribes mdns_starts s.node in
        (started.1 ≡ none)
        × ((f : Peer Fs) × ((start_components os stat watch creates host gossip joins subscribes
                mdns_starts s).0.node
              ≡ record started.0 { file_sync = f }))
  unfolding start_components
  start_components-node s e =
      elim (Option-cases (start_node host gossip joins subscribes mdns_starts s.node).1) [
        | inl fine ↦ (fine, rw fine (start_synced-node os stat watch creates _))
        | inr (err, bad) ↦ absurd ground (arith, rw bad at e)
      ]

  pub start_components-config :
      (s : Server Fs M)
      → (start_components os stat watch creates host gossip joins subscribes mdns_starts s).0.config
        ≡ s.config
  unfolding start_components start_synced start_monitoring
  start_components-config s = ground arith
