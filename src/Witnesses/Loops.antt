-- ===== src/Witnesses/Loops.antt =====
-- Tests of the loop of the cluster's protocol: two heartbeats, and an election between them.
use syncmesh.Common.{◌≡◌, refl, ℕ, ◌≤◌, Bool, true, List, [], ◌∷◌, pos}
use syncmesh.Config.{P2pClusterConfig}
use syncmesh.P2pCluster.State.{ClusterMessage, ClusterProtocol, new_cluster_protocol}
use syncmesh.P2pCluster.Periodic.{Moment, periodic_from, periodic_tasks}
use syncmesh.P2pCluster.Announcing.{Announced, periodic_tasks-Announced}

abbrev takes_all : ClusterMessage → Bool
takes_all msg = true

abbrev moments : List Moment
moments =
    Moment.heartbeat_tick (pos 1)
    ∷ Moment.election_tick (pos 2)
    ∷ Moment.heartbeat_tick (pos 3)
    ∷ Moment.done
    ∷ []

abbrev intervals : P2pClusterConfig
intervals = record {
  heartbeat_interval = pos 1;
  election_timeout = pos 1;
  consensus_timeout = pos 0;
}

abbrev begun : ClusterProtocol
begun = new_cluster_protocol "a"

periodic_tasks-Announced_example :
    (ps : List ClusterMessage) × (n : ℕ) × (periodic_from takes_all moments begun
      ≡ record begun { published = ps })
    × Announced begun ps n
    × (n ≤ 4)
unfolding periodic_tasks
periodic_tasks-Announced_example =
    periodic_tasks-Announced takes_all intervals moments begun
      (periodic_from takes_all moments begun) refl
