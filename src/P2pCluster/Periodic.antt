-- ===== src/P2pCluster/Periodic.antt =====
-- internal/p2p/cluster.go, `periodicTasks`: the loop, by the channels that its select finds ready.
use syncmesh.Common.{pos, Bool, Option, none, some, List, [], ◌∷◌, Time, ltb_ℤ, if◌then◌else◌}
use syncmesh.Config.{P2pClusterConfig}
use syncmesh.P2pCluster.State.{ClusterMessage, ClusterProtocol}
use syncmesh.P2pCluster.Messages.{send_heartbeat, check_leader_health}

pub data Moment : Type 0 where
  done : Moment
  heartbeat_tick election_tick : Time → Moment

module _ (publish : ClusterMessage → Bool) where
  unfoldable pub periodic_from : List Moment → ClusterProtocol → ClusterProtocol
  periodic_from [] c = c
  periodic_from (Moment.done ∷ moments) c = c
  periodic_from (Moment.heartbeat_tick now ∷ moments) c =
      periodic_from moments (send_heartbeat publish now c)
  periodic_from (Moment.election_tick now ∷ moments) c =
      periodic_from moments (check_leader_health publish now c)

  -- `time.NewTicker` panics on an interval that is not positive; `none` is that panic.
  unfoldable pub periodic_tasks :
      P2pClusterConfig → List Moment → ClusterProtocol → Option ClusterProtocol
  periodic_tasks config moments c =
      let elects =
        if ltb_ℤ (pos 0) config.election_timeout then some (periodic_from moments c) else none in
      if ltb_ℤ (pos 0) config.heartbeat_interval then elects else none
