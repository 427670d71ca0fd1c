-- ===== src/P2pNode/Failover.antt =====
-- internal/p2p/node.go with cluster.go: the check of the peers and the check of the leader.
use syncmesh.Common.{
  ◌≡◌, refl, sym, ◌≢◌, ◌∙◌, ap, inl, inr, String, Bool, false, some, Time, lookup, ltb_ℤ, elapsed,
  before, seconds_before,
}
use syncmesh.P2pCluster.State.{ClusterMessage, PeerState}
use syncmesh.P2pCluster.Messages.{check_leader_health}
use syncmesh.P2pCluster.Elections.{check_leader_health-cases}
use syncmesh.P2pNode.State.{P2pNode}
use syncmesh.P2pNode.Health.{
  periodic_tick, two_minutes, periodic_tick-lookup, check_peer_health, cleanup_cluster_state,
  with_peers,
}

module _ {Fs : Type 0} where
  periodic_tick-leader :
      (stamp later : String → Time) (now : Time) (n : P2pNode Fs)
      → (periodic_tick stamp later now n).cluster_sync.cluster_state.leader
        ≡ n.cluster_sync.cluster_state.leader
  unfolding periodic_tick check_peer_health cleanup_cluster_state with_peers
  periodic_tick-leader stamp later now n = refl

  -- There is no failover: once the periodic check of the peers has run, the check of the leader
  -- announces no election as long as the table has an entry for the leader, whatever its status was and
  -- however long ago it was heard. The clock's two readings for a peer are at most two minutes apart,
  -- and the first is not five minutes older than the cleanup's.
  pub known_leader_is_kept :
      (publish : ClusterMessage → Bool) (stamp later : String → Time) (now then : Time)
      (n : P2pNode Fs) (state : PeerState)
      → ((k : String) → ltb_ℤ two_minutes (elapsed (later k) (stamp k)) ≡ false)
      → ((k : String) → before (stamp k) (seconds_before 300 now) ≡ false)
      → n.cluster_sync.cluster_state.leader ≢ ""
      → lookup n.cluster_sync.cluster_state.leader n.cluster_sync.peer_states ≡ some state
      → check_leader_health publish then (periodic_tick stamp later now n).cluster_sync
        ≡ (periodic_tick stamp later now n).cluster_sync
  known_leader_is_kept publish stamp later now then n state quick fresh known there =
      let c = (periodic_tick stamp later now n).cluster_sync in
      elim (check_leader_health-cases publish then c) [
        | inl (_, same) ↦ same
        | inr (leaderless, _) ↦ absurd (
            leaderless (
              λ e. known (sym (periodic_tick-leader stamp later now n) ∙ e),
              (
                record state {
                  last_seen = stamp n.cluster_sync.cluster_state.leader;
                  status = "active";
                },
                ap (λ (k : String). lookup k c.peer_states) (periodic_tick-leader stamp later now n)
                    ∙ periodic_tick-lookup stamp later now n quick fresh
                        n.cluster_sync.cluster_state.leader
                    ∙ rw there refl,
                refl,
              ),
            ))
      ]
