-- ===== src/P2pNode/Health.antt =====
-- internal/p2p/node.go: the periodic check of the peers. `stamp k` and `later k` are the two readings
-- of the clock for the peer `k`.
use mathlib.Core.Option
use syncmesh.Common.{
  ◌≡◌, refl, ◌∙◌, ap, String, ℤ, false, Option, none, some, [], ◌∷◌, pos, ltb_ℤ, ◌*◌, ◌^◌, Time,
  Map, lookup, modify, before, elapsed, seconds_before, if◌then◌else◌, arith, eq_iff,
}
use syncmesh.P2pCluster.State.{PeerState}
use syncmesh.P2pNode.State.{P2pNode}

unfoldable pub two_minutes : ℤ
two_minutes = pos (120 * 10 ^ 9)

unfoldable pub checked : Time → Time → PeerState → PeerState
checked stamp later state = record state {
  last_seen = stamp;
  status = if ltb_ℤ two_minutes (elapsed later stamp) then "inactive" else "active";
}

-- The loop of `checkPeerHealth`, and of `cleanupClusterState`.
unfoldable pub check_all : (String → Time) → (String → Time) → Map PeerState → Map PeerState
check_all stamp later [] = []
check_all stamp later ((k, state) ∷ m) =
    (k, checked (stamp k) (later k) state) ∷ check_all stamp later m

unfoldable pub drop_old : Time → Map PeerState → Map PeerState
drop_old cutoff [] = []
drop_old cutoff ((k, state) ∷ m) =
    let rest = drop_old cutoff m in
    if before state.last_seen cutoff then rest else (k, state) ∷ rest

module _ {Fs : Type 0} where
  unfoldable pub with_peers : Map PeerState → P2pNode Fs → P2pNode Fs
  with_peers m n = record n { cluster_sync = record n.cluster_sync { peer_states = m } }

  unfoldable pub check_peer_health : (String → Time) → (String → Time) → P2pNode Fs → P2pNode Fs
  check_peer_health stamp later n = with_peers (check_all stamp later n.cluster_sync.peer_states) n

  unfoldable pub cleanup_cluster_state : Time → P2pNode Fs → P2pNode Fs
  cleanup_cluster_state now n =
      with_peers (drop_old (seconds_before 300 now) n.cluster_sync.peer_states) n

  -- One tick of `startPeriodicTasks`.
  unfoldable pub periodic_tick : (String → Time) → (String → Time) → Time → P2pNode Fs → P2pNode Fs
  periodic_tick stamp later now n = cleanup_cluster_state now (check_peer_health stamp later n)

  -- `updatePeerStatus`.
  unfoldable pub update_peer_status : Time → String → String → P2pNode Fs → P2pNode Fs
  update_peer_status now peer_id status n =
      with_peers
        (modify peer_id (λ state. record state { status = status; last_seen = now })
          n.cluster_sync.peer_states)
        n

module _ (stamp later : String → Time) where
  pub lookup-check_all :
      (k : String) (m : Map PeerState)
      → lookup k (check_all stamp later m) ≡ Option.map (checked (stamp k) (later k)) (lookup k m)
  unfolding lookup check_all
  lookup-check_all k [] = refl
  lookup-check_all k ((j, state) ∷ m) = ground (arith, eq_iff j k, lookup-check_all k m)

  nothing_is_old :
      (cutoff : Time) (m : Map PeerState)
      → ((k : String) → before (stamp k) cutoff ≡ false)
      → drop_old cutoff (check_all stamp later m) ≡ check_all stamp later m
  unfolding drop_old check_all checked
  nothing_is_old cutoff [] fresh = refl
  nothing_is_old cutoff ((k, state) ∷ m) fresh = rw (fresh k) (
      ap (λ (rest : Map PeerState). (k, checked (stamp k) (later k) state) ∷ rest)
        (nothing_is_old cutoff m fresh))

map-checked :
    (stamp later : Time) (o : Option PeerState)
    → ltb_ℤ two_minutes (elapsed later stamp) ≡ false
    → Option.map (checked stamp later) o
      ≡ Option.map (λ (state : PeerState). record state { last_seen = stamp; status = "active" }) o
unfolding checked
map-checked stamp later none quick = refl
map-checked stamp later (some state) quick = rw quick refl

module _ {Fs : Type 0} where
  -- A tick makes every peer active and seen now, and forgets none, whatever was known of it: the check
  -- stamps each peer before it looks at the stamp. The clock's two readings for a peer are at most two
  -- minutes apart, and the first is not five minutes older than the cleanup's.
  pub periodic_tick-lookup :
      (stamp later : String → Time) (now : Time) (n : P2pNode Fs)
      → ((k : String) → ltb_ℤ two_minutes (elapsed (later k) (stamp k)) ≡ false)
      → ((k : String) → before (stamp k) (seconds_before 300 now) ≡ false)
      → (k : String)
      → lookup k (periodic_tick stamp later now n).cluster_sync.peer_states
        ≡ Option.map
            (λ (state : PeerState). record state { last_seen = stamp k; status = "active" })
            (lookup k n.cluster_sync.peer_states)
  unfolding periodic_tick cleanup_cluster_state check_peer_health with_peers
  periodic_tick-lookup stamp later now n quick fresh k =
      ap (λ (m : Map PeerState). lookup k m)
        (nothing_is_old stamp later (seconds_before 300 now) n.cluster_sync.peer_states fresh)
      ∙ lookup-check_all stamp later k n.cluster_sync.peer_states
      ∙ map-checked (stamp k) (later k) (lookup k n.cluster_sync.peer_states) (quick k)
