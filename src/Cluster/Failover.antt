-- ===== src/Cluster/Failover.antt =====
-- internal/cluster/manager.go, `performRaftTick`: what a leader's and a follower's tick do about
-- nodes that have gone silent.
use syncmesh.Common.{
  ◌≡◌, refl, sym, subst, ◌∙◌, ap, text_cases, ne_by_test, ◌≢◌, ◌⊎◌, ◌↔◌, inl, inr, String, ltb_ℤ,
  elapsed, true, false, Option, none, some, List, [], str_lt, ◌&&◌, ◌==◌, eq_iff, Time, Map, lookup,
  lookup-modify, lookup-map_values, Enumerates, arith, if_elim, maybe_elim, if◌then◌else◌,
}
use syncmesh.Json.{Fields, get, as_array}
use syncmesh.Cluster.State.{Node, Manager}
use syncmesh.Cluster.Leadership.{should_start_election, start_leader_election}
use syncmesh.Cluster.Membership.{update_cluster_membership}
use syncmesh.Cluster.Network.{
  send_heartbeat, fetch_membership, refresh_cluster_membership, refresh_address, api_url,
}
use syncmesh.Cluster.Lifecycle.{
  health_timeout, is_stale, check_node_health, perform_raft_tick, refresh_is_due,
}
use syncmesh.Cluster.WellFormed.{WellFormed}
use syncmesh.Cluster.Elections.{IsCandidate}
use syncmesh.Cluster.Agreement.{elected-least}

-- An election is due exactly if no leader is known, or the leader is not in the map or has failed.
pub should_start_election_iff :
    (m : Manager)
    → (should_start_election m ≡ true) ↔ (
        (m.leader_id ≡ "")
        ⊎ (lookup m.leader_id m.nodes ≡ none)
        ⊎ ((n : Node) × (lookup m.leader_id m.nodes ≡ some n) × (n.status ≡ "failed")))
unfolding should_start_election
should_start_election_iff m = (λ h. forth (lookup m.leader_id m.nodes) refl h, back)
  where
    forth :
        (found : Option Node)
        → lookup m.leader_id m.nodes ≡ found
        → should_start_election m ≡ true
        → (m.leader_id ≡ "")
          ⊎ (lookup m.leader_id m.nodes ≡ none)
          ⊎ ((n : Node) × (lookup m.leader_id m.nodes ≡ some n) × (n.status ≡ "failed"))
    forth none e h = inr (inl e)
    forth (some n) e h = elim (text_cases m.leader_id "") [
      | inl (_, unknown) ↦ inl unknown
      | inr (known, _) ↦ inr (inr (n, e, (eq_iff n.status "failed").0 (ground arith)))
    ]

    back :
        (m.leader_id ≡ "")
          ⊎ (lookup m.leader_id m.nodes ≡ none)
          ⊎ ((n : Node) × (lookup m.leader_id m.nodes ≡ some n) × (n.status ≡ "failed"))
        → should_start_election m ≡ true
    back (inl unknown) = ground (arith, eq_iff m.leader_id "")
    back (inr (inl missing)) = ground arith
    back (inr (inr (n, found, failed))) = ground (arith, eq_iff n.status "failed")

-- A response that does not come changes nothing.
refresh_unanswered :
    (http_get : String → Option Fields) (now : Time) (visited : Map Node) (m : Manager)
    → ((url : String) → http_get url ≡ none)
    → refresh_cluster_membership http_get now visited m ≡ m
unfolding refresh_cluster_membership fetch_membership
refresh_unanswered http_get now visited m silent =
    maybe_elim (λ r. r ≡ m) (refresh_address visited m) m _ refl
      λ addr _. rw (silent (api_url addr "nodes"))

refresh_keeps_leader :
    (http_get : String → Option Fields) (now : Time) (visited : Map Node) (m : Manager)
    → (refresh_cluster_membership http_get now visited m).leader_id ≡ m.leader_id
unfolding refresh_cluster_membership fetch_membership update_cluster_membership
refresh_keeps_leader http_get now visited m =
    maybe_elim P (refresh_address visited m) m _ refl λ addr _.
      maybe_elim P (http_get (api_url addr "nodes")) m _ refl
        λ body _. maybe_elim P (as_array (get "nodes" body)) m _ refl λ received _. refl
  where
    P : Manager → Type 0
    P r = r.leader_id ≡ m.leader_id

no_election :
    (m : Manager) (leader : Node)
    → m.leader_id ≢ ""
    → lookup m.leader_id m.nodes ≡ some leader
    → leader.status ≢ "failed"
    → should_start_election m ≡ false
unfolding should_start_election
no_election m leader known found up =
    ground (arith, eq_iff m.leader_id "", eq_iff leader.status "failed")

-- A follower whose leader is in its map under any status but `failed`, and whose requests get no
-- answer, does nothing at a tick, however long the leader has been silent: no timeout is tested.
pub silent_leader_is_kept :
    (http_get : String → Option Fields) (now : Time) (visited later : Map Node) (m : Manager)
    (leader : Node)
    → m.is_leader ≡ false
    → m.leader_id ≢ ""
    → lookup m.leader_id m.nodes ≡ some leader
    → leader.status ≢ "failed"
    → ((url : String) → http_get url ≡ none)
    → perform_raft_tick http_get now visited later m ≡ (m, [])
unfolding perform_raft_tick
silent_leader_is_kept http_get now visited later m leader follower known found up silent =
    simp (follower, no_election m leader known found up)
      (if_elim (λ (r : Manager × List Node). r ≡ (m, [])) (refresh_is_due now m) _ _
        (λ _. ap (λ (r : Manager). (r, [])) (refresh_unanswered http_get now later m silent))
        (λ _. refl))

not_both :
    (o : Option Node) (n leader : Node)
    → o ≡ some n
    → o ≡ some leader
    → n.status ≡ "active"
    → ¬ (leader.status ≡ "failed")
not_both o n leader found found' active down = ne_by_test "active" "failed" refl (sym active ∙ same)
  where
    same : n.status ≡ "failed"
    same = ground arith

tick_elects :
    (http_get : String → Option Fields) (now : Time) (visited later : Map Node) (m : Manager)
    → m.is_leader ≡ false
    → should_start_election m ≡ true
    → (perform_raft_tick http_get now visited later m).0.leader_id
      ≡ (start_leader_election visited m).leader_id
unfolding perform_raft_tick
tick_elects http_get now visited later m follower due =
    simp (follower, due)
      (if_elim (λ (r : Manager × List Node). r.0.leader_id ≡ elected.leader_id)
        (refresh_is_due now elected) _ _ (λ _. refresh_keeps_leader http_get now later elected)
        (λ _. refl))
  where
    elected : Manager
    elected = start_leader_election visited m

-- At the tick of a well-formed follower whose leader is in its map and marked failed, a node that is not the old leader takes its
-- place: this node, or the active node with the least id if that is lower.
pub failed_leader_is_replaced :
    (http_get : String → Option Fields) (now : Time) (visited later : Map Node) (m : Manager)
    (leader : Node)
    → WellFormed m
    → Enumerates visited m.nodes
    → m.is_leader ≡ false
    → lookup m.leader_id m.nodes ≡ some leader
    → leader.status ≡ "failed"
    → let next = (perform_raft_tick http_get now visited later m).0.leader_id in
      (next ≢ m.leader_id)
      × IsCandidate m next
      × ((id : String) → IsCandidate m id → str_lt id next ≡ false)
failed_leader_is_replaced http_get now visited later m leader v e follower found down =
    rw next (is_new, (elected-least visited m v e).0, (elected-least visited m v e).1)
  where
    due : should_start_election m ≡ true
    due = (should_start_election_iff m).1 (inr (inr (leader, found, down)))

    next :
        (perform_raft_tick http_get now visited later m).0.leader_id
        ≡ (start_leader_election visited m).leader_id
    next = tick_elects http_get now visited later m follower due

    is_new : (start_leader_election visited m).leader_id ≢ m.leader_id
    is_new same = elim (subst (IsCandidate m) same (elected-least visited m v e).0) [
      | inl own ↦ ground (arith, v.leads, eq_iff m.leader_id m.node_id)
      | inr (n, found', active) ↦
          not_both (lookup m.leader_id m.nodes) n leader found' found active down
    ]

lookup-beaten_and_checked :
    (now : Time) (visited : Map Node) (m : Manager) (k : String) (n : Node)
    → WellFormed m
    → lookup k m.nodes ≡ some n
    → lookup k (check_node_health now (send_heartbeat now visited m).0).nodes
      ≡ some (
          if k == m.node_id
          then record n { last_seen = now }
          else if n.status == "active" && ltb_ℤ (health_timeout m) (elapsed now n.last_seen)
          then record n { status = "failed" }
          else n)
unfolding check_node_health send_heartbeat is_stale
lookup-beaten_and_checked now visited m k n v found =
    rw
      (
        lookup-map_values _ k (send_heartbeat now visited m).0.nodes,
        lookup-modify m.node_id k (λ node. record node { last_seen = now }) m.nodes,
        found,
      )
      (ground (
        arith,
        eq_iff k m.node_id,
        eq_iff m.node_id k,
        v.nodes_keyed.keyed k n,
        eq_iff n.id m.node_id,
      ))

-- A tick of a well-formed manager that leads, for each node in its map: its own entry gets the current time; any other that is marked
-- active is marked failed exactly if the health timeout has passed since it was last seen; nothing
-- else changes.
pub leader_tick-lookup :
    (http_get : String → Option Fields) (now : Time) (visited later : Map Node) (m : Manager)
    (k : String) (n : Node)
    → WellFormed m
    → m.is_leader ≡ true
    → lookup k m.nodes ≡ some n
    → lookup k (perform_raft_tick http_get now visited later m).0.nodes
      ≡ some (
          if k == m.node_id
          then record n { last_seen = now }
          else if n.status == "active" && ltb_ℤ (health_timeout m) (elapsed now n.last_seen)
          then record n { status = "failed" }
          else n)
unfolding perform_raft_tick
leader_tick-lookup http_get now visited later m k n v leads found =
    simp leads (lookup-beaten_and_checked now visited m k n v found)
