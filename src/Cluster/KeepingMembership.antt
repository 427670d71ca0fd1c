-- ===== src/Cluster/KeepingMembership.antt =====
-- internal/cluster/manager.go: a merge of received membership, and what the network and the workers
-- do with one, keep the manager well formed.
use syncmesh.Common.{
  ◌≡◌, refl, if_elim, String, Option, none, some, List, [], ◌∷◌, ◌==◌, Time, Map, lookup, insert,
  Option-cases, inl, inr,
}
use syncmesh.Json.{Json, Fields}
use syncmesh.Cluster.State.{Node, Manager}
use syncmesh.Cluster.Membership.{
  Info, merged, merge_info, merge_all, own_entry, own_node, update_cluster_membership,
  update_nodes_from_heartbeat,
}
use syncmesh.Cluster.WellFormed.{
  IsKeyed, WellFormed, empty-IsKeyed, insert_at-IsKeyed, nodes-WellFormed,
}

merge_info-IsKeyed :
    (now : Time) (m : Manager) (i : Option Info) (new : Map Node)
    → IsKeyed m.nodes
    → IsKeyed new
    → IsKeyed (merge_info now m i new)
unfolding merge_info
merge_info-IsKeyed now m none new v k = k
merge_info-IsKeyed now m (some i) new v k =
    if_elim IsKeyed (i.id == m.node_id) _ _ (λ _. k)
      (λ _. insert_at-IsKeyed i.id _ new (merged_id (lookup i.id m.nodes) refl) k)
  where
    merged_id : (old : Option Node) → lookup i.id m.nodes ≡ old → (merged now old i).id ≡ i.id
    merged_id none e = unfold merged in refl
    merged_id (some n) e = unfold merged in v.keyed i.id n e

pub merge_all-IsKeyed :
    (now : Time) (m : Manager) (is : List (Option Info)) (new : Map Node)
    → IsKeyed m.nodes
    → IsKeyed new
    → IsKeyed (merge_all now m is new)
unfolding merge_all
merge_all-IsKeyed now m [] new v k = k
merge_all-IsKeyed now m (i ∷ is) new v k =
    merge_all-IsKeyed now m is _ v (merge_info-IsKeyed now m i new v k)

singleton-IsKeyed : (k : String) (n : Node) → n.id ≡ k → IsKeyed ((k, n) ∷ [])
unfolding insert
singleton-IsKeyed k n e = insert_at-IsKeyed k n [] e empty-IsKeyed

own_entry-IsKeyed : (m : Manager) → WellFormed m → IsKeyed (own_entry m)
unfolding own_entry
own_entry-IsKeyed m v = elim (Option-cases (lookup m.node_id m.nodes)) [
  | inl e ↦ rw (e, own_entry) empty-IsKeyed
  | inr (n, e) ↦
      rw (e, own_entry) (singleton-IsKeyed m.node_id n (v.nodes_keyed.keyed m.node_id n e))
]

own_node-id : (now : Time) (m : Manager) → WellFormed m → (own_node now m).id ≡ m.node_id
unfolding own_node
own_node-id now m v = elim (Option-cases (lookup m.node_id m.nodes)) [
  | inl e ↦ rw (e, own_node)
  | inr (n, e) ↦ rw (e, own_node) (v.nodes_keyed.keyed m.node_id n e)
]

pub update_cluster_membership-WellFormed :
    (now : Time) (received : List Json) (m : Manager)
    → WellFormed m
    → WellFormed (update_cluster_membership now received m)
unfolding update_cluster_membership
update_cluster_membership-WellFormed now received m v =
    nodes-WellFormed m _ v (merge_all-IsKeyed now m _ _ v.nodes_keyed (own_entry-IsKeyed m v))

pub update_nodes_from_heartbeat-WellFormed :
    (now : Time) (leader_id : String) (received : List Fields) (m : Manager)
    → WellFormed m
    → WellFormed (update_nodes_from_heartbeat now leader_id received m)
unfolding update_nodes_from_heartbeat
update_nodes_from_heartbeat-WellFormed now leader_id received m v =
    nodes-WellFormed led _ led_well (
      merge_all-IsKeyed now led _ _ v.nodes_keyed
        (singleton-IsKeyed m.node_id (own_node now led) (own_node-id now led led_well)))
  where
    led : Manager
    led = record m { leader_id = leader_id; is_leader = leader_id == m.node_id }

    led_well : WellFormed led
    led_well = record { nodes_keyed = v.nodes_keyed; leads = refl }
