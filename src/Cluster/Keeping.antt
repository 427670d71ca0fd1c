-- ===== src/Cluster/Keeping.antt =====
-- internal/cluster/manager.go: the operations on one node, and those that set the leader, keep the
-- manager well formed.
use syncmesh.Common.{
  refl, sym, if_elim, contains, ◌≢◌, String, Bool, Option, List, [], ◌∷◌, ◌==◌, eq_refl, eq-false,
  Time, Map, lookup, Option-cases, inl, inr, ◌≢◌,
}
use syncmesh.Config.{ClusterConfig}
use syncmesh.Cluster.State.{
  ClusterError, Node, Manager, new_manager, add_node, update_node_status, remove_node,
  get_active_nodes,
}
use syncmesh.Cluster.Leadership.{
  become_leader, set_leader, start_leader_election, min_node_id, elect_among, is_only,
}
use syncmesh.Cluster.WellFormed.{
  WellFormed, empty-IsKeyed, insert-IsKeyed, insert_at-IsKeyed, modify-IsKeyed, map_values-IsKeyed,
  erase-IsKeyed, nodes-WellFormed,
}

pub new_manager-WellFormed :
    (now : Time) (c : ClusterConfig) (id : String) → id ≢ "" → WellFormed (new_manager now c id)
unfolding new_manager
new_manager-WellFormed now c id h = record {
  nodes_keyed = insert_at-IsKeyed id _ [] refl empty-IsKeyed;
  leads = sym (eq-false "" id (λ e. h (sym e)));
}

pub add_node-WellFormed : (n : Node) (m : Manager) → WellFormed m → WellFormed (add_node n m).0
unfolding add_node
add_node-WellFormed n m v =
    if_elim (λ (r : Manager × Option ClusterError). WellFormed r.0) (contains n.id m.nodes) _ _
      (λ _. v) (λ _. nodes-WellFormed m _ v (insert-IsKeyed n m.nodes v.nodes_keyed))

pub update_node_status-WellFormed :
    (now : Time) (id status : String) (m : Manager)
    → WellFormed m
    → WellFormed (update_node_status now id status m).0
unfolding update_node_status
update_node_status-WellFormed now id status m v = elim (Option-cases (lookup id m.nodes)) [
  | inl e ↦ rw (e, update_node_status) v
  | inr (x, e) ↦
      rw (e, update_node_status)
        (nodes-WellFormed m _ v
          (insert_at-IsKeyed id _ m.nodes (v.nodes_keyed.keyed id x e) v.nodes_keyed))
]

pub remove_node-WellFormed :
    (id : String) (m : Manager) → WellFormed m → WellFormed (remove_node id m).0
unfolding remove_node
remove_node-WellFormed id m v =
    if_elim (λ (r : Manager × Bool × Option ClusterError). WellFormed r.0) (contains id m.nodes) _ _
      (λ _. nodes-WellFormed m _ v (erase-IsKeyed id m.nodes v.nodes_keyed)) (λ _. v)

pub become_leader-WellFormed : (m : Manager) → WellFormed m → WellFormed (become_leader m)
unfolding become_leader
become_leader-WellFormed m v = record {
  nodes_keyed = modify-IsKeyed m.node_id _ m.nodes (λ n. refl) v.nodes_keyed;
  leads = sym (eq_refl m.node_id);
}

pub set_leader-WellFormed :
    (id : String) (m : Manager) → WellFormed m → WellFormed (set_leader id m)
unfolding set_leader
set_leader-WellFormed id m v = record {
  nodes_keyed = map_values-IsKeyed _ m.nodes (λ n. refl) v.nodes_keyed;
  leads = refl;
}

-- An election ends in one of two ways.
pub elect_among_elim {κ} :
    (P : Manager → Type κ) (ids : List String) (m : Manager)
    → P (become_leader m)
    → P (set_leader (min_node_id m.node_id ids) m)
    → P (elect_among ids m)
unfolding elect_among
elect_among_elim P [] m own other = own
elect_among_elim P (id ∷ ids) m own other =
    if_elim P (is_only m.node_id (id ∷ ids)) (become_leader m) _ (λ _. own)
      (λ _.
        if_elim P (least == m.node_id) (become_leader m) (set_leader least m) (λ _. own)
          (λ _. other))
  where
    least : String
    least = min_node_id m.node_id (id ∷ ids)

pub start_leader_election-WellFormed :
    (visited : Map Node) (m : Manager) → WellFormed m → WellFormed (start_leader_election visited m)
unfolding start_leader_election
start_leader_election-WellFormed visited m v =
    elect_among_elim WellFormed (get_active_nodes visited) m (become_leader-WellFormed m v)
      (set_leader-WellFormed _ m v)
