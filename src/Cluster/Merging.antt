-- ===== src/Cluster/Merging.antt =====
-- internal/cluster/manager.go, `updateClusterMembership` and `UpdateNodesFromHeartbeat`: the map
-- after a merge, key by key, against the last element that names the key.
use syncmesh.Common.{
  ◌↔◌, ◌≡◌, refl, sym, ◌∙◌, String, Bool, true, Option, none, some, maybe, List, [], ◌∷◌, map, ◌==◌,
  eq_iff, text_cases, inl, inr, Time, Map, lookup, lookup-insert, arith, if_elim, Option-cases,
  if◌then◌else◌,
}
use syncmesh.Json.{Json, Fields}
use syncmesh.Cluster.State.{Node, Manager, sync_role}
use syncmesh.Cluster.Membership.{
  Info, merged, merge_info, merge_all, read_discovered, read_heartbeat, own_entry, own_node,
  update_cluster_membership, update_nodes_from_heartbeat,
}

-- The last element that was read and names `k`.
unfoldable pub last_info : String → List (Option Info) → Option Info
last_info k [] = none
last_info k (none ∷ is) = last_info k is
last_info k (some i ∷ is) =
    let later = last_info k is in maybe later (if i.id == k then some i else none) some

-- What a merge leaves at `k`: another node's entry is rebuilt from the last element that names it,
-- and this node's own is what `kept` has.
unfoldable pub merged_at : Time → Manager → Option Info → Map Node → String → Option Node
merged_at now m last kept k =
    if k == m.node_id
    then lookup k kept
    else maybe last (lookup k kept) λ i. some (merged now (lookup k m.nodes) i)

merged_at-merge_info :
    (now : Time) (m : Manager) (i : Info) (last : Option Info) (kept : Map Node) (k : String)
    → merged_at now m last (merge_info now m (some i) kept) k
      ≡ merged_at now m (maybe last (if i.id == k then some i else none) some) kept k
unfolding merged_at merge_info
merged_at-merge_info now m i none kept k = ground (
  arith,
  eq_iff i.id k,
  eq_iff k m.node_id,
  eq_iff i.id m.node_id,
  lookup-insert i.id k (merged now (lookup i.id m.nodes) i) kept,
)
merged_at-merge_info now m i (some l) kept k = ground (
  arith,
  eq_iff i.id k,
  eq_iff k m.node_id,
  eq_iff i.id m.node_id,
  lookup-insert i.id k (merged now (lookup i.id m.nodes) i) kept,
)

merged_at-none :
    (now : Time) (m : Manager) (kept : Map Node) (k : String)
    → merged_at now m none kept k ≡ lookup k kept
unfolding merged_at
merged_at-none now m kept k =
    if_elim (λ r. r ≡ lookup k kept) (k == m.node_id) _ _ (λ _. refl) (λ _. refl)

pub lookup-merge_all :
    (now : Time) (m : Manager) (is : List (Option Info)) (kept : Map Node) (k : String)
    → lookup k (merge_all now m is kept) ≡ merged_at now m (last_info k is) kept k
unfolding merge_all last_info merge_info
lookup-merge_all now m [] kept k = sym (merged_at-none now m kept k)
lookup-merge_all now m (none ∷ is) kept k = lookup-merge_all now m is kept k
lookup-merge_all now m (some i ∷ is) kept k =
    lookup-merge_all now m is (merge_info now m (some i) kept) k
    ∙ merged_at-merge_info now m i (last_info k is) kept k

merged_at-own :
    (now : Time) (m : Manager) (last : Option Info) (kept : Map Node) (own : Option Node)
    (k : String)
    → lookup k kept ≡ (if k == m.node_id then own else none)
    → merged_at now m last kept k ≡ (
        if k == m.node_id then own else maybe last none λ i. some (merged now (lookup k m.nodes) i))
unfolding merged_at
merged_at-own now m none kept own k h = ground arith
merged_at-own now m (some i) kept own k h = ground arith

lookup-own_entry :
    (m : Manager) (k : String)
    → lookup k (own_entry m) ≡ (if k == m.node_id then lookup k m.nodes else none)
unfolding own_entry lookup
lookup-own_entry m k = elim (text_cases k m.node_id) [
  | inl (t, e) ↦ ground (arith, eq_iff k m.node_id, eq_iff m.node_id k)
  | inr (f, d) ↦ ground (arith, eq_iff k m.node_id, eq_iff m.node_id k)
]

lookup-one :
    (id : String) (n : Node) (k : String)
    → lookup k ((id, n) ∷ []) ≡ (if k == id then some n else none)
unfolding lookup
lookup-one id n k = ground (arith, eq_iff k id, eq_iff id k)

-- The entry that is rebuilt: what the element says, and what was known, or the defaults, for the rest.
abbrev pub rebuilt : Time → Option Node → Info → Node
rebuilt now known i = record {
  id = maybe known i.id λ node. node.id;
  address = i.address;
  status = i.status;
  last_seen = i.last_seen;
  version = maybe known "1.0.0" λ node. node.version;
  metadata = maybe known sync_role λ node. node.metadata;
  is_leader = i.is_leader;
  joined_at = maybe known now λ node. node.joined_at;
}

merged-rebuilt :
    (now : Time) (known : Option Node) (last : Option Info)
    → maybe last none (λ i. some (merged now known i))
      ≡ maybe last none λ i. some (rebuilt now known i)
unfolding merged
merged-rebuilt now known none = refl
merged-rebuilt now none (some i) = refl
merged-rebuilt now (some node) (some i) = refl

-- The entry of a node of its own, which is made if there is none.
abbrev pub own_or_new : Time → Manager → Bool → Node
own_or_new now m leads =
    maybe (lookup m.node_id m.nodes)
      (record {
        id = m.node_id;
        address = "0.0.0.0:8082";
        status = "active";
        last_seen = now;
        version = "1.0.0";
        metadata = sync_role;
        is_leader = leads;
        joined_at = now;
      })
      λ self. self

own_node-own_or_new :
    (now : Time) (m : Manager) (leader_id : String) (leads : Bool)
    → own_node now (record m { leader_id = leader_id; is_leader = leads }) ≡ own_or_new now m leads
unfolding own_node
own_node-own_or_new now m leader_id leads = elim (Option-cases (lookup m.node_id m.nodes)) [
  | inl e ↦ rw (e, own_node) refl
  | inr (self, e) ↦ rw (e, own_node) refl
]

-- After the answer to a membership request, node by node: this node's own entry is unchanged; any
-- other is rebuilt from the last element of the answer that names it, with the id, version, metadata
-- and time of joining that were known, and gone if none does.
pub update_cluster_membership-lookup :
    (now : Time) (received : List Json) (m : Manager) (k : String)
    → lookup k (update_cluster_membership now received m).nodes ≡ (
        if k == m.node_id
        then lookup k m.nodes
        else maybe
            (last_info k (map (read_discovered now) received))
            none
            λ i. some (rebuilt now (lookup k m.nodes) i))
unfolding update_cluster_membership
update_cluster_membership-lookup now received m k =
    rw (sym (merged-rebuilt now (lookup k m.nodes) (last_info k read))) (
      lookup-merge_all now m read (own_entry m) k
      ∙ merged_at-own now m (last_info k read) (own_entry m) _ k (lookup-own_entry m k))
  where
    read : List (Option Info)
    read = map (read_discovered now) received

-- After a heartbeat, the leader is the one it names, this node counts itself as leader exactly if
-- it is that one, its own entry is kept or created, and any other entry is rebuilt from the last
-- element of the heartbeat that names it, with the id, version, metadata and time of joining that were
-- known, and gone if none does.
pub heartbeat-lookup :
    (now : Time) (leader_id : String) (received : List Fields) (m : Manager)
    → let after_it = update_nodes_from_heartbeat now leader_id received m in
      (after_it.leader_id ≡ leader_id)
      × ((after_it.is_leader ≡ true) ↔ (leader_id ≡ m.node_id))
      × ((k : String)
          → lookup k after_it.nodes ≡ (
              if k == m.node_id
              then some (own_or_new now m (leader_id == m.node_id))
              else maybe
                  (last_info k (map (read_heartbeat now) received))
                  none
                  λ i. some (rebuilt now (lookup k m.nodes) i)))
unfolding update_nodes_from_heartbeat
heartbeat-lookup now leader_id received m = (refl, eq_iff leader_id m.node_id, nodes)
  where
    led : Manager
    led = record m { leader_id = leader_id; is_leader = leader_id == m.node_id }

    read : List (Option Info)
    read = map (read_heartbeat now) received

    kept : Map Node
    kept = (m.node_id, own_node now led) ∷ []

    nodes :
        (k : String)
        → lookup k (merge_all now led read kept) ≡ (
            if k == m.node_id
            then some (own_or_new now m (leader_id == m.node_id))
            else maybe (last_info k read) none λ i. some (rebuilt now (lookup k m.nodes) i))
    nodes k =
        rw
          (
            sym (merged-rebuilt now (lookup k m.nodes) (last_info k read)),
            sym (own_node-own_or_new now m leader_id (leader_id == m.node_id)),
          )
          (lookup-merge_all now led read kept k
            ∙ merged_at-own now led (last_info k read) kept _ k
                (lookup-one m.node_id (own_node now led) k))
