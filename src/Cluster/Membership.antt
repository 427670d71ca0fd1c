-- ===== src/Cluster/Membership.antt =====
-- internal/cluster/manager.go: the merge of membership that another node sent. The map's pointers
-- are not shared with anything that outlives the call, so the nodes are values.
use syncmesh.Common.{
  String, Bool, false, Option, none, some, List, [], ◌∷◌, map, ◌==◌, Time, unix_time, Map, lookup,
  insert, if◌then◌else◌,
}
use syncmesh.Json.{
  Json, Fields, get, as_text, as_boolean, as_number, as_object, truncate, is_positive,
}
use syncmesh.Cluster.State.{Node, Manager, sync_role}

-- A failed assertion goes on with the next element.
infixl 5 ◌>>=◌
abbrev ◌>>=◌ {ℓ κ} : {A : Type ℓ} {B : Type κ} → Option A → (A → Option B) → Option B
none >>= f = none
some a >>= f = f a

-- What the two loops read of one element.
pub record Info : Type 0 where
  pub id : String
  pub address : String
  pub status : String
  pub is_leader : Bool
  pub last_seen : Time

-- `x, _ := v.(T)`: the zero value if the assertion fails.
abbrev text_or_empty : Json → String
text_or_empty v = elim (as_text v) [ none ↦ "" | some s ↦ s ]

abbrev boolean_or_false : Json → Bool
boolean_or_false v = elim (as_boolean v) [ none ↦ false | some b ↦ b ]

info : String → Time → Fields → Info
info id last_seen node = record {
  id = id;
  address = text_or_empty (get "address" node);
  status = text_or_empty (get "status" node);
  is_leader = boolean_or_false (get "is_leader" node);
  last_seen = last_seen;
}

-- Unix seconds; the current time if they are missing.
last_seen_or_now : Time → Json → Time
last_seen_or_now now v = elim (as_number v) [ none ↦ now | some f ↦ unix_time (truncate f) ]

-- The same, and the current time too if they are not positive.
positive_last_seen : Time → Json → Time
positive_last_seen now v = elim (as_number v) [
  | none ↦ now
  | some f ↦ if is_positive f then unix_time (truncate f) else now
]

-- One element of the response to a membership request: `none` where the loop goes on.
unfoldable pub read_discovered : Time → Json → Option Info
unfolding info last_seen_or_now
read_discovered now v = do
  node ← as_object v
  id ← as_text (get "id" node)
  some (info id (last_seen_or_now now (get "last_seen" node)) node)

-- One element of a heartbeat.
unfoldable pub read_heartbeat : Time → Fields → Option Info
unfolding info positive_last_seen
read_heartbeat now node = do
  id ← as_text (get "id" node)
  some (info id (positive_last_seen now (get "last_seen" node)) node)

-- The node as it stands after the loop's body: four fields of a known node are replaced.
unfoldable pub merged : Time → Option Node → Info → Node
merged now none i = record {
  id = i.id;
  address = i.address;
  status = i.status;
  last_seen = i.last_seen;
  version = "1.0.0";
  metadata = sync_role;
  is_leader = i.is_leader;
  joined_at = now;
}
merged now (some node) i = record node {
  address = i.address;
  status = i.status;
  last_seen = i.last_seen;
  is_leader = i.is_leader;
}

-- One round of the loop over the map that is being built.
unfoldable pub merge_info : Time → Manager → Option Info → Map Node → Map Node
merge_info now m none new = new
merge_info now m (some i) new =
    if i.id == m.node_id then new else insert i.id (merged now (lookup i.id m.nodes) i) new

unfoldable pub merge_all : Time → Manager → List (Option Info) → Map Node → Map Node
merge_all now m [] new = new
merge_all now m (i ∷ is) new = merge_all now m is (merge_info now m i new)

-- `updateClusterMembership` keeps this node's own entry, if there is one.
unfoldable pub own_entry : Manager → Map Node
own_entry m = elim (lookup m.node_id m.nodes) [ none ↦ [] | some self ↦ (m.node_id, self) ∷ [] ]

unfoldable pub update_cluster_membership : Time → List Json → Manager → Manager
update_cluster_membership now received m = record m {
  nodes = merge_all now m (map (read_discovered now) received) (own_entry m);
}

-- The entry that a heartbeat keeps or creates.
unfoldable pub own_node : Time → Manager → Node
own_node now m = elim (lookup m.node_id m.nodes) [
  | some self ↦ self
  | none ↦ record {
    id = m.node_id;
    address = "0.0.0.0:8082";
    status = "active";
    last_seen = now;
    version = "1.0.0";
    metadata = sync_role;
    is_leader = m.is_leader;
    joined_at = now;
  }
]

-- `UpdateNodesFromHeartbeat`.
unfoldable pub update_nodes_from_heartbeat : Time → String → List Fields → Manager → Manager
update_nodes_from_heartbeat now leader_id received m =
    let led = record m { leader_id = leader_id; is_leader = leader_id == m.node_id } in
    record led {
      nodes =
          merge_all now led (map (read_heartbeat now) received)
            ((m.node_id, own_node now led) ∷ []);
    }
