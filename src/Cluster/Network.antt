-- ===== src/Cluster/Network.antt =====
-- internal/cluster/manager.go: the exchange with other nodes over HTTP. The other side is a
-- parameter: `http_get` gives the object in a response's body, `none` if the request or the decoding
-- fails; `http_post` gives the status code of the response, `none` if the request fails.
use syncmesh.Common.{
  ℕ, String, ◌<>◌, ℤ, pos, ◌*ℤ◌, Bool, false, Option, none, some, maybe, List, [], ◌∷◌, ◌==◌, ◌||◌,
  not, Time, unix_seconds, Map, modify, if◌then◌else◌, replace_first, leb, ◌&&◌,
}
use syncmesh.Json.{
  Json, text, boolean, number, array, object, Items, nil, item, Fields, end, field, scaled,
  float_unit, get, as_text, as_array,
}
use syncmesh.Cluster.State.{Node, Manager}
use syncmesh.Cluster.Leadership.{set_leader}
use syncmesh.Cluster.Membership.{update_cluster_membership}

-- The API address of a node whose cluster address is given.
http_address : String → String
http_address addr = replace_first addr ":8082" ":8080"

unfoldable pub api_url : String → String → String
unfolding http_address
api_url addr path = "http://" <> http_address addr <> "/api/v1/cluster/" <> path

-- An int64 as the number that its decoder reads, exact below 2^53.
integer : ℤ → Json
integer n = number (scaled (n *ℤ pos float_unit))

unfoldable pub join_request : Manager → Json
join_request m = object (
    field "node_id" (text m.node_id) (
      field "address" (text m.config.advertise_addr) (
        field "version" (text "1.0.0")
          (field "metadata" (object (field "role" (text "sync-node") end)) end))))

-- One element of the membership in a heartbeat.
unfoldable pub node_fields : Node → Fields
unfolding integer
node_fields n = field "id" (text n.id) (
    field "address" (text n.address) (
      field "status" (text n.status) (
        field "last_seen" (integer (unix_seconds n.last_seen))
          (field "is_leader" (boolean n.is_leader) end))))

node_items : Map Node → Items
node_items [] = nil
node_items ((k, n) ∷ rest) = item (object (node_fields n)) (node_items rest)

unfoldable pub heartbeat_payload : Time → Map Node → Manager → Json
unfolding node_items integer
heartbeat_payload now visited m =
    let seconds = integer (unix_seconds now) in
    object (
      field "leader_id" (text m.node_id) (
        field "term" seconds
          (field "timestamp" seconds (field "nodes" (array (node_items visited)) end))))

is_ok : Option ℕ → Bool
is_ok none = false
is_ok (some status) = leb 200 status && leb status 200

-- `sendHeartbeat`: the nodes to which a heartbeat is sent, and this node's own time stamp.
unfoldable pub other_nodes : String → Map Node → List Node
other_nodes self [] = []
other_nodes self ((k, node) ∷ rest) =
    let others = other_nodes self rest in if node.id == self then others else node ∷ others

unfoldable pub send_heartbeat : Time → Map Node → Manager → Manager × List Node
send_heartbeat now visited m = (
  record m { nodes = modify m.node_id (λ node. record node { last_seen = now }) m.nodes },
  other_nodes m.node_id visited,
)

-- The change to a node that has answered a heartbeat.
unfoldable pub mark_heard : Time → String → Manager → Manager
mark_heard now id m = record m {
  nodes = modify id (λ node. record node { last_seen = now; status = "active" }) m.nodes;
}

-- The address under which the loop of `refreshClusterMembership` finds the leader.
unfoldable pub find_address : String → Map Node → String
find_address id [] = ""
find_address id ((k, node) ∷ rest) = if node.id == id then node.address else find_address id rest

-- Whom to ask for the membership; `none` where the code returns without a request.
unfoldable pub refresh_address : Map Node → Manager → Option String
refresh_address visited m =
    if m.leader_id == "" || m.leader_id == m.node_id
    then none
    else let addr = find_address m.leader_id visited in
      if not (addr == "")
      then some addr
      else elim m.config.join_addresses [ [] ↦ none | first ∷ _ ↦ some first ]

module _ (http_get : String → Option Fields) where
  -- The last part of `discoverClusterNodes` and of `refreshClusterMembership`.
  unfoldable pub fetch_membership : Time → String → Manager → Manager
  fetch_membership now addr m = maybe (http_get (api_url addr "nodes")) m λ body.
      maybe (as_array (get "nodes" body)) m λ received. update_cluster_membership now received m

  -- `discoverClusterNodes`.
  unfoldable pub discover_cluster_nodes : Time → String → Manager → Manager
  discover_cluster_nodes now addr m = maybe (http_get (api_url addr "status")) m λ status.
      fetch_membership now addr
        (maybe (as_text (get "leader_id" status)) m λ leader_id. set_leader leader_id m)

  -- `refreshClusterMembership`.
  unfoldable pub refresh_cluster_membership : Time → Map Node → Manager → Manager
  refresh_cluster_membership now visited m =
      maybe (refresh_address visited m) m λ addr. fetch_membership now addr m

module _ (http_post : String → Json → Option ℕ) where
  -- `sendJoinRequest`.
  unfoldable pub send_join_request : String → Manager → Bool
  unfolding is_ok
  send_join_request addr m = is_ok (http_post (api_url addr "join") (join_request m))

  unfoldable pub heartbeat_is_accepted : Time → Map Node → Node → Manager → Bool
  unfolding is_ok
  heartbeat_is_accepted now visited node m =
      is_ok (http_post (api_url node.address "heartbeat") (heartbeat_payload now visited m))

  -- `sendHeartbeatToNode`.
  unfoldable pub send_heartbeat_to_node : Time → Map Node → Node → Manager → Manager
  send_heartbeat_to_node now visited node m =
      if heartbeat_is_accepted now visited node m then mark_heard now node.id m else m

module _ (http_get : String → Option Fields) (http_post : String → Json → Option ℕ) where
  -- The loop of `joinCluster`: the first address that accepts.
  unfoldable pub join_via : Time → List String → Manager → Manager
  join_via now [] m = m
  join_via now (addr ∷ addrs) m =
      let rest = join_via now addrs m in
      if send_join_request http_post addr m
      then discover_cluster_nodes http_get now addr m
      else rest

  unfoldable pub join_cluster : Time → Manager → Manager
  join_cluster now m = join_via now m.config.join_addresses m
