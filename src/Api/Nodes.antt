-- ===== src/Api/Nodes.antt =====
-- pkg/api/handler.go: what the API tells of the nodes. `none` is a panic, which the router answers
-- with the code 500; `range` is the order in which the loop visits the nodes.
use syncmesh.Common.{
  String, Bool, Option, none, some, maybe, List, [], ◌∷◌, ◌==◌, Time, Map, lookup, length,
  if◌then◌else◌,
}
use syncmesh.P2pNode.State.{P2pNode, get_leader_id}
use syncmesh.P2pNode.Views.{NodeView, get_nodes, node_health, node_is_leader}
use syncmesh.Api.State.{Body, Response, answer, refuse}

unfoldable pub listed : Map NodeView → List NodeView
listed [] = []
listed ((id, view) ∷ visited) = record view { id = id } ∷ listed visited

module _ {Fs : Type 0} where
  -- `getSyncStatus` and `getClusterStatus`.
  unfoldable pub get_status : P2pNode Fs → Option Response
  get_status n = maybe (node_health n) none λ h. some (answer (Body.node h))

  -- `getMetrics`.
  unfoldable pub get_metrics : P2pNode Fs → Option Response
  get_metrics n = maybe (node_health n) none λ h. some (answer (Body.metrics h))

  -- `getHealth`, which answers with StatusOK in either case.
  unfoldable pub get_health : P2pNode Fs → Option Response
  get_health n = maybe (node_health n) none λ h. some (
      answer (
        if h.running
        then Body.health "healthy" none h
        else Body.health "unhealthy" (some "P2P node is not running") h))

  -- `getInfo`.
  unfoldable pub get_info : P2pNode Fs → Option Response
  get_info n = maybe n.transport.host_id none λ id.
      maybe (node_is_leader n) none λ leads. some (answer (Body.info id leads (get_leader_id n)))

  -- `getNodes`.
  unfoldable pub api_nodes :
      (Map NodeView → Map NodeView) → Time → List String → P2pNode Fs → Option Response
  api_nodes range now addrs n = maybe (get_nodes now addrs n) none λ views.
      let nodes = listed (range views) in some (answer (Body.node_list nodes (length nodes)))

  -- `getNode`.
  unfoldable pub api_node : Time → List String → String → P2pNode Fs → Option Response
  api_node now addrs node_id n =
      let found = maybe (get_nodes now addrs n) none λ views. some (
        maybe (lookup node_id views) (refuse 404 "Node not found")
          λ view. answer (Body.one_node (record view { id = node_id }))) in
      if node_id == "" then some (refuse 400 "Node ID is required") else found

  -- `getLeader`.
  unfoldable pub api_leader : Time → List String → P2pNode Fs → Option Response
  api_leader now addrs n =
      let id = get_leader_id n in
      let described = maybe (get_nodes now addrs n) none λ views. some (lookup id views) in
      maybe (node_is_leader n) none λ leads.
        maybe (if id == "" then some none else described) none
          λ view. some (answer (Body.leader id leads view))

  -- `handleClusterJoin`, with the node's id of a body that can be decoded.
  unfoldable pub handle_cluster_join : Option String → P2pNode Fs → Response
  handle_cluster_join body n = maybe body (refuse 400 "Invalid request body") λ node_id.
      if node_id == ""
      then refuse 400 "Node ID is required"
      else answer (Body.cluster_joined (get_leader_id n))

  -- `handleHeartbeat`, which only logs what the body says.
  unfoldable pub handle_heartbeat : Bool → P2pNode Fs → Option Response
  handle_heartbeat decodes n =
      let taken = maybe n.transport.host_id none λ id. some (answer (Body.heartbeat_taken id)) in
      if decodes then taken else some (refuse 400 "Invalid request body")
