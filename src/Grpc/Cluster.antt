-- ===== src/Grpc/Cluster.antt =====
-- pkg/grpc/server.go: what a node tells of the cluster. `range` is the order in which the loop visits
-- a map, and `format` prints the addresses of a node.
use syncmesh.Common.{
  ℕ, ℤ, String, Bool, true, false, Option, none, some, maybe, List, [], ◌∷◌, ◌==◌, ◌<>◌, length,
  Time, Map, if◌then◌else◌, pos, sub_ℕ, ltb, ◌%◌, ◌^◌,
}
use syncmesh.P2pNode.State.{P2pNode, get_leader_id}
use syncmesh.Grpc.Messages.{
  ClusterNode, JoinClusterRequest, JoinClusterResponse, LeaveClusterRequest, LeaveClusterResponse,
  GetClusterStatusRequest, GetClusterStatusResponse,
}
use syncmesh.P2pNode.Views.{Metadata, NodeView, get_nodes}

-- `int32(n)` of a length.
unfoldable pub int32 : ℕ → ℤ
int32 n = let low = n % 2 ^ 32 in if ltb low (2 ^ 31) then pos low else sub_ℕ low (2 ^ 32)

-- `metadata.(map[string]string)`; `none` is its panic.
unfoldable pub as_texts : Metadata → Option (Map String)
as_texts (Metadata.of_texts m) = some m
as_texts (Metadata.of_values m) = none

module _ (format : List String → String) (leads : String → Bool) where
  unfoldable pub cluster_node : String → NodeView → Option ClusterNode
  cluster_node id view = maybe (as_texts view.metadata) none λ metadata. some (record {
    node_id = id;
    address = format view.addresses;
    status = view.status;
    is_leader = leads id;
    version = "1.0.0";
    last_seen = pos 0;
    joined_at = pos 0;
    metadata = metadata;
  })

  -- The loop over the nodes.
  unfoldable pub cluster_nodes : Map NodeView → Option (List ClusterNode)
  cluster_nodes [] = some []
  cluster_nodes ((id, view) ∷ views) =
      let rest = cluster_nodes views in
      maybe (cluster_node id view) none λ node. maybe rest none λ nodes. some (node ∷ nodes)

-- `LeaveCluster`, which changes nothing.
unfoldable pub leave_cluster : LeaveClusterRequest → LeaveClusterResponse
leave_cluster req = record { success = true; message = "Node " <> req.node_id <> " left cluster" }

module _ {Fs : Type 0} (format : List String → String) (range : Map NodeView → Map NodeView) where
  -- `JoinCluster` and `GetClusterStatus`; `none` is a panic.
  unfoldable pub join_cluster :
      Time → List String → JoinClusterRequest → P2pNode Fs → Option JoinClusterResponse
  join_cluster now addrs req n = maybe (get_nodes now addrs n) none λ views.
      maybe (cluster_nodes format (λ id. false) (range views)) none λ nodes. some (record {
        success = true;
        message = "Successfully joined cluster";
        leader_id = get_leader_id n;
        nodes = nodes;
      })

  unfoldable pub get_cluster_status :
      Time → List String → GetClusterStatusRequest → P2pNode Fs → Option GetClusterStatusResponse
  get_cluster_status now addrs req n = maybe (get_nodes now addrs n) none λ views.
      maybe (cluster_nodes format (λ id. id == get_leader_id n) (range views)) none λ nodes.
        some (record {
          leader_id = get_leader_id n;
          nodes = nodes;
          total_nodes = int32 (length views);
          active_nodes = int32 (length views);
          health = none;
        })
