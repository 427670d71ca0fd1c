-- ===== src/Api/Routes.antt =====
-- pkg/api/handler.go, `NewHTTPHandler`: the routes, and what a request is answered with. The router of
-- chi is a parameter: it finds a route for the method and the path of a request, with the parameter of
-- the path, or answers itself.
use syncmesh.Common.{
  String, Bool, Option, none, some, maybe, List, [], ◌∷◌, Time, Map, if◌then◌else◌,
}
use syncmesh.FileSync.Files.{Os}
use syncmesh.P2pNode.State.{P2pNode}
use syncmesh.P2pNode.Views.{NodeView}
use syncmesh.Api.State.{
  Body, Response, answer, passes_cors, get_files, get_file_status, sync_file, delete_file,
  join_node, remove_node, get_index,
}
use syncmesh.Api.Nodes.{
  get_status, get_metrics, get_health, get_info, api_nodes, api_node, api_leader,
  handle_cluster_join, handle_heartbeat,
}
use syncmesh.Api.Uploads.{Upload, receive_file}

pub data Endpoint : Type 0 where
  sync_status files file_status file_sync file_deletion upload : Endpoint
  cluster_status nodes node joining removal leading cluster_join heartbeat : Endpoint
  health metrics info index : Endpoint

pub record Route : Type 0 where
  pub method : String
  pub pattern : String
  pub endpoint : Endpoint

abbrev pub route : String → String → Endpoint → Route
route method pattern endpoint = record { method = method; pattern = pattern; endpoint = endpoint }

abbrev pub routes : List Route
routes =
    route "GET" "/api/v1/sync/status" Endpoint.sync_status
    ∷ route "GET" "/api/v1/sync/files" Endpoint.files
    ∷ route "GET" "/api/v1/sync/files/{path}" Endpoint.file_status
    ∷ route "POST" "/api/v1/sync/files/{path}/sync" Endpoint.file_sync
    ∷ route "DELETE" "/api/v1/sync/files/{path}" Endpoint.file_deletion
    ∷ route "POST" "/api/v1/sync/receive" Endpoint.upload
    ∷ route "GET" "/api/v1/cluster/status" Endpoint.cluster_status
    ∷ route "GET" "/api/v1/cluster/nodes" Endpoint.nodes
    ∷ route "GET" "/api/v1/cluster/nodes/{nodeId}" Endpoint.node
    ∷ route "POST" "/api/v1/cluster/nodes/{nodeId}/join" Endpoint.joining
    ∷ route "DELETE" "/api/v1/cluster/nodes/{nodeId}" Endpoint.removal
    ∷ route "GET" "/api/v1/cluster/leader" Endpoint.leading
    ∷ route "POST" "/api/v1/cluster/join" Endpoint.cluster_join
    ∷ route "POST" "/api/v1/cluster/heartbeat" Endpoint.heartbeat
    ∷ route "GET" "/api/v1/health" Endpoint.health
    ∷ route "GET" "/api/v1/metrics" Endpoint.metrics
    ∷ route "GET" "/api/v1/info" Endpoint.info
    ∷ route "GET" "/" Endpoint.index
    ∷ []

-- A request, with what each handler would decode of its body.
pub record Request : Type 0 where
  pub method : String
  pub path : String
  pub address : Option String
  pub node_id : Option String
  pub is_heartbeat : Bool
  pub form : Upload

-- What the router finds: an endpoint and the parameter of the path, or its own answer.
pub data Found : Type 0 where
  handler : Endpoint → String → Found
  unmatched : Response → Found

module _ {Fs : Type 0} where
  -- A handler that changes nothing.
  unfoldable pub telling : P2pNode Fs → Option Response → Option (P2pNode Fs × Response)
  telling n response = maybe response none λ r. some (n, r)

  -- An upload writes to the file system that the file synchronisation reads.
  unfoldable pub uploading : Os Fs → Upload → P2pNode Fs → P2pNode Fs × Response
  uploading os form n =
      let done = receive_file os form n.file_sync.files in
      (record n { file_sync = record n.file_sync { files = done.0 } }, done.1)

module _ {Fs : Type 0} (os : Os Fs) (range : Map NodeView → Map NodeView) (now : Time)
    (addrs : List String) where
  -- The handler of an endpoint; `none` is a panic.
  unfoldable pub handle : Endpoint → String → Request → P2pNode Fs → Option (P2pNode Fs × Response)
  handle Endpoint.sync_status param r n = telling n (get_status n)
  handle Endpoint.files param r n = telling n (some get_files)
  handle Endpoint.file_status param r n = telling n (some (get_file_status param))
  handle Endpoint.file_sync param r n = telling n (some (sync_file param))
  handle Endpoint.file_deletion param r n = telling n (some (delete_file param))
  handle Endpoint.upload param r n = some (uploading os r.form n)
  handle Endpoint.cluster_status param r n = telling n (get_status n)
  handle Endpoint.nodes param r n = telling n (api_nodes range now addrs n)
  handle Endpoint.node param r n = telling n (api_node now addrs param n)
  handle Endpoint.joining param r n = telling n (some (join_node param r.address))
  handle Endpoint.removal param r n = telling n (some (remove_node param))
  handle Endpoint.leading param r n = telling n (api_leader now addrs n)
  handle Endpoint.cluster_join param r n = telling n (some (handle_cluster_join r.node_id n))
  handle Endpoint.heartbeat param r n = telling n (handle_heartbeat r.is_heartbeat n)
  handle Endpoint.health param r n = telling n (get_health n)
  handle Endpoint.metrics param r n = telling n (get_metrics n)
  handle Endpoint.info param r n = telling n (get_info n)
  handle Endpoint.index param r n = telling n (some get_index)

  -- The handlers behind `corsMiddleware`. The middleware Recoverer of chi stands before it; `recovered`
  -- is what it answers for a panic.
  unfoldable pub serve :
      (List Route → String → String → Found)
      → Response
      → Request
      → P2pNode Fs
      → P2pNode Fs × Response
  serve find recovered r n =
      if passes_cors r.method
      then elim (find routes r.method r.path) [
        | Found.handler endpoint param ↦
            maybe (handle endpoint param r n) (n, recovered) λ done. done
        | Found.unmatched response ↦ (n, response)
      ]
      else (n, answer Body.nothing)
