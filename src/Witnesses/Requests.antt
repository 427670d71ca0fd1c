-- ===== src/Witnesses/Requests.antt =====
-- Tests of the HTTP API: an upload, and a heartbeat of a node.
use syncmesh.Common.{
  Among, refl, ◌≡◌, ◌≢◌, ◌⊎◌, ◌↔◌, String, true, none, some, List, [], ◌∷◌, Map, lookup, length,
  ◌==◌, if◌then◌else◌,
}
use syncmesh.FileSync.State.{Bytes}
use syncmesh.FileSync.Files.{CanWrite}
use syncmesh.P2pNode.Views.{NodeView}
use syncmesh.Api.State.{Body, Response, answer}
use syncmesh.Api.Uploads.{Upload, IsIncomplete, receive_file, receive_file-read_file}
use syncmesh.Api.Routes.{Endpoint, Route, Request, Found, handle, serve}
use syncmesh.Api.Nodes.{api_nodes}
use syncmesh.Api.Listing.{HasDistinctIds, IsTold, api_nodes-IsTold}
use syncmesh.Witnesses.Services.{once, once-Enumerates}
use syncmesh.Api.Serving.{handle-panics_iff, serve-changes}
use syncmesh.Witnesses.Files.{toy_os, toy_os-IsFileSystem}
use syncmesh.Witnesses.Peers.{second_time}
use syncmesh.Witnesses.Nodes.{node}

abbrev upload : Upload
upload = record {
  parses = true;
  operation = "delete";
  path = "/etc/f";
  checksum = "";
  file = some (1 ∷ []);
}

receive_file-read_file_example :
    let (after_it, response) = receive_file toy_os upload [] in
    IsIncomplete upload × (after_it ≡ []) × (response.code ≡ 400)
    ⊎ ((bytes : Bytes) × (upload.file ≡ some bytes)
        × ((q : String) → "/etc/f" ≢ q → lookup q after_it ≡ lookup q [])
        × (CanWrite toy_os "/etc/f" bytes []
            → (response.code ≡ 200) × (lookup "/etc/f" after_it ≡ some bytes)))
receive_file-read_file_example =
    receive_file-read_file toy_os (λ path. path) toy_os-IsFileSystem upload []

abbrev request : Request
request = record {
  method = "POST";
  path = "/api/v1/sync/receive";
  address = none;
  node_id = none;
  is_heartbeat = true;
  form = upload;
}

-- A router for paths without parameters.
abbrev find_plain : List Route → String → String → Found
find_plain [] method path = Found.unmatched (record { code = 404; body = Body.no_files })
find_plain (r ∷ rest) method path =
    let later = find_plain rest method path in
    if r.method == method
    then if r.pattern == path then Found.handler r.endpoint "" else later
    else later

abbrev recovered : Response
recovered = record { code = 500; body = Body.nothing }

abbrev as_is : Map NodeView → Map NodeView
as_is m = m

serve-changes_example :
    let m = (serve toy_os as_is second_time [] find_plain recovered request node).0 in
    (m ≡ node)
    ⊎ ((param : String) × (Found.handler Endpoint.upload "" ≡ Found.handler Endpoint.upload param)
        × (m ≡ record node { file_sync = record node.file_sync { files = m.file_sync.files } })
        × ((q : String)
            → "/etc/f" ≢ q
            → lookup q m.file_sync.files ≡ lookup q node.file_sync.files))
serve-changes_example =
    serve-changes toy_os (λ path. path) toy_os-IsFileSystem as_is second_time [] find_plain
      recovered request node

handle-panics_iff_example :
    (handle toy_os as_is second_time [] Endpoint.heartbeat "" request node ≡ none)
    ↔ ((true ≡ true) × (node.transport.host_id ≡ none))
handle-panics_iff_example =
    handle-panics_iff toy_os as_is second_time [] Endpoint.heartbeat "" request node

api_nodes-IsTold_example :
    (xs : List NodeView) × (api_nodes once second_time [] node
      ≡ some (answer (Body.node_list xs (length xs))))
    × HasDistinctIds xs
    × ((v : NodeView) → Among v xs ↔ IsTold second_time [] "a" node v)
api_nodes-IsTold_example = api_nodes-IsTold once once-Enumerates second_time [] "a" node refl
