-- ===== src/Api/State.antt =====
-- pkg/api/handler.go: the answers, and the handlers that look at nothing but the request. The router
-- has set a parameter of the path to the text of the URL.
use syncmesh.Common.{ℕ, String, Bool, true, false, Option, maybe, List, ◌==◌, if◌then◌else◌}
use syncmesh.P2pNode.Views.{NodeView, NodeHealth}

pub data Body : Type 0 where
  nothing : Body
  failure : String → Body
  node : NodeHealth → Body
  no_files : Body
  file : String → String → Body
  node_list : List NodeView → ℕ → Body
  one_node : NodeView → Body
  joined : String → String → String → Body
  removed : String → String → Body
  leader : String → Bool → Option NodeView → Body
  health : String → Option String → NodeHealth → Body
  info : String → Bool → String → Body
  cluster_joined : String → Body
  heartbeat_taken : String → Body
  received : String → ℕ → String → Body
  metrics : NodeHealth → Body
  index : Body

-- The code and the content of an answer; a timestamp is left out.
pub record Response : Type 0 where
  pub code : ℕ
  pub body : Body

-- `writeJSON` with StatusOK, and `writeError`.
unfoldable pub answer : Body → Response
answer body = record { code = 200; body = body }

unfoldable pub refuse : ℕ → String → Response
refuse code message = record { code = code; body = Body.failure message }

-- `corsMiddleware`: whether the next handler runs.
unfoldable pub passes_cors : String → Bool
passes_cors method = if method == "OPTIONS" then false else true

-- `getFiles`, `getFileStatus`, `syncFile` and `deleteFile`.
unfoldable pub get_files : Response
get_files = answer Body.no_files

-- `getIndex`, whose texts are constants.
unfoldable pub get_index : Response
get_index = answer Body.index

unfoldable pub on_file : String → String → Response
on_file status path =
    if path == "" then refuse 400 "File path is required" else answer (Body.file path status)

unfoldable pub get_file_status : String → Response
get_file_status path = on_file "unknown" path

unfoldable pub sync_file : String → Response
sync_file path = on_file "synced" path

unfoldable pub delete_file : String → Response
delete_file path = on_file "deleted" path

-- `joinNode`, with the address of a body that can be decoded, and `removeNode`.
unfoldable pub join_node : String → Option String → Response
join_node node_id address =
    let joined =
      maybe address (refuse 400 "Invalid request body")
        λ a. answer (Body.joined node_id a "joined") in
    if node_id == "" then refuse 400 "Node ID is required" else joined

unfoldable pub remove_node : String → Response
remove_node node_id =
    if node_id == ""
    then refuse 400 "Node ID is required"
    else answer (Body.removed node_id "removed")

-- `getIntParam` with `strconv.Atoi`, and `getBoolParam` with `strconv.ParseBool`.
unfoldable pub get_param : {A : Type 0} → (String → Option A) → String → A → A
get_param parse value default_value =
    let parsed = maybe (parse value) default_value λ a. a in
    if value == "" then default_value else parsed
