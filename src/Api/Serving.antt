-- ===== src/Api/Serving.antt =====
-- pkg/api/handler.go: what a request to the API changes, and when its handler panics.
use syncmesh.Common.{
  ◌≡◌, ◌≢◌, ◌⊎◌, ◌↔◌, inl, inr, refl, String, true, Option, none, some, maybe, List, Time, Map,
  arith, ap, ◌∙◌, Option-cases, text_cases, Bool-cases,
}
use syncmesh.FileSync.Files.{Os, IsFileSystem}
use syncmesh.P2pNode.State.{P2pNode, get_leader_id}
use syncmesh.P2pNode.Views.{NodeView, get_nodes, node_health, node_is_leader}
use syncmesh.Api.State.{Response, passes_cors}
use syncmesh.Api.Nodes.{
  get_status, get_metrics, get_health, get_info, api_nodes, api_node, api_leader, handle_heartbeat,
}
use syncmesh.Api.Uploads.{Upload, receive_file-read_file}
use syncmesh.Api.Routes.{Endpoint, Route, routes, Request, Found, telling, uploading, handle, serve}

-- The handler asks the node for its id.
abbrev pub AsksHost : Endpoint → String → Request → Type 0
AsksHost Endpoint.node param r = param ≢ ""
AsksHost Endpoint.heartbeat param r = r.is_heartbeat ≡ true
AsksHost Endpoint.sync_status param r = Unit
AsksHost Endpoint.cluster_status param r = Unit
AsksHost Endpoint.nodes param r = Unit
AsksHost Endpoint.leading param r = Unit
AsksHost Endpoint.health param r = Unit
AsksHost Endpoint.metrics param r = Unit
AsksHost Endpoint.info param r = Unit
AsksHost _ param r = ⊥

-- A handler that panics without a host, and answers with one.
by_host :
    {A : Type 0} (host : Option String) (K : Type 0) (result : Option A)
    → K
    → (host ≡ none → result ≡ none)
    → ((id : String) → host ≡ some id → ¬ (result ≡ none))
    → (result ≡ none) ↔ (K × (host ≡ none))
by_host host K result k panics answers = (
  λ e. elim (Option-cases host) [
    | inl bare ↦ (k, bare)
    | inr (id, hosted) ↦ absurd (answers id hosted e)
  ],
  λ (_, bare). panics bare,
)

-- A handler that answers with what the node tells.
told :
    {Fs A : Type 0} (n : P2pNode Fs) (host : Option String) (f : String → A) (g : A → Response)
    {K : Type 0}
    → K
    → (telling n (maybe (maybe host none (λ id. some (f id))) none (λ a. some (g a))) ≡ none)
      ↔ (K × (host ≡ none))
unfolding telling
told n host f g k = by_host host _ _ k (λ e. rw e refl) (λ id e. rw e (λ h. ground arith))

module _ {Fs : Type 0} (os : Os Fs) (range : Map NodeView → Map NodeView) (now : Time)
    (addrs : List String) where
  -- The handler of an endpoint panics exactly if it asks the node for its id, and the node has no host
  -- yet: for a single node that is if the path names one, and for a heartbeat if the body can be
  -- decoded.
  pub handle-panics_iff :
      (e : Endpoint) (param : String) (r : Request) (n : P2pNode Fs)
      → (handle os range now addrs e param r n ≡ none)
        ↔ (AsksHost e param r × (n.transport.host_id ≡ none))
  unfolding handle telling get_status get_metrics get_health get_info api_nodes api_node api_leader
      handle_heartbeat get_nodes node_health node_is_leader get_leader_id
  handle-panics_iff Endpoint.sync_status param r n = told n n.transport.host_id _ _ tt
  handle-panics_iff Endpoint.files param r n = ground arith
  handle-panics_iff Endpoint.file_status param r n = ground arith
  handle-panics_iff Endpoint.file_sync param r n = ground arith
  handle-panics_iff Endpoint.file_deletion param r n = ground arith
  handle-panics_iff Endpoint.upload param r n = ground arith
  handle-panics_iff Endpoint.cluster_status param r n = told n n.transport.host_id _ _ tt
  handle-panics_iff Endpoint.nodes param r n = told n n.transport.host_id _ _ tt
  handle-panics_iff Endpoint.node param r n = elim (text_cases param "") [
    | inl (t, same) ↦ (λ h. absurd (ground arith), λ (differs, _). absurd (differs same))
    | inr (t, differs) ↦
        by_host n.transport.host_id (param ≢ "") _ differs (λ e. rw (t, e) refl)
          (λ id e. rw (t, e) (λ h. ground arith))
  ]
  handle-panics_iff Endpoint.joining param r n = ground arith
  handle-panics_iff Endpoint.removal param r n = ground arith
  handle-panics_iff Endpoint.leading param r n =
      by_host n.transport.host_id Unit _ tt (λ e. rw e refl)
        (λ id e. elim (text_cases (get_leader_id n) "") [
          | inl (t, _) ↦ rw (e, t) (λ h. ground arith)
          | inr (t, _) ↦ rw (e, t) (λ h. ground arith)
        ])
  handle-panics_iff Endpoint.cluster_join param r n = ground arith
  handle-panics_iff Endpoint.heartbeat param r n = elim (Bool-cases r.is_heartbeat) [
    | inl t ↦
        by_host n.transport.host_id (r.is_heartbeat ≡ true) _ t (λ e. rw (t, e) refl)
          (λ id e. rw (t, e) (λ h. ground arith))
    | inr t ↦ (λ h. absurd (ground arith), λ (differs, _). absurd (ground arith))
  ]
  handle-panics_iff Endpoint.health param r n = told n n.transport.host_id _ _ tt
  handle-panics_iff Endpoint.metrics param r n = told n n.transport.host_id _ _ tt
  handle-panics_iff Endpoint.info param r n =
      by_host n.transport.host_id Unit _ tt (λ e. rw e refl) (λ id e. rw e (λ h. ground arith))
  handle-panics_iff Endpoint.index param r n = ground arith

-- A handler is that of uploads, or only tells something.
handle-cases :
    {Fs : Type 0} (os : Os Fs) (range : Map NodeView → Map NodeView) (now : Time)
    (addrs : List String) (e : Endpoint) (param : String) (r : Request) (n : P2pNode Fs)
    → (e ≡ Endpoint.upload)
      ⊎ ((o : Option Response) × (handle os range now addrs e param r n ≡ telling n o))
unfolding handle
handle-cases os range now addrs Endpoint.sync_status param r n = inr (_, refl)
handle-cases os range now addrs Endpoint.files param r n = inr (_, refl)
handle-cases os range now addrs Endpoint.file_status param r n = inr (_, refl)
handle-cases os range now addrs Endpoint.file_sync param r n = inr (_, refl)
handle-cases os range now addrs Endpoint.file_deletion param r n = inr (_, refl)
handle-cases os range now addrs Endpoint.upload param r n = inl refl
handle-cases os range now addrs Endpoint.cluster_status param r n = inr (_, refl)
handle-cases os range now addrs Endpoint.nodes param r n = inr (_, refl)
handle-cases os range now addrs Endpoint.node param r n = inr (_, refl)
handle-cases os range now addrs Endpoint.joining param r n = inr (_, refl)
handle-cases os range now addrs Endpoint.removal param r n = inr (_, refl)
handle-cases os range now addrs Endpoint.leading param r n = inr (_, refl)
handle-cases os range now addrs Endpoint.cluster_join param r n = inr (_, refl)
handle-cases os range now addrs Endpoint.heartbeat param r n = inr (_, refl)
handle-cases os range now addrs Endpoint.health param r n = inr (_, refl)
handle-cases os range now addrs Endpoint.metrics param r n = inr (_, refl)
handle-cases os range now addrs Endpoint.info param r n = inr (_, refl)
handle-cases os range now addrs Endpoint.index param r n = inr (_, refl)

Found-cases :
    (found : Found)
    → ((e : Endpoint) × (param : String) × (found ≡ Found.handler e param))
      ⊎ ((response : Response) × (found ≡ Found.unmatched response))
Found-cases (Found.handler e param) = inl (e, param, refl)
Found-cases (Found.unmatched response) = inr (response, refl)

telling-same :
    {Fs : Type 0} (n : P2pNode Fs) (o : Option Response) (response : Response)
    → (maybe (telling n o) (n, response) (λ (done : P2pNode Fs × Response). done)).0 ≡ n
unfolding telling
telling-same n none response = refl
telling-same n (some r) response = refl

module _ {Fs : Type 0} (os : Os Fs) (file_of : String → String) (is_fs : IsFileSystem os file_of)
    (range : Map NodeView → Map NodeView) (now : Time) (addrs : List String) where
  uploading-others :
      (form : Upload) (n : P2pNode Fs) (q : String)
      → file_of form.path ≢ file_of q
      → os.read_file q (uploading os form n).0.file_sync.files ≡ os.read_file q n.file_sync.files
  unfolding uploading
  uploading-others form n q other =
      elim (receive_file-read_file os file_of is_fs form n.file_sync.files) [
        | inl (_, same, _) ↦ ap (λ (fs : Fs). os.read_file q fs) same
        | inr (_, _, others, _) ↦ others q other
      ]

  -- A request changes nothing of the node, unless the router takes it for an upload. Then it changes
  -- nothing but the node's files, and of these at most the one that the form names.
  pub serve-changes :
      (find : List Route → String → String → Found) (recovered : Response) (r : Request)
      (n : P2pNode Fs)
      → let m = (serve os range now addrs find recovered r n).0 in
        (m ≡ n)
        ⊎ ((param : String) × (find routes r.method r.path ≡ Found.handler Endpoint.upload param)
            × (m ≡ record n { file_sync = record n.file_sync { files = m.file_sync.files } })
            × ((q : String)
                → file_of r.form.path ≢ file_of q
                → os.read_file q m.file_sync.files ≡ os.read_file q n.file_sync.files))
  unfolding serve handle uploading
  serve-changes find recovered r n = elim (Bool-cases (passes_cors r.method)) [
    | inr e ↦ inl (rw e refl)
    | inl e ↦ elim (Found-cases (find routes r.method r.path)) [
      | inr (response, found) ↦ inl (rw (e, found) refl)
      | inl (endpoint, param, found) ↦ elim (handle-cases os range now addrs endpoint param r n) [
        | inr (o, tells) ↦ inl (rw (e, found) (rw tells (telling-same n o _)))
        | inl is_upload ↦ inr (
          param,
          found ∙ ap (λ (k : Endpoint). Found.handler k param) is_upload,
          rw (e, found, is_upload) refl,
          λ q other. rw (e, found, is_upload) (uploading-others r.form n q other),
        )
      ]
    ]
  ]
