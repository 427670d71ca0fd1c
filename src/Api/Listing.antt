-- ===== src/Api/Listing.antt =====
-- pkg/api/handler.go, `getNodes`: which nodes it lists.
use syncmesh.Common.{
  ◌≡◌, ◌≢◌, ◌⊎◌, ◌↔◌, ◌∙◌, refl, sym, ap, inl, inr, String, true, some, none, List, [], ◌∷◌, ◌==◌,
  Time, Map, length, Enumerates, HasDistinctKeys, Among, lookup, insert, lookup-insert, lookup_self,
  arith, eq_iff, eq_refl, text_cases, Option-cases,
}
use syncmesh.P2pCluster.State.{PeerState}
use syncmesh.P2pNode.State.{P2pNode}
use syncmesh.P2pNode.Peers.{lookup-peer_views}
use syncmesh.P2pNode.Views.{NodeView, Metadata, get_nodes, self_view, peer_view, peer_views}
use syncmesh.Api.State.{Body, answer}
use syncmesh.Api.Nodes.{listed, api_nodes}

-- What is told of the node itself.
abbrev pub IsSelf : Time → List String → String → NodeView → Type 0
IsSelf now addrs id v = v ≡ record {
  id = id;
  addresses = addrs;
  status = "active";
  last_seen = now;
  metadata = Metadata.of_texts (("self", "true") ∷ []);
}

-- What is told of a peer.
abbrev pub Describes : String → PeerState → NodeView → Type 0
Describes k state v = v ≡ record {
  id = k;
  addresses = state.addresses;
  status = state.status;
  last_seen = state.last_seen;
  metadata = Metadata.of_values state.metadata;
}

-- It is told of the node itself or of a peer that it knows under another id.
abbrev pub IsTold : {Fs : Type 0} → Time → List String → String → P2pNode Fs → NodeView → Type 0
IsTold now addrs id n v =
    IsSelf now addrs id v
    ⊎ ((k : String) × (state : PeerState) × (id ≢ k)
        × (lookup k n.cluster_sync.peer_states ≡ some state)
        × Describes k state v)

-- No id stands twice in the list.
abbrev pub HasDistinctIds : List NodeView → Type 0
HasDistinctIds [] = Unit
HasDistinctIds (v ∷ vs) = ((w : NodeView) → Among w vs → v.id ≢ w.id) × HasDistinctIds vs

-- A view of the map, under its key.
abbrev StandsIn : Map NodeView → NodeView → Type 0
StandsIn views v =
    (k : String) × (view : NodeView) × (lookup k views ≡ some view) × (v ≡ record view { id = k })

listed_iff :
    (views : Map NodeView) (v : NodeView)
    → HasDistinctKeys views
    → Among v (listed views) ↔ StandsIn views v
unfolding listed lookup
listed_iff [] v d = (λ h. absurd h, λ (k, view, found, _). ground (arith, found))
listed_iff ((j, w) ∷ views) v (fresh, d) =
    let (to, from) = listed_iff views v d in
    (
      λ h. elim h [
        | inl same ↦ (j, w, rw (eq_refl j) refl, same)
        | inr later ↦ let (k, view, found, same) = to later in (k, view, older k view found, same)
      ],
      λ (k, view, found, same). elim (text_cases j k) [
        | inl (t, e) ↦ inl (same ∙ ap2 k view e (first k view t found))
        | inr (t, _) ↦ inr (from (k, view, rw t at found, same))
      ],
    )
  where
    older :
        (k : String) (view : NodeView)
        → lookup k views ≡ some view
        → lookup k ((j, w) ∷ views) ≡ some view
    older k view found = ground (arith, eq_iff j k)

    first :
        (k : String) (view : NodeView)
        → (j == k) ≡ true
        → lookup k ((j, w) ∷ views) ≡ some view
        → w ≡ view
    first k view t found = ground arith

    ap2 :
        (k : String) (view : NodeView)
        → j ≡ k
        → w ≡ view
        → (record view { id = k }) ≡ (record w { id = j })
    ap2 k view e same = rw (e, same) refl

listed-HasDistinctIds :
    (views : Map NodeView) → HasDistinctKeys views → HasDistinctIds (listed views)
unfolding listed
listed-HasDistinctIds [] d = tt
listed-HasDistinctIds ((j, w) ∷ views) (fresh, d) = (
  λ v later same.
      let (k, view, found, its) = (listed_iff views v d).0 later in
      ground (arith, fresh, found, same ∙ ap (λ (u : NodeView). u.id) its),
  listed-HasDistinctIds views d,
)

-- The map that is made of the node and its peers.
insert-IsTold :
    {Fs : Type 0} (now : Time) (addrs : List String) (id : String) (n : P2pNode Fs) (v : NodeView)
    → StandsIn (insert id (self_view now addrs id) (peer_views n.cluster_sync.peer_states)) v
      ↔ IsTold now addrs id n v
unfolding self_view peer_view
insert-IsTold now addrs id n v = (
  λ (k, view, found, same). elim (text_cases id k) [
    | inl (t, e) ↦ inl (same ∙ own k view e found)
    | inr (t, other) ↦ elim (Option-cases (lookup k n.cluster_sync.peer_states)) [
      | inl missing ↦ absurd (lost k view other missing found)
      | inr (state, there) ↦
          inr (k, state, other, there, same ∙ known k state view other there found)
    ]
  ],
  λ told. elim told [
    | inl same ↦ (id, self_view now addrs id, lookup_self id (self_view now addrs id) _, same)
    | inr (k, state, other, there, same) ↦ (k, peer_view k state, peer k state other there, same)
  ],
)
  where
    peers : Map NodeView
    peers = peer_views n.cluster_sync.peer_states

    own :
        (k : String) (view : NodeView)
        → id ≡ k
        → lookup k (insert id (self_view now addrs id) peers) ≡ some view
        → (record view { id = k }) ≡ self_view now addrs id
    own k view e found =
        let its : view ≡ self_view now addrs id =
          ground
            (arith, eq_iff id k, lookup-insert id k (self_view now addrs id) peers, e, found) in
        rw (its, sym e) refl

    lost :
        (k : String) (view : NodeView)
        → id ≢ k
        → lookup k n.cluster_sync.peer_states ≡ none
        → lookup k (insert id (self_view now addrs id) peers) ≡ some view
        → ⊥
    lost k view other missing found = ground (
      arith,
      eq_iff id k,
      lookup-insert id k (self_view now addrs id) peers,
      lookup-peer_views k n.cluster_sync.peer_states,
    )

    peer :
        (k : String) (state : PeerState)
        → id ≢ k
        → lookup k n.cluster_sync.peer_states ≡ some state
        → lookup k (insert id (self_view now addrs id) peers) ≡ some (peer_view k state)
    peer k state other there = ground (
      arith,
      eq_iff id k,
      lookup-insert id k (self_view now addrs id) peers,
      lookup-peer_views k n.cluster_sync.peer_states,
    )

    known :
        (k : String) (state : PeerState) (view : NodeView)
        → id ≢ k
        → lookup k n.cluster_sync.peer_states ≡ some state
        → lookup k (insert id (self_view now addrs id) peers) ≡ some view
        → (record view { id = k }) ≡ peer_view k state
    known k state view other there found =
        let its : view ≡ peer_view k state = ground (arith, peer k state other there, found) in
        rw its refl

-- A node that has a host answers, in whatever order the loop visits the nodes, with a list and its
-- length. The list tells of the node itself, as active and seen now, and of each peer that it knows
-- under another id, with the peer's id, addresses, status, time and metadata, and of nothing else, and
-- each id stands in it once.
pub api_nodes-IsTold :
    {Fs : Type 0} (range : Map NodeView → Map NodeView)
    → ((m : Map NodeView) → Enumerates (range m) m)
    → (now : Time) (addrs : List String) (id : String) (n : P2pNode Fs)
    → n.transport.host_id ≡ some id
    → (xs : List NodeView) × (api_nodes range now addrs n
        ≡ some (answer (Body.node_list xs (length xs))))
      × HasDistinctIds xs
      × ((v : NodeView) → Among v xs ↔ IsTold now addrs id n v)
unfolding api_nodes get_nodes
api_nodes-IsTold range orders now addrs id n hosted =
    let views = insert id (self_view now addrs id) (peer_views n.cluster_sync.peer_states) in
    let (d, same) = orders views in
    (
      listed (range views),
      rw hosted refl,
      listed-HasDistinctIds (range views) d,
      λ v.
          let (to, from) = listed_iff (range views) v d in
          let (told, standing) = insert-IsTold now addrs id n v in
          (
            λ h. let (k, view, found, its) = to h in told (k, view, sym (same k) ∙ found, its),
            λ h. let (k, view, found, its) = standing h in from (k, view, same k ∙ found, its),
          ),
    )
