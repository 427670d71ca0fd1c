-- ===== src/Grpc/Panics.antt =====
-- pkg/grpc/server.go with internal/p2p/node.go: when telling of the cluster panics.
use syncmesh.Common.{
  ◌≡◌, refl, ◌↔◌, ◌≢◌, ◌∙◌, sym, inl, inr, String, Bool, false, Option, none, some, maybe, List, [],
  ◌∷◌, ◌==◌, Time, Map, lookup, insert, lookup-insert, HasDistinctKeys, Enumerates, arith, eq_iff,
  Option-cases, eq_refl,
}
use syncmesh.P2pCluster.State.{PeerState}
use syncmesh.P2pNode.State.{P2pNode, get_leader_id}
use syncmesh.P2pNode.Peers.{lookup-peer_views}
use syncmesh.P2pNode.Views.{NodeView, peer_view, self_view, peer_views, get_nodes}
use syncmesh.Grpc.Messages.{JoinClusterRequest, GetClusterStatusRequest}
use syncmesh.Grpc.Cluster.{as_texts, cluster_node, cluster_nodes, join_cluster, get_cluster_status}

-- Some node's metadata are no map of texts.
abbrev HasValues : Map NodeView → Type 0
HasValues views =
    (k : String) × (view : NodeView) × (lookup k views ≡ some view)
    × (as_texts view.metadata ≡ none)

-- The node knows a peer that is not itself.
abbrev pub KnowsOther : {Fs : Type 0} → String → P2pNode Fs → Type 0
KnowsOther id n =
    (k : String) × (state : PeerState) × (id ≢ k)
    × (lookup k n.cluster_sync.peer_states ≡ some state)

module _ (format : List String → String) (leads : String → Bool) where
  cluster_nodes-panics :
      (views : Map NodeView) (k : String) (view : NodeView)
      → lookup k views ≡ some view
      → as_texts view.metadata ≡ none
      → cluster_nodes format leads views ≡ none
  unfolding cluster_nodes cluster_node lookup
  cluster_nodes-panics [] k view found bad = ground arith
  cluster_nodes-panics ((id, other) ∷ views) k view found bad =
      ground (arith, eq_iff id k, cluster_nodes-panics views k view)

  panics-HasValues :
      (views : Map NodeView)
      → HasDistinctKeys views
      → cluster_nodes format leads views ≡ none
      → HasValues views
  unfolding cluster_nodes cluster_node lookup
  panics-HasValues [] d e = ground arith
  panics-HasValues ((id, other) ∷ views) (fresh, d) e =
      elim (Option-cases (as_texts other.metadata)) [
        | inl bad ↦ (id, other, rw (eq_refl id) refl, bad)
        | inr (m, good) ↦
            let (k, view, found, bad) = panics-HasValues views d (left m good) in
            (k, view, ground (arith, eq_iff id k), bad)
      ]
    where
      left :
          (m : Map String)
          → as_texts other.metadata ≡ some m
          → cluster_nodes format leads views ≡ none
      left m good = ground (arith, e, good)

-- The node's own entry is a map of texts, and every other entry is not.
insert-HasValues :
    (now : Time) (addrs : List String) (id : String) (m : Map PeerState)
    → HasValues (insert id (self_view now addrs id) (peer_views m))
      ↔ ((k : String) × (state : PeerState) × (id ≢ k) × (lookup k m ≡ some state))
unfolding self_view peer_view as_texts
insert-HasValues now addrs id m = (
  λ (k, view, found, bad). elim (Option-cases (lookup k m)) [
    | inl e ↦ absurd ground (
      arith,
      eq_iff id k,
      lookup-insert id k (self_view now addrs id) (peer_views m),
      lookup-peer_views k m,
    )
    | inr (state, e) ↦ (
      k,
      state,
      λ same.
          ground (arith, eq_iff id k, lookup-insert id k (self_view now addrs id) (peer_views m)),
      e,
    )
  ],
  λ (k, state, other, found). (
    k,
    peer_view k state,
    ground (
      arith,
      eq_iff id k,
      lookup-insert id k (self_view now addrs id) (peer_views m),
      lookup-peer_views k m,
    ),
    refl,
  ),
)

visited-HasValues :
    (visited views : Map NodeView) → Enumerates visited views → HasValues visited ↔ HasValues views
visited-HasValues visited views (d, same) = (
  λ (k, view, found, bad). (k, view, sym (same k) ∙ found, bad),
  λ (k, view, found, bad). (k, view, same k ∙ found, bad),
)

module _ (format : List String → String) (range : Map NodeView → Map NodeView)
    (orders : (m : Map NodeView) → Enumerates (range m) m) where
  cluster_nodes_iff :
      (leads : String → Bool) (now : Time) (addrs : List String) (id : String) (m : Map PeerState)
      → (cluster_nodes format leads (range (insert id (self_view now addrs id) (peer_views m)))
          ≡ none)
        ↔ ((k : String) × (state : PeerState) × (id ≢ k) × (lookup k m ≡ some state))
  cluster_nodes_iff leads now addrs id m =
      let views = insert id (self_view now addrs id) (peer_views m) in
      (
        λ e. (insert-HasValues now addrs id m).0 (
            (visited-HasValues (range views) views (orders views)).0
              (panics-HasValues format leads (range views) (orders views).0 e)),
        λ other.
            let (k, view, found, bad) =
              (visited-HasValues (range views) views (orders views)).1
                ((insert-HasValues now addrs id m).1 other) in
            cluster_nodes-panics format leads (range views) k view found bad,
      )

  answered :
      {A B K : Type 0} (o : Option A) (f : A → B)
      → (o ≡ none) ↔ K
      → (maybe o none (λ a. some (f a)) ≡ none) ↔ K
  answered none f known = (λ e. known.0 refl, λ h. refl)
  answered (some a) f known = (λ e. ground arith, λ h. absurd ground (arith, known.1 h))

  -- On a node that has a host, the calls that join the cluster and ask for its status both panic as
  -- soon as the node knows a peer other than itself, and otherwise both answer. The loops visit a map
  -- in any order.
  pub cluster_calls-panic_iff :
      {Fs : Type 0} (now : Time) (addrs : List String) (join : JoinClusterRequest)
      (ask : GetClusterStatusRequest) (id : String) (n : P2pNode Fs)
      → n.transport.host_id ≡ some id
      → ((join_cluster format range now addrs join n ≡ none) ↔ KnowsOther id n)
        × ((get_cluster_status format range now addrs ask n ≡ none) ↔ KnowsOther id n)
  unfolding join_cluster get_cluster_status get_nodes get_leader_id
  cluster_calls-panic_iff now addrs join ask id n hosted = rw hosted (
    answered _ _ (cluster_nodes_iff (λ k. false) now addrs id n.cluster_sync.peer_states),
    answered _ _ (
        cluster_nodes_iff (λ k. k == n.cluster_sync.cluster_state.leader) now addrs id
          n.cluster_sync.peer_states),
  )
