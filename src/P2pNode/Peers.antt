-- ===== src/P2pNode/Peers.antt =====
-- internal/p2p/node.go, `GetNodes`: what stands in the map that it makes.
use mathlib.Core.Option
use syncmesh.Common.{◌≡◌, refl, String, [], ◌∷◌, Map, lookup, arith, eq_iff}
use syncmesh.P2pCluster.State.{PeerState}
use syncmesh.P2pNode.Views.{peer_view, peer_views}

pub lookup-peer_views :
    (k : String) (m : Map PeerState)
    → lookup k (peer_views m) ≡ Option.map (peer_view k) (lookup k m)
unfolding lookup peer_views
lookup-peer_views k [] = refl
lookup-peer_views k ((j, state) ∷ m) = ground (arith, eq_iff j k, lookup-peer_views k m)
