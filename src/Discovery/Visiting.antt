-- ===== src/Discovery/Visiting.antt =====
-- internal/p2p/discovery.go: the loops over the bootstrap addresses and over the discovered peers, and
-- the copies that the protocol hands out. `range` is the order in which a loop visits a map.
use syncmesh.Common.{
  ◌≡◌, refl, ◌∙◌, String, Bool, none, some, List, [], ◌∷◌, Map, lookup, insert, lookup-insert,
  Enumerates, HasDistinctKeys, if◌then◌else◌, arith, eq_iff,
}
use syncmesh.P2pCluster.State.{PeerState}
use syncmesh.Discovery.{Discovery}

-- `discoverBootstrapPeers` and the loop of `performDiscovery`: the texts that are logged, where each
-- visit finds the context cancelled or not.
unfoldable pub visited_until : List (String × Bool) → List String
visited_until [] = []
visited_until ((addr, cancelled) ∷ rest) =
    let later = visited_until rest in if cancelled then [] else addr ∷ later

-- `performDiscovery` first takes the ids of the peers.
unfoldable pub peer_ids : Map PeerState → List String
peer_ids [] = []
peer_ids ((id, state) ∷ m) = id ∷ peer_ids m

unfoldable pub with_context : (String → Bool) → List String → List (String × Bool)
with_context cancelled [] = []
with_context cancelled (id ∷ ids) = (id, cancelled id) ∷ with_context cancelled ids

unfoldable pub discover_bootstrap_peers : (String → Bool) → List String → List String
discover_bootstrap_peers cancelled addrs = visited_until (with_context cancelled addrs)

unfoldable pub perform_discovery :
    (Map PeerState → Map PeerState) → (String → Bool) → Discovery → List String
perform_discovery range cancelled d =
    visited_until (with_context cancelled (peer_ids (range d.discovered_peers)))

-- The loop of `GetDiscoveredPeers`.
unfoldable pub copied : Map PeerState → Map PeerState → Map PeerState
copied [] peers = peers
copied ((id, state) ∷ m) peers = copied m (insert id state peers)

unfoldable pub get_discovered_peers : (Map PeerState → Map PeerState) → Discovery → Map PeerState
get_discovered_peers range d = copied (range d.discovered_peers) []

lookup-copied :
    (k : String) (m peers : Map PeerState)
    → HasDistinctKeys m
    → lookup k (copied m peers) ≡ elim (lookup k m) [ none ↦ lookup k peers | some s ↦ some s ]
unfolding copied lookup
lookup-copied k [] peers d = refl
lookup-copied k ((id, state) ∷ m) peers (fresh, d) =
    lookup-copied k m (insert id state peers) d
    ∙ ground (arith, eq_iff id k, lookup-insert id k state peers)

-- In whatever order the loop visits the peers, the copy has the same peers with the same states.
pub get_discovered_peers-lookup :
    (range : Map PeerState → Map PeerState)
    → ((m : Map PeerState) → Enumerates (range m) m)
    → (d : Discovery) (k : String)
    → lookup k (get_discovered_peers range d) ≡ lookup k d.discovered_peers
unfolding get_discovered_peers lookup
get_discovered_peers-lookup range orders d k =
    let (distinct, same) = orders d.discovered_peers in
    lookup-copied k (range d.discovered_peers) [] distinct ∙ ground (arith, same k)
