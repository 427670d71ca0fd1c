-- ===== src/Transport/Loops.antt =====
-- internal/p2p/real_pubsub.go: the loops that count the peers, and the list of their ids. `range` is the
-- order in which the loop visits the peers.
use syncmesh.Common.{ℕ, String, Bool, true, false, List, [], ◌∷◌, Map, length}
use syncmesh.Transport.State.{AddrInfo, Transport}

-- The context ends, or a tick finds the service as it is then.
pub data Moment : Type 0 where
  done : Moment
  tick : Transport → Moment

-- What a tick of `attemptPeerConnections` logs: the number of peers, and whether it goes on to say that
-- there is none. It makes no attempt.
unfoldable pub counted_peers : Transport → ℕ × Bool
counted_peers r = (length r.peers, elim r.peers [ [] ↦ true | _ ∷ _ ↦ false ])

unfoldable pub attempt_peer_connections : List Moment → List (ℕ × Bool)
attempt_peer_connections [] = []
attempt_peer_connections (Moment.done ∷ moments) = []
attempt_peer_connections (Moment.tick r ∷ moments) =
    counted_peers r ∷ attempt_peer_connections moments

-- `monitorPeers` logs the number.
unfoldable pub monitor_peers : List Moment → List ℕ
monitor_peers [] = []
monitor_peers (Moment.done ∷ moments) = []
monitor_peers (Moment.tick r ∷ moments) = length r.peers ∷ monitor_peers moments

-- The loop of `GetPeers`.
unfoldable pub peer_list : Map AddrInfo → List String
peer_list [] = []
peer_list ((id, pi) ∷ peers) = id ∷ peer_list peers

unfoldable pub get_peers : (Map AddrInfo → Map AddrInfo) → Transport → List String
get_peers range r = peer_list (range r.peers)
