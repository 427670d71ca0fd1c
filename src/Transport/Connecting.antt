-- ===== src/Transport/Connecting.antt =====
-- internal/p2p/real_pubsub.go: connecting to the peers that mDNS finds. `connect` is libp2p's Connect,
-- by the number of the attempt.
use syncmesh.Common.{
  ◌≡◌, ℕ, suc, zero, ◌+◌, ◌≤◌, ltb, String, Bool, true, false, ◌||◌, some, lookup, insert, contains,
  lookup-insert, arith, if◌then◌else◌, ◌==◌,
}
use syncmesh.Transport.State.{AddrInfo, Transport}

abbrev pub max_retries : ℕ
max_retries = 3

-- `HandlePeerFound` with the host's id: whether a goroutine is spawned that connects to the peer.
unfoldable pub handle_peer_found : String → AddrInfo → Transport → Bool
handle_peer_found id pi r =
    if pi.id == id then false else if contains pi.id r.peers then false else true

module _ (connect : ℕ → Bool) (pi : AddrInfo) where
  -- The loop of `connectToPeer` from an attempt on, with the number of attempts left.
  unfoldable pub connect_from : ℕ → ℕ → Transport → Transport
  connect_from zero attempt r = r
  connect_from (suc left) attempt r =
      let tried = record r { attempts = r.attempts + 1 } in
      let rest = connect_from left (attempt + 1) (record tried { slept = tried.slept + attempt }) in
      if connect attempt
      then record tried { peers = insert pi.id pi tried.peers }
      else if ltb attempt max_retries
      then rest
      else tried

  -- `connectToPeer`.
  unfoldable pub connect_to_peer : Transport → Transport
  connect_to_peer r = connect_from max_retries 1 r

  -- Connecting ends after at most three attempts and three seconds of sleep, and then the peer is in
  -- the table exactly if it was before or one of the three attempts succeeds; no other entry changes.
  pub connect_to_peer-bounds :
      (r : Transport)
      → let after_it = connect_to_peer r in
        (after_it.attempts ≤ r.attempts + 3)
        × (after_it.slept ≤ r.slept + 3)
        × ((k : String)
            → lookup k after_it.peers ≡ (
                if connect 1 || connect 2 || connect 3
                then if pi.id == k then some pi else lookup k r.peers
                else lookup k r.peers))
  unfolding connect_to_peer connect_from
  connect_to_peer-bounds r =
      (ground arith, ground arith, λ k. ground (arith, lookup-insert pi.id k pi r.peers))
