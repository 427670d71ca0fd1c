-- ===== src/Discovery/Table.antt =====
-- internal/p2p/discovery.go: the table of discovered peers after any sequence of calls.
use mathlib.Core.Option
use syncmesh.Common.{
  ◌≡◌, refl, ◌∙◌, String, Bool, true, false, Option, none, some, List, [], ◌∷◌, Time, Map, lookup,
  lookup-insert, lookup-erase, lookup-modify, if◌then◌else◌, arith, ◌==◌, ap,
}
use syncmesh.P2pCluster.State.{PeerState, ClusterProtocol}
use syncmesh.Transport.State.{AddrInfo}
use syncmesh.Discovery.{
  Discovery, new_discovery, start_discovery, stop_discovery, discovered_peer, add_peer,
  update_discovered_status, remove_peer,
}

-- A call of the protocol's methods.
pub data Call : Type 0 where
  adds : Time → AddrInfo → Call
  updates : Time → String → String → Call
  removes : String → Call
  starts : Bool → Call
  stops : Call

abbrev pub apply_call : Call → Discovery × ClusterProtocol → Discovery × ClusterProtocol
apply_call (Call.adds now pi) (d, c) = (add_peer now pi d, c)
apply_call (Call.updates now peer_id status) (d, c) =
    (update_discovered_status now peer_id status d, c)
apply_call (Call.removes peer_id) (d, c) = remove_peer peer_id d c
apply_call (Call.starts mdns_starts) (d, c) = ((start_discovery mdns_starts d).0, c)
apply_call Call.stops (d, c) = (stop_discovery d, c)

-- The calls, newest first.
abbrev pub after_calls : List Call → Discovery × ClusterProtocol → Discovery × ClusterProtocol
after_calls [] s = s
after_calls (call ∷ earlier) s = apply_call call (after_calls earlier s)

-- What the calls say of one peer: the last time that it was found, unless it was removed since, with
-- the last status that it was given after that.
abbrev pub told : String → List Call → Option PeerState
told k [] = none
told k (Call.adds now pi ∷ earlier) =
    if pi.id == k then some (discovered_peer now pi) else told k earlier
told k (Call.updates now peer_id status ∷ earlier) =
    if peer_id == k
    then Option.map (λ (s : PeerState). record s { status = status; last_seen = now })
        (told k earlier)
    else told k earlier
told k (Call.removes peer_id ∷ earlier) = if peer_id == k then none else told k earlier
told k (_ ∷ earlier) = told k earlier

-- The peer was removed by one of the calls.
abbrev pub is_removed : String → List Call → Bool
is_removed k [] = false
is_removed k (Call.removes peer_id ∷ earlier) =
    let before = is_removed k earlier in if peer_id == k then true else before
is_removed k (_ ∷ earlier) = is_removed k earlier

start_discovery-same :
    (mdns_starts : Bool) (d : Discovery)
    → (start_discovery mdns_starts d).0.discovered_peers ≡ d.discovered_peers
unfolding start_discovery
start_discovery-same mdns_starts d = ground arith

stop_discovery-same : (d : Discovery) → (stop_discovery d).discovered_peers ≡ d.discovered_peers
unfolding stop_discovery
stop_discovery-same d = ground arith

-- After any calls on a new protocol, the table has exactly what the calls say of each peer. A peer that
-- was removed is gone from the node's peers and from the cluster's, found again or not, and every other
-- peer stands there as before.
pub after_calls-lookup :
    (calls : List Call) (c : ClusterProtocol) (k : String)
    → let (d, after_it) = after_calls calls (new_discovery, c) in
      (lookup k d.discovered_peers ≡ told k calls)
      × (lookup k after_it.peer_states
          ≡ (if is_removed k calls then none else lookup k c.peer_states))
      × (lookup k after_it.cluster_state.peers
          ≡ (if is_removed k calls then none else lookup k c.cluster_state.peers))
unfolding new_discovery add_peer update_discovered_status remove_peer lookup
after_calls-lookup [] c k = (refl, refl, refl)
after_calls-lookup (Call.adds now pi ∷ earlier) c k =
    let (table, peers, cluster) = after_calls-lookup earlier c k in
    let (d, m) = after_calls earlier (new_discovery, c) in
    (
      lookup-insert pi.id k (discovered_peer now pi) d.discovered_peers ∙ rw table refl,
      peers,
      cluster,
    )
after_calls-lookup (Call.updates now peer_id status ∷ earlier) c k =
    let (table, peers, cluster) = after_calls-lookup earlier c k in
    let (d, m) = after_calls earlier (new_discovery, c) in
    (lookup-modify peer_id k _ d.discovered_peers ∙ rw table refl, peers, cluster)
after_calls-lookup (Call.removes peer_id ∷ earlier) c k =
    let (table, peers, cluster) = after_calls-lookup earlier c k in
    let (d, m) = after_calls earlier (new_discovery, c) in
    (
      lookup-erase peer_id k d.discovered_peers ∙ rw table refl,
      lookup-erase peer_id k m.peer_states ∙ ground (arith, peers),
      lookup-erase peer_id k m.cluster_state.peers ∙ ground (arith, cluster),
    )
after_calls-lookup (Call.starts mdns_starts ∷ earlier) c k =
    let (table, peers, cluster) = after_calls-lookup earlier c k in
    let (d, m) = after_calls earlier (new_discovery, c) in
    (
      ap (λ (x : Map PeerState). lookup k x) (start_discovery-same mdns_starts d) ∙ table,
      peers,
      cluster,
    )
after_calls-lookup (Call.stops ∷ earlier) c k =
    let (table, peers, cluster) = after_calls-lookup earlier c k in
    let (d, m) = after_calls earlier (new_discovery, c) in
    (ap (λ (x : Map PeerState). lookup k x) (stop_discovery-same d) ∙ table, peers, cluster)
