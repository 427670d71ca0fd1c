-- ===== src/Witnesses/Nodes.antt =====
-- Tests of a node, its connections and its subscriptions.
use syncmesh.Common.{
  List, ◌≡◌, refl, ◌≤◌, ◌+◌, ℕ, zero, suc, String, Bool, true, false, none, some, [], ◌∷◌, ◌||◌,
  ◌==◌, pos, Map, lookup, Time, elapsed, seconds_before, if◌then◌else◌,
}
use syncmesh.FileSync.State.{Bytes}
use syncmesh.P2pCluster.State.{PeerState, new_cluster_protocol}
use syncmesh.Transport.State.{AddrInfo, new_transport}
use syncmesh.Transport.Connecting.{connect_to_peer, connect_to_peer-bounds}
use syncmesh.MockTopics.State.{MockSubscription, Next, offer}
use syncmesh.MockTopics.Buffering.{Run, Move, Moves, Refines, fresh, Moves-Refines}
use syncmesh.Discovery.{new_discovery}
use syncmesh.P2pNode.State.{P2pNode, new_node, start_node, stop_node}
use syncmesh.P2pNode.Health.{periodic_tick, two_minutes, periodic_tick-lookup}
use syncmesh.P2pCluster.Messages.{check_leader_health, handle_messages_tick}
use syncmesh.P2pNode.Isolation.{IsAlone, NodeEvent, Lives, new_node-IsAlone}
use syncmesh.Discovery.Table.{Call, after_calls, after_calls-lookup}
use syncmesh.P2pNode.Stopping.{NodeStep, Becomes, new_node_starts, running_node_cannot_stop}
use syncmesh.Witnesses.Peers.{peer_a, second_time}

abbrev found : AddrInfo
found = record { id = "b"; addrs = [] }

-- The second attempt succeeds.
abbrev second_try : ℕ → Bool
second_try attempt = elim attempt [ suc (suc zero) ↦ true | _ ↦ false ]

connect_to_peer-bounds_example :
    let after_it = connect_to_peer second_try found new_transport in
    (after_it.attempts ≤ new_transport.attempts + 3)
    × (after_it.slept ≤ new_transport.slept + 3)
    × ((k : String)
        → lookup k after_it.peers ≡ (
            if second_try 1 || second_try 2 || second_try 3
            then if "b" == k then some found else lookup k new_transport.peers
            else lookup k new_transport.peers))
connect_to_peer-bounds_example = connect_to_peer-bounds second_try found new_transport

-- Two messages are published and one is taken.
abbrev message : ℕ → Bytes
message n = n ∷ []

abbrev after_two : MockSubscription
after_two = record { cancelled = false; channel = message 1 ∷ message 2 ∷ [] }

abbrev after_one : MockSubscription
after_one = record { cancelled = false; channel = message 2 ∷ [] }

abbrev taken_run : Run
taken_run = record {
  sub = after_one;
  taken = message 1 ∷ [];
  published = message 1 ∷ message 2 ∷ [];
}

two_and_one : Moves fresh taken_run
unfolding offer
two_and_one =
    Moves.next
      (Moves.next (Moves.next Moves.start (Move.publishes (message 1)))
        (Move.publishes (message 2)))
      (Move.takes false (message 1) after_one (Next.by_message (message 1) (message 2 ∷ []) refl))

Moves-Refines_example : Refines taken_run
Moves-Refines_example = Moves-Refines two_and_one

abbrev known_peer : PeerState
known_peer = record {
  id = "b";
  addresses = [];
  status = "inactive";
  last_seen = pos 1;
  metadata = [];
}

abbrev pub node : P2pNode (Map Bytes)
node = record {
  host = none;
  transport = record new_transport { host_id = some "a" };
  file_sync = peer_a;
  cluster_sync = record (new_cluster_protocol "a") { peer_states = ("b", known_peer) ∷ [] };
  discovery = new_discovery;
  running = false;
}

abbrev pub clock : String → Time
clock k = second_time

periodic_tick-lookup_example :
    lookup "b" (periodic_tick clock clock second_time node).cluster_sync.peer_states
    ≡ some (record known_peer { last_seen = second_time; status = "active" })
unfolding lookup new_cluster_protocol two_minutes elapsed seconds_before
periodic_tick-lookup_example =
    periodic_tick-lookup clock clock second_time node (λ k. refl) (λ k. refl) "b"

abbrev fresh_node : P2pNode (Map Bytes)
fresh_node = new_node "a" peer_a.config []

abbrev started_node : P2pNode (Map Bytes)
started_node = (start_node (some "a") true true true true fresh_node).0

running_node_cannot_stop_example : stop_node started_node ≡ none
running_node_cannot_stop_example =
    running_node_cannot_stop "a" peer_a.config [] started_node
      (Becomes.next Becomes.same (NodeStep.starts (some "a") true true true true))
      (new_node_starts "a" "a" true peer_a.config []).1

-- The node is started, hears its own heartbeat, announces an election and checks its peers.
new_node-IsAlone_example :
    let c =
      check_leader_health
        (λ msg. true)
        second_time
        (handle_messages_tick (λ msg. true) second_time started_node.cluster_sync) in
    IsAlone "a"
      (periodic_tick clock clock second_time
        (record started_node { cluster_sync = c })).cluster_sync
new_node-IsAlone_example =
    new_node-IsAlone (λ msg. true) "a" peer_a.config [] _
      (Lives.next
        (Lives.next
          (Lives.next (Lives.next Lives.fresh (NodeEvent.starts (some "a") true true true true))
            (NodeEvent.hears_itself second_time))
          (NodeEvent.checks_leader second_time))
        (NodeEvent.ticks clock clock second_time))

-- "b" is found and removed, and "c" is found and becomes inactive.
abbrev calls : List Call
calls =
    Call.updates second_time "c" "inactive"
    ∷ Call.adds second_time (record { id = "c"; addrs = [] })
    ∷ Call.removes "b"
    ∷ Call.adds second_time found
    ∷ []

after_calls-lookup_example :
    let (d, after_it) = after_calls calls (new_discovery, node.cluster_sync) in
    (lookup "b" d.discovered_peers ≡ none)
    × (lookup "b" after_it.peer_states ≡ none)
    × (lookup "b" after_it.cluster_state.peers ≡ none)
after_calls-lookup_example = after_calls-lookup calls node.cluster_sync "b"
