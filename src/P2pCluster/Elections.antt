-- ===== src/P2pCluster/Elections.antt =====
-- internal/p2p/cluster.go: when an election is announced, and what it changes.
use syncmesh.Common.{
  ◌≡◌, refl, ◌≢◌, ◌⊎◌, ◌∙◌, ap, inl, inr, String, Bool, true, false, Option, none, some, ◌∷◌, ◌==◌,
  text_cases, Time, Map, lookup, lookup-insert, lookup-erase, erase, ◌||◌, arith, if◌then◌else◌,
  if_elim, Option-cases,
}
use syncmesh.Json.{Json}
use syncmesh.P2pCluster.State.{ClusterMessage, PeerState, ClusterProtocol}
use syncmesh.P2pCluster.Messages.{
  cluster_message, election_entries, active_peer, handle_heartbeat, handle_peer_join,
  handle_leader_election, publish_cluster_message, start_leader_election, check_leader_health,
  handle_peer_leave, process_cluster_message,
}

-- The leader is known, and its last known status is active.
abbrev pub HasActiveLeader : ClusterProtocol → Type 0
HasActiveLeader c =
    (c.cluster_state.leader ≢ "")
    × ((state : PeerState) × (lookup c.cluster_state.leader c.peer_states ≡ some state)
        × (state.status ≡ "active"))

if_same : {A : Type 0} (b : Bool) (x : A) → x ≡ (if b then x else x)
if_same true x = refl
if_same false x = refl

same_status :
    (o : Option PeerState) (a b : PeerState)
    → o ≡ some a
    → o ≡ some b
    → a.status ≡ "active"
    → b.status ≡ "active"
same_status o a b e f h = ground arith

module _ (publish : ClusterMessage → Bool) where
  publishes :
      (now : Time) (type : String) (entries : Map Json) (c : ClusterProtocol)
      → publish (cluster_message now type entries c) ≡ true
      → publish_cluster_message publish now type entries c
        ≡ record c { published = cluster_message now type entries c ∷ c.published }
  unfolding publish_cluster_message
  publishes now type entries c taken = rw taken refl

  -- The check of the leader's health changes nothing if an active leader is known. Otherwise it is
  -- the announcement of an election.
  pub check_leader_health-cases :
      (now : Time) (c : ClusterProtocol)
      → HasActiveLeader c × (check_leader_health publish now c ≡ c)
        ⊎ (¬ HasActiveLeader c)
          × (check_leader_health publish now c ≡ start_leader_election publish now c)
  unfolding check_leader_health
  check_leader_health-cases now c = elim (text_cases c.cluster_state.leader "") [
    | inl (t, unknown) ↦ inr (λ h. h.0 unknown, rw t refl)
    | inr (t, known) ↦ elim (Option-cases (lookup c.cluster_state.leader c.peer_states)) [
      | inl e ↦ inr (λ h. let (_, (_, found, _)) = h in ground arith, rw (t, e) refl)
      | inr (state, e) ↦ elim (text_cases state.status "active") [
        | inl (u, active) ↦ inl ((known, (state, e, active)), rw t (rw (e, u) refl))
        | inr (u, inactive) ↦ inr (
          λ h.
              let (_, (other, found, active)) = h in
              inactive (same_status _ other state found e active),
          rw t (rw (e, u) refl),
        )
      ]
    ]
  ]

  -- An announcement of an election that the service takes names the leader that the announcing peer
  -- has already: that peer keeps its leader, and any peer that reads the message takes over the same.
  pub election_keeps_leader :
      (now later : Time) (c d : ClusterProtocol)
      → publish (cluster_message now "leader_election" (election_entries c) c) ≡ true
      → (msg : ClusterMessage) × ((start_leader_election publish now c).published
          ≡ msg ∷ c.published)
        × ((start_leader_election publish now c).cluster_state.leader ≡ c.cluster_state.leader)
        × ((process_cluster_message publish later msg d).cluster_state.leader
            ≡ c.cluster_state.leader)
  unfolding start_leader_election process_cluster_message handle_leader_election cluster_message
  election_keeps_leader now later c d taken =
      rw (publishes now "leader_election" (election_entries c) c taken)
        (cluster_message now "leader_election" (election_entries c) c, refl, refl, refl)

  start_leader_election-peer_states :
      (now : Time) (c : ClusterProtocol)
      → (start_leader_election publish now c).peer_states ≡ c.peer_states
  unfolding start_leader_election publish_cluster_message
  start_leader_election-peer_states now c =
      if_elim (λ (r : ClusterProtocol). r.peer_states ≡ c.peer_states)
        (publish (cluster_message now "leader_election" (election_entries c) c)) _ _ (λ _. refl)
        (λ _. refl)

  left-peer_states :
      (now : Time) (msg : ClusterMessage) (c : ClusterProtocol)
      → (handle_peer_leave publish now msg c).peer_states ≡ erase msg.peer_id c.peer_states
  unfolding handle_peer_leave
  left-peer_states now msg c =
      if_elim (λ (r : ClusterProtocol). r.peer_states ≡ erase msg.peer_id c.peer_states)
        (msg.peer_id == c.cluster_state.leader) _ _ (λ _. start_leader_election-peer_states now _)
        (λ _. refl)

  -- After a message, only the sender's entry in the table of peers may have changed: a heartbeat or
  -- a join makes it active as of now, a leave removes it, and any other message leaves it.
  pub process_cluster_message-lookup :
      (now : Time) (msg : ClusterMessage) (c : ClusterProtocol) (k : String)
      → lookup k (process_cluster_message publish now msg c).peer_states ≡ (
          if msg.peer_id == k
          then (if msg.type == "heartbeat" || msg.type == "peer_join"
              then some (active_peer now msg)
              else if msg.type == "peer_leave"
              then none
              else lookup k c.peer_states)
          else lookup k c.peer_states)
  unfolding process_cluster_message handle_heartbeat handle_peer_join handle_leader_election
  process_cluster_message-lookup now msg c k = elim (text_cases msg.type "heartbeat") [
    | inl (h, _) ↦ rw h (lookup-insert msg.peer_id k (active_peer now msg) c.peer_states)
    | inr (h, _) ↦ elim (text_cases msg.type "leader_election") [
      | inl (e, kind) ↦
          rw
            (
              h,
              e,
              ap (λ (t : String). t == "peer_join") kind,
              ap (λ (t : String). t == "peer_leave") kind,
            )
            (if_same (msg.peer_id == k) (lookup k c.peer_states))
      | inr (e, _) ↦ elim (text_cases msg.type "peer_join") [
        | inl (j, _) ↦
            rw (h, e, j) (lookup-insert msg.peer_id k (active_peer now msg) c.peer_states)
        | inr (j, _) ↦ elim (text_cases msg.type "peer_leave") [
          | inl (l, _) ↦
              rw (h, e, j, l)
                (ap (lookup k) (left-peer_states now msg c)
                  ∙ lookup-erase msg.peer_id k c.peer_states)
          | inr (l, _) ↦ rw (h, e, j, l) (if_same (msg.peer_id == k) (lookup k c.peer_states))
        ]
      ]
    ]
  ]
