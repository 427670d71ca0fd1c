-- ===== src/P2pCluster/Announcing.antt =====
-- internal/p2p/cluster.go, `periodicTasks`: what the loop does.
use syncmesh.Common.{
  ◌≡◌, refl, ◌⊎◌, inl, inr, ◌∙◌, ap, ℕ, suc, ◌+◌, ◌≤◌, String, Bool, some, List, [], ◌∷◌, length,
  Map, Time, arith, Bool-cases,
}
use syncmesh.Json.{Json}
use syncmesh.Config.{P2pClusterConfig}
use syncmesh.P2pCluster.State.{ClusterMessage, ClusterProtocol}
use syncmesh.P2pCluster.Messages.{
  cluster_message, publish_cluster_message, start_leader_election, send_heartbeat,
  check_leader_health,
}
use syncmesh.P2pCluster.Elections.{HasActiveLeader, check_leader_health-cases}
use syncmesh.P2pCluster.Periodic.{Moment, periodic_from, periodic_tasks}

-- A heartbeat, or, if no active leader is known, an election; either names the leader that the node
-- knows.
abbrev pub Announces : ClusterProtocol → ClusterMessage → Type 0
Announces c msg =
    (msg.leader_id ≡ c.cluster_state.leader)
    × ((msg.type ≡ "heartbeat") ⊎ (msg.type ≡ "leader_election") × (¬ HasActiveLeader c))

-- The published messages are those of the node with some announcements before them, newest first.
pub data Announced (c : ClusterProtocol) : List ClusterMessage → ℕ → Type 0 where
  none_yet : Announced c c.published 0
  one_more :
      {ps : List ClusterMessage} {n : ℕ} (msg : ClusterMessage)
      → Announced c ps n
      → Announces c msg
      → Announced c (msg ∷ ps) (suc n)

module _ (publish : ClusterMessage → Bool) where
  -- Publishing changes the published messages at most.
  publish-cases :
      (now : Time) (type : String) (entries : Map Json) (c : ClusterProtocol)
      → (publish_cluster_message publish now type entries c ≡ c)
        ⊎ (publish_cluster_message publish now type entries c
            ≡ record c { published = cluster_message now type entries c ∷ c.published })
  unfolding publish_cluster_message
  publish-cases now type entries c =
      elim (Bool-cases (publish (cluster_message now type entries c))) [
        | inl taken ↦ inr (rw taken refl)
        | inr lost ↦ inl (rw lost refl)
      ]

  -- What is left after some announcements.
  abbrev Quiet : ClusterProtocol → ClusterProtocol → ℕ → Type 0
  Quiet c after_it limit =
      (ps : List ClusterMessage) × (n : ℕ) × (after_it ≡ record c { published = ps })
      × Announced c ps n
      × (n ≤ limit)

  -- One tick has announced a message or none, and the rest of the loop goes on from there.
  more :
      (moments : List Moment) (c : ClusterProtocol) (ps : List ClusterMessage) (n : ℕ)
      → Announced c ps n
      → ((qs : List ClusterMessage) (k : ℕ)
          → Announced c qs k
          → Quiet c
              (periodic_from publish moments (record c { published = qs }))
              (k + length moments))
      → (m : ClusterProtocol)
      → (m ≡ record c { published = ps })
        ⊎ ((msg : ClusterMessage) × (m ≡ record c { published = msg ∷ ps }) × Announces c msg)
      → Quiet c (periodic_from publish moments m) (n + suc (length moments))
  more moments c ps n a rest m (inl same) =
      let (qs, k, e, b, few) = rest ps n a in
      (
        qs,
        k,
        ap (λ (x : ClusterProtocol). periodic_from publish moments x) same ∙ e,
        b,
        omega (arith, few),
      )
  more moments c ps n a rest m (inr (msg, same, good)) =
      let (qs, k, e, b, few) = rest (msg ∷ ps) (suc n) (Announced.one_more msg a good) in
      (
        qs,
        k,
        ap (λ (x : ClusterProtocol). periodic_from publish moments x) same ∙ e,
        b,
        omega (arith, few),
      )

  heartbeat-cases :
      (now : Time) (c : ClusterProtocol) (ps : List ClusterMessage)
      → let m = send_heartbeat publish now (record c { published = ps }) in
        (m ≡ record c { published = ps })
        ⊎ ((msg : ClusterMessage) × (m ≡ record c { published = msg ∷ ps }) × Announces c msg)
  unfolding send_heartbeat cluster_message
  heartbeat-cases now c ps = elim (publish-cases now "heartbeat" _ (record c { published = ps })) [
    | inl same ↦ inl same
    | inr sent ↦ inr (_, sent, (refl, inl refl))
  ]

  election-cases :
      (now : Time) (c : ClusterProtocol) (ps : List ClusterMessage)
      → let m = check_leader_health publish now (record c { published = ps }) in
        (m ≡ record c { published = ps })
        ⊎ ((msg : ClusterMessage) × (m ≡ record c { published = msg ∷ ps }) × Announces c msg)
  unfolding start_leader_election cluster_message
  election-cases now c ps =
      elim (check_leader_health-cases publish now (record c { published = ps })) [
        | inl (_, same) ↦ inl same
        | inr (leaderless, elects) ↦
            elim (publish-cases now "leader_election" _ (record c { published = ps })) [
              | inl same ↦ inl (elects ∙ same)
              | inr sent ↦ inr (_, elects ∙ sent, (refl, inr (refl, leaderless)))
            ]
      ]

  periodic-Quiet :
      (moments : List Moment) (c : ClusterProtocol) (ps : List ClusterMessage) (n : ℕ)
      → Announced c ps n
      → Quiet c (periodic_from publish moments (record c { published = ps })) (n + length moments)
  unfolding periodic_from
  periodic-Quiet [] c ps n a = (ps, n, refl, a, omega arith)
  periodic-Quiet (Moment.done ∷ moments) c ps n a = (ps, n, refl, a, omega arith)
  periodic-Quiet (Moment.heartbeat_tick now ∷ moments) c ps n a =
      more moments c ps n a (periodic-Quiet moments c) _ (heartbeat-cases now c ps)
  periodic-Quiet (Moment.election_tick now ∷ moments) c ps n a =
      more moments c ps n a (periodic-Quiet moments c) _ (election-cases now c ps)

  -- If the loop does not panic, then however long it runs, the node changes nothing but what it has published, and adds at most one
  -- message for each tick: a heartbeat, or an election if it knows no active leader. Each of them names
  -- the leader that the node knew when the loop began.
  pub periodic_tasks-Announced :
      (config : P2pClusterConfig) (moments : List Moment) (c m : ClusterProtocol)
      → periodic_tasks publish config moments c ≡ some m
      → (ps : List ClusterMessage) × (n : ℕ) × (m ≡ record c { published = ps })
        × Announced c ps n
        × (n ≤ length moments)
  unfolding periodic_tasks
  periodic_tasks-Announced config moments c m e =
      let (ps, n, same, a, few) = periodic-Quiet moments c c.published 0 Announced.none_yet in
      (ps, n, ran (periodic_from publish moments c) m e ∙ same, a, omega (arith, few))
    where
      ran :
          (r m : ClusterProtocol)
          → periodic_tasks publish config moments c ≡ some m
          → m ≡ periodic_from publish moments c
      ran r m e = ground (arith, e)
