-- ===== src/Cluster/Agreement.antt =====
-- internal/cluster/manager.go, `startLeaderElection`: the winner, that it depends on no order, and
-- that nodes with the same candidates elect the same.
use syncmesh.Common.{
  ◌≡◌, sym, ◌∙◌, ◌↔◌, inl, inr, String, false, Map, Enumerates, str_lt, str_lt_antisymm, ap,
  if◌then◌else◌, ◌==◌,
}
use syncmesh.Cluster.State.{Node, Manager, get_active_nodes}
use syncmesh.Cluster.Leadership.{become_leader, set_leader, start_leader_election}
use syncmesh.Cluster.WellFormed.{IsKeyed, WellFormed}
use syncmesh.Cluster.Elections.{
  IsActive, IsCandidate, elected, elected_leader, elect_among_lem, active-Among, Among-IsActive,
  min_node_id-Among, min_node_id-le, min_node_id-le_all, visited-IsKeyed,
}

IsActive-visited :
    (visited nodes : Map Node) (id : String)
    → Enumerates visited nodes
    → IsActive nodes id
    → IsActive visited id
IsActive-visited visited nodes id e (n, found, s) = (n, e.1 id ∙ found, s)

IsActive-original :
    (visited nodes : Map Node) (id : String)
    → Enumerates visited nodes
    → IsActive visited id
    → IsActive nodes id
IsActive-original visited nodes id e (n, found, s) = (n, sym (e.1 id) ∙ found, s)

module _ (visited : Map Node) (m : Manager) (v : WellFormed m)
    (e : Enumerates visited m.nodes) where
  keyed : IsKeyed visited
  keyed = visited-IsKeyed visited m.nodes e v.nodes_keyed

  elected-IsCandidate : IsCandidate m (elected visited m)
  unfolding elected
  elected-IsCandidate = elim (min_node_id-Among m.node_id (get_active_nodes visited)) [
    | inl own ↦ inl own
    | inr h ↦ inr (IsActive-original visited m.nodes _ e (Among-IsActive visited _ keyed h))
  ]

  elected-le : (id : String) → IsCandidate m id → str_lt id (elected visited m) ≡ false
  unfolding elected
  elected-le id (inl own) = rw own (min_node_id-le m.node_id (get_active_nodes visited))
  elected-le id (inr active) =
      min_node_id-le_all m.node_id (get_active_nodes visited) id
        (active-Among visited id keyed (IsActive-visited visited m.nodes id e active))

-- In whatever order the map of a well-formed manager is visited, the leader after an election is this
-- node or a node that is marked active, and no such node has a lower id.
pub elected-least :
    (visited : Map Node) (m : Manager)
    → WellFormed m
    → Enumerates visited m.nodes
    → let leader = (start_leader_election visited m).leader_id in
      IsCandidate m leader × ((id : String) → IsCandidate m id → str_lt id leader ≡ false)
elected-least visited m v e =
    rw (elected_leader visited m) (elected-IsCandidate visited m v e, elected-le visited m v e)

-- Two well-formed managers that have the same candidates elect the same leader, in whatever orders they visit
-- their maps.
pub elections_agree :
    (visited₁ visited₂ : Map Node) (m₁ m₂ : Manager)
    → WellFormed m₁
    → WellFormed m₂
    → Enumerates visited₁ m₁.nodes
    → Enumerates visited₂ m₂.nodes
    → ((id : String) → IsCandidate m₁ id ↔ IsCandidate m₂ id)
    → (start_leader_election visited₁ m₁).leader_id ≡ (start_leader_election visited₂ m₂).leader_id
elections_agree visited₁ visited₂ m₁ m₂ v₁ v₂ e₁ e₂ same =
    rw (elected_leader visited₁ m₁, elected_leader visited₂ m₂)
      (str_lt_antisymm _ _
        (elected-le visited₂ m₂ v₂ e₂ _ ((same _).0 (elected-IsCandidate visited₁ m₁ v₁ e₁)))
        (elected-le visited₁ m₁ v₁ e₁ _ ((same _).1 (elected-IsCandidate visited₂ m₂ v₂ e₂))))

-- The whole state of a well-formed manager after an election is the same for any two orders of
-- visiting its map.
pub election_order :
    (visited₁ visited₂ : Map Node) (m : Manager)
    → WellFormed m
    → Enumerates visited₁ m.nodes
    → Enumerates visited₂ m.nodes
    → start_leader_election visited₁ m ≡ start_leader_election visited₂ m
unfolding start_leader_election elected
election_order visited₁ visited₂ m v e₁ e₂ =
    elect_among_lem (get_active_nodes visited₁) m
    ∙ ap (λ id. if id == m.node_id then become_leader m else set_leader id m) same
    ∙ sym (elect_among_lem (get_active_nodes visited₂) m)
  where
    same : elected visited₁ m ≡ elected visited₂ m
    same =
        str_lt_antisymm _ _ (elected-le visited₂ m v e₂ _ (elected-IsCandidate visited₁ m v e₁))
          (elected-le visited₁ m v e₁ _ (elected-IsCandidate visited₂ m v e₂))
