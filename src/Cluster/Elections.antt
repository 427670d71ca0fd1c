-- ===== src/Cluster/Elections.antt =====
-- internal/cluster/manager.go, `startLeaderElection`: who is elected, whatever order the map is
-- visited in.
use syncmesh.Common.{
  ◌≡◌, refl, sym, ◌∙◌, ◌⊎◌, inl, inr, String, Bool, true, false, none, some, List, [], ◌∷◌, ◌==◌,
  eq_iff, eq_refl, Map, lookup, Enumerates, if◌then◌else◌, arith, str_lt, str_lt_irrefl,
  str_le_trans, str_lt_asymm,
}
use syncmesh.Cluster.State.{Node, Manager, get_active_nodes}
use syncmesh.Cluster.Leadership.{
  become_leader, set_leader, min_node_id, elect_among, start_leader_election,
}
use syncmesh.Cluster.WellFormed.{IsKeyed}

abbrev pub Among : String → List String → Type 0
Among x [] = ⊥
Among x (y ∷ ys) = (x ≡ y) ⊎ Among x ys

-- The least of a text and a list is one of them, and none of them is below it.
pub min_node_id-Among :
    (least : String) (ids : List String)
    → (min_node_id least ids ≡ least) ⊎ Among (min_node_id least ids) ids
unfolding min_node_id
min_node_id-Among least [] = inl refl
min_node_id-Among least (id ∷ ids) =
    ground (arith, min_node_id-Among (if str_lt id least then id else least) ids)

abbrev lesser : String → String → String
lesser id least = if str_lt id least then id else least

lesser-le :
    (id least : String)
    → (str_lt least (lesser id least) ≡ false) × (str_lt id (lesser id least) ≡ false)
lesser-le id least = ground (arith, str_lt_asymm id least, str_lt_irrefl id, str_lt_irrefl least)

pub min_node_id-le :
    (least : String) (ids : List String) → str_lt least (min_node_id least ids) ≡ false
unfolding min_node_id
min_node_id-le least [] = str_lt_irrefl least
min_node_id-le least (id ∷ ids) =
    str_le_trans _ (lesser id least) least (min_node_id-le (lesser id least) ids)
      (lesser-le id least).0

pub min_node_id-le_all :
    (least : String) (ids : List String) (x : String)
    → Among x ids
    → str_lt x (min_node_id least ids) ≡ false
unfolding min_node_id
min_node_id-le_all least [] x h = elim h [ ]
min_node_id-le_all least (id ∷ ids) x (inl e) =
    str_le_trans _ (lesser id least) x (min_node_id-le (lesser id least) ids)
      (rw e (lesser-le id least).1)
min_node_id-le_all least (id ∷ ids) x (inr h) = min_node_id-le_all (lesser id least) ids x h

-- A node of the map that is marked active.
abbrev pub IsActive : Map Node → String → Type 0
IsActive nodes id = (n : Node) × (lookup id nodes ≡ some n) × (n.status ≡ "active")

IsKeyed-tail :
    (k : String) (n : Node) (rest : Map Node) → IsKeyed ((k, n) ∷ rest) → (n.id ≡ k) × IsKeyed rest
unfolding lookup
IsKeyed-tail k n rest v = (
  v.keyed k n (rw (eq_refl k)),
  record {
    distinct = v.distinct.1;
    keyed = λ j x h. ground (arith, v.keyed j x, eq_iff k j, v.distinct.0);
  },
)

pub active-Among :
    (nodes : Map Node) (id : String)
    → IsKeyed nodes
    → IsActive nodes id
    → Among id (get_active_nodes nodes)
unfolding lookup get_active_nodes
active-Among [] id v a = cc (a.1)
active-Among ((k, n) ∷ rest) id v (x, e, s) = ground (
  arith,
  eq_iff k id,
  eq_iff n.status "active",
  (IsKeyed-tail k n rest v).0,
  λ (h : lookup id rest ≡ some x). active-Among rest id (IsKeyed-tail k n rest v).1 (x, h, s),
)

IsActive-cons :
    (k : String) (n : Node) (rest : Map Node) (id : String)
    → lookup k rest ≡ none
    → IsActive rest id
    → IsActive ((k, n) ∷ rest) id
unfolding lookup
IsActive-cons k n rest id fresh (x, e, s) = (x, ground (arith, eq_iff k id), s)

Among-cond :
    (b : Bool) (x id : String) (ids : List String)
    → Among x (if b then id ∷ ids else ids)
    → ((b ≡ true) × (x ≡ id)) ⊎ Among x ids
Among-cond true x id ids (inl e) = inl (refl, e)
Among-cond true x id ids (inr h) = inr h
Among-cond false x id ids h = inr h

pub Among-IsActive :
    (nodes : Map Node) (id : String)
    → IsKeyed nodes
    → Among id (get_active_nodes nodes)
    → IsActive nodes id
unfolding get_active_nodes lookup
Among-IsActive [] id v h = elim h [ ]
Among-IsActive ((k, n) ∷ rest) id v h =
    let (own, tail) = IsKeyed-tail k n rest v in
    elim (Among-cond (n.status == "active") id n.id (get_active_nodes rest) h) [
      | inl (s, e) ↦ (n, ground (arith, eq_iff k id), (eq_iff n.status "active").0 s)
      | inr h' ↦ IsActive-cons k n rest id v.distinct.0 (Among-IsActive rest id tail h')
    ]

-- Who may win an election.
abbrev pub IsCandidate : Manager → String → Type 0
IsCandidate m id = (id ≡ m.node_id) ⊎ IsActive m.nodes id

pub visited-IsKeyed :
    (visited nodes : Map Node) → Enumerates visited nodes → IsKeyed nodes → IsKeyed visited
visited-IsKeyed visited nodes e v = record {
  distinct = e.0;
  keyed = λ k n h. v.keyed k n (sym (e.1 k) ∙ h);
}

-- In one normal form, every branch of the election.
pub elect_among_lem :
    (ids : List String) (m : Manager)
    → elect_among ids m ≡ (
        if min_node_id m.node_id ids == m.node_id
        then become_leader m
        else set_leader (min_node_id m.node_id ids) m)
unfolding elect_among min_node_id
elect_among_lem [] m = rw (eq_refl m.node_id)
elect_among_lem (x ∷ []) m =
    ground (arith, eq_iff x m.node_id, eq_refl m.node_id, str_lt_irrefl m.node_id)
elect_among_lem (x ∷ y ∷ ids) m = refl

unfoldable pub elected : Map Node → Manager → String
elected visited m = min_node_id m.node_id (get_active_nodes visited)

pub elected_leader :
    (visited : Map Node) (m : Manager)
    → (start_leader_election visited m).leader_id ≡ elected visited m
unfolding start_leader_election elected become_leader set_leader
elected_leader visited m =
    rw (elect_among_lem (get_active_nodes visited) m)
      (ground (arith, eq_iff (min_node_id m.node_id (get_active_nodes visited)) m.node_id))
