-- ===== src/Cluster/FileLeaders.antt =====
-- internal/cluster/manager.go, `IsLeaderForFile`: which node leads a file.
use native.Mathlib.Nat.{mod-lt, zero-lt-suc}
use syncmesh.Common.{
  ◌≡◌, refl, ◌≢◌, ◌↔◌, ℕ, ◌%◌, ◌<◌, String, true, some, List, [], ◌∷◌, ◌++◌, ap, Map, length, arith,
  eq_iff,
}
use syncmesh.Cluster.State.{Node, Manager, get_active_nodes}
use syncmesh.Cluster.Hashing.{IsEncoded, HasHash, file_hash-HasHash}
use syncmesh.Cluster.Leadership.{get_elem?, file_hash, is_leader_for_file}

-- The list has the element at the index.
abbrev pub Stands : String → List String → ℕ → Type 0
Stands id ids i =
    (before after_it : List String) × (ids ≡ before ++ id ∷ after_it) × (length before ≡ i)

get_elem?-Stands :
    (ids : List String) (i : ℕ)
    → i < length ids
    → (id : String) × (get_elem? ids i ≡ some id) × Stands id ids i
get_elem?-Stands [] i h = absurd (omega (arith, h))
get_elem?-Stands (x ∷ ids) ℕ.zero h = (x, refl, ([], ids, refl, refl))
get_elem?-Stands (x ∷ ids) (ℕ.suc i) h =
    let (id, at, (before, later, split, long)) = get_elem?-Stands ids i (omega (arith, h)) in
    (id, at, (x ∷ before, later, ap (λ (js : List String). x ∷ js) split, omega (arith, long)))

-- Where there is an active node, the path of a file picks one of the active nodes: the one whose place
-- among them, in the order in which the map is visited, is the remainder of the FNV-1a hash of the
-- path's bytes, its characters in UTF-8, by their number. A manager that visits the nodes in that order
-- leads the file exactly if its node is the one that is picked, and it leads the cluster: a file whose
-- hash picks another node than the leader is led by none.
pub file_leader_iff :
    (visited : Map Node) (path : String)
    → get_active_nodes visited ≢ []
    → (bs : List ℕ) × (h : ℕ) × (id : String) × IsEncoded path bs
      × HasHash bs h
      × Stands id (get_active_nodes visited) (h % length (get_active_nodes visited))
      × ((m : Manager)
          → (is_leader_for_file visited path m ≡ true) ↔ ((m.is_leader ≡ true) × (m.node_id ≡ id)))
unfolding is_leader_for_file
file_leader_iff visited path filled =
    let (bs, encoded, hashed) = file_hash-HasHash path in
    let (id, stands, leads) = go (get_active_nodes visited) refl in
    (bs, file_hash path, id, encoded, hashed, stands, leads)
  where
    go :
        (active : List String)
        → get_active_nodes visited ≡ active
        → (id : String) × Stands id
            (get_active_nodes visited)
            (file_hash path % length (get_active_nodes visited))
          × ((m : Manager)
              → (is_leader_for_file visited path m ≡ true)
                ↔ ((m.is_leader ≡ true) × (m.node_id ≡ id)))
    go [] e = absurd (filled e)
    go (a ∷ rest) e =
        let (id, at, stands) =
          get_elem?-Stands (a ∷ rest) (file_hash path % length (a ∷ rest))
            (mod-lt (file_hash path) (zero-lt-suc (length rest))) in
        (id, rw e stands, λ m. rw e (ground (arith, at, eq_iff id m.node_id)))
