-- ===== src/Cluster/Leadership.antt =====
-- internal/cluster/manager.go: who leads. An election reads the map in some order, which is the
-- argument `visited`.
use Prim.Native.String.{[] as empty, ◌∷◌ as ◌::◌}
use Prim.Native.Char.{code}
use Prim.Native.Nat.{bit_xor}
use syncmesh.Common.{
  ℕ, ◌+◌, ◌*◌, ◌/◌, ◌%◌, ◌^◌, String, Bool, true, false, not, Option, none, some, List, [], ◌∷◌,
  ◌++◌, ◌==◌, Map, lookup, map_values, modify, if◌then◌else◌, length, ltb, str_lt,
}
use syncmesh.Cluster.State.{Node, Manager, get_active_nodes}

-- `becomeLeader`.
unfoldable pub become_leader : Manager → Manager
become_leader m = record m {
  is_leader = true;
  leader_id = m.node_id;
  nodes = modify m.node_id (λ node. record node { is_leader = true }) m.nodes;
}

-- `setLeader`.
unfoldable pub set_leader : String → Manager → Manager
set_leader node_id m = record m {
  is_leader = node_id == m.node_id;
  leader_id = node_id;
  nodes = map_values (λ node. record node { is_leader = node.id == node_id }) m.nodes;
}

-- `shouldStartElection`.
unfoldable pub should_start_election : Manager → Bool
should_start_election m =
    if m.leader_id == ""
    then true
    else elim (lookup m.leader_id m.nodes) [ none ↦ true | some leader ↦ leader.status == "failed" ]

-- `minNodeID` after the loop.
unfoldable pub min_node_id : String → List String → String
min_node_id least [] = least
min_node_id least (id ∷ ids) = min_node_id (if str_lt id least then id else least) ids

abbrev pub is_only : String → List String → Bool
is_only id (x ∷ []) = x == id
is_only id _ = false

-- `startLeaderElection`, from the active nodes on.
unfoldable pub elect_among : List String → Manager → Manager
elect_among [] m = become_leader m
elect_among (id ∷ ids) m =
    let least = min_node_id m.node_id (id ∷ ids) in
    if is_only m.node_id (id ∷ ids)
    then become_leader m
    else if least == m.node_id
    then become_leader m
    else set_leader least m

unfoldable pub start_leader_election : Map Node → Manager → Manager
unfolding elect_among
start_leader_election visited m = elect_among (get_active_nodes visited) m

-- The bytes of a code point in UTF-8.
unfoldable pub utf8 : ℕ → List ℕ
utf8 c =
    if ltb c 0x80
    then c ∷ []
    else if ltb c 0x800
    then (0xc0 + c / 64) ∷ (0x80 + c % 64) ∷ []
    else if ltb c 0x1_0000
    then (0xe0 + c / 4096) ∷ (0x80 + c / 64 % 64) ∷ (0x80 + c % 64) ∷ []
    else (0xf0 + c / 262144) ∷ (0x80 + c / 4096 % 64) ∷ (0x80 + c / 64 % 64) ∷ (0x80 + c % 64) ∷ []

unfoldable pub bytes : String → List ℕ
unfolding utf8
bytes empty = []
bytes (c :: s) = utf8 (code c) ++ bytes s

-- `hash/fnv`'s 32-bit FNV-1a.
unfoldable pub fnv32a : ℕ → List ℕ → ℕ
fnv32a hash [] = hash
fnv32a hash (b ∷ bs) = fnv32a (bit_xor hash b * 16777619 % 2 ^ 32) bs

unfoldable pub file_hash : String → ℕ
unfolding fnv32a bytes
file_hash path = fnv32a 2166136261 (bytes path)

abbrev pub get_elem? {ℓ} : {A : Type ℓ} → List A → ℕ → Option A
get_elem? [] i = none
get_elem? (x ∷ xs) ℕ.zero = some x
get_elem? (x ∷ xs) (ℕ.suc i) = get_elem? xs i

abbrev holds_at : List String → ℕ → String → Bool
holds_at ids i id = elim (get_elem? ids i) [ none ↦ false | some x ↦ x == id ]

-- `IsLeaderForFile`: an int has 64 bits, so the hash is not negative.
unfoldable pub is_leader_for_file : Map Node → String → Manager → Bool
is_leader_for_file visited file_path m =
    let active = get_active_nodes visited in
    if not m.is_leader then false else elim active [
      | [] ↦ false
      | id ∷ ids ↦ holds_at (id ∷ ids) (file_hash file_path % length (id ∷ ids)) m.node_id
    ]
