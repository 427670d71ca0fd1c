-- ===== src/Cluster/WellFormed.antt =====
-- internal/cluster/manager.go: what holds of a manager between two operations, and the changes of
-- the map that keep it.
use syncmesh.Common.{
  ◌≡◌, refl, erase, String, Option, none, some, [], ◌==◌, eq_iff, Map, lookup, lookup-insert,
  lookup-erase, lookup-modify, lookup-map_values, insert, modify, map_values, HasDistinctKeys,
  insert-HasDistinctKeys, erase-HasDistinctKeys, modify-HasDistinctKeys, map_values-HasDistinctKeys,
  arith,
}
use syncmesh.Cluster.State.{Node, Manager}

-- Each node stands once, under its own id.
pub record IsKeyed (nodes : Map Node) : Type 0 where
  pub distinct : HasDistinctKeys nodes
  pub keyed : (k : String) (n : Node) → lookup k nodes ≡ some n → n.id ≡ k

pub record WellFormed (m : Manager) : Type 0 where
  pub nodes_keyed : IsKeyed m.nodes
  pub leads : m.is_leader ≡ (m.leader_id == m.node_id)

pub empty-IsKeyed : IsKeyed []
unfolding lookup
empty-IsKeyed = record { distinct = tt; keyed = λ k n h. cc }

pub insert-IsKeyed : (n : Node) (nodes : Map Node) → IsKeyed nodes → IsKeyed (insert n.id n nodes)
insert-IsKeyed n nodes v = record {
  distinct = insert-HasDistinctKeys n.id n nodes v.distinct;
  keyed = λ k x h. ground (arith, eq_iff n.id k, lookup-insert n.id k n nodes, v.keyed k x);
}

pub insert_at-IsKeyed :
    (k : String) (n : Node) (nodes : Map Node)
    → n.id ≡ k
    → IsKeyed nodes
    → IsKeyed (insert k n nodes)
insert_at-IsKeyed k n nodes e v = record {
  distinct = insert-HasDistinctKeys k n nodes v.distinct;
  keyed = λ j x h. ground (arith, eq_iff k j, lookup-insert k j n nodes, v.keyed j x);
}

pub modify-IsKeyed :
    (k : String) (f : Node → Node) (nodes : Map Node)
    → ((n : Node) → (f n).id ≡ n.id)
    → IsKeyed nodes
    → IsKeyed (modify k f nodes)
modify-IsKeyed k f nodes same v = record {
  distinct = modify-HasDistinctKeys k f nodes v.distinct;
  keyed = λ j x h. from_lookup j x (lookup j nodes) refl h;
}
  where
    from_lookup :
        (j : String) (x : Node) (found : Option Node)
        → lookup j nodes ≡ found
        → lookup j (modify k f nodes) ≡ some x
        → x.id ≡ j
    from_lookup j x none e h = ground (arith, lookup-modify k j f nodes)
    from_lookup j x (some n) e h = ground (arith, lookup-modify k j f nodes, v.keyed j n, same n)

pub map_values-IsKeyed :
    (f : Node → Node) (nodes : Map Node)
    → ((n : Node) → (f n).id ≡ n.id)
    → IsKeyed nodes
    → IsKeyed (map_values f nodes)
map_values-IsKeyed f nodes same v = record {
  distinct = map_values-HasDistinctKeys f nodes v.distinct;
  keyed = λ j x h. from_lookup j x (lookup j nodes) refl h;
}
  where
    from_lookup :
        (j : String) (x : Node) (found : Option Node)
        → lookup j nodes ≡ found
        → lookup j (map_values f nodes) ≡ some x
        → x.id ≡ j
    from_lookup j x none e h = ground (arith, lookup-map_values f j nodes)
    from_lookup j x (some n) e h = ground (arith, lookup-map_values f j nodes, v.keyed j n, same n)

pub erase-IsKeyed : (k : String) (nodes : Map Node) → IsKeyed nodes → IsKeyed (erase k nodes)
erase-IsKeyed k nodes v = record {
  distinct = erase-HasDistinctKeys k nodes v.distinct;
  keyed = λ j x h. ground (arith, lookup-erase k j nodes, v.keyed j x);
}

-- With the manager's other fields as they are, its map may change to any keyed map.
pub nodes-WellFormed :
    (m : Manager) (nodes : Map Node)
    → WellFormed m
    → IsKeyed nodes
    → WellFormed (record m { nodes = nodes })
nodes-WellFormed m nodes v k = record { nodes_keyed = k; leads = v.leads }
