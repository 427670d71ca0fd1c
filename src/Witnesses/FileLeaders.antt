-- ===== src/Witnesses/FileLeaders.antt =====
-- Tests of the leaders of files.
use syncmesh.Common.{◌≡◌, refl, ℕ, ◌%◌, List, length, String, true, ◌↔◌, insert}
use mathlib.Core.List.{cons≢nil}
use syncmesh.Cluster.FileLeaders.{Stands, file_leader_iff}
use syncmesh.Cluster.Hashing.{IsEncoded, HasHash}
use syncmesh.Cluster.Leadership.{file_hash, is_leader_for_file}
use syncmesh.Cluster.State.{Manager, get_active_nodes}
use syncmesh.Witnesses.Clusters.{nodes}

-- Known hashes of FNV-1a.
file_hash-vectors :
    (file_hash "" ≡ 0x811c_9dc5)
    × (file_hash "a" ≡ 0xe40c_292c)
    × (file_hash "foobar" ≡ 0xbf9c_f968)
unfolding file_hash
file_hash-vectors = (refl, refl, refl)

file_leader_iff_example :
    (bs : List ℕ) × (h : ℕ) × (id : String) × IsEncoded "/app/data/f" bs
    × HasHash bs h
    × Stands id (get_active_nodes (nodes "active")) (h % length (get_active_nodes (nodes "active")))
    × ((m : Manager)
        → (is_leader_for_file (nodes "active") "/app/data/f" m ≡ true)
          ↔ ((m.is_leader ≡ true) × (m.node_id ≡ id)))
unfolding get_active_nodes insert
file_leader_iff_example = file_leader_iff (nodes "active") "/app/data/f" cons≢nil
