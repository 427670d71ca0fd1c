-- ===== src/Cluster/Heartbeats.antt =====
-- internal/cluster/manager.go, `sendHeartbeatToNode` and `UpdateNodesFromHeartbeat`: what the
-- receiver of a heartbeat makes of it.
use native.Mathlib.Nat.{mul-div_cancel}
use syncmesh.Common.{
  ◌≡◌, refl, ◌≢◌, ap, String, true, false, some, List, eq-false, ℕ, suc, pos, ◌*ℤ◌, ◌*◌, Time,
  unix_time, unix_seconds, Map, ◌<◌, arith,
}
use syncmesh.Json.{Fields, object, get, as_text, scaled, float_unit, truncate, is_positive}
use syncmesh.Cluster.State.{Node, Manager}
use syncmesh.Cluster.Membership.{read_heartbeat, update_nodes_from_heartbeat}
use syncmesh.Cluster.Network.{node_fields, heartbeat_payload}

-- Every manager, whether it leads or not, names itself as the leader in the heartbeats that its
-- workers send, and another manager that takes that name over no longer leads.
pub heartbeat_claims_lead :
    (now later : Time) (visited : Map Node) (received : List Fields) (m r : Manager)
    → m.node_id ≢ r.node_id
    → (fields : Fields) × (leader_id : String) × (heartbeat_payload now visited m ≡ object fields)
      × (as_text (get "leader_id" fields) ≡ some leader_id)
      × (let after_it = update_nodes_from_heartbeat later leader_id received r in
          (after_it.leader_id ≡ m.node_id) × (after_it.is_leader ≡ false))
unfolding heartbeat_payload update_nodes_from_heartbeat get
heartbeat_claims_lead now later visited received m r other =
    (_, m.node_id, refl, refl, (refl, eq-false m.node_id r.node_id other))

pos-mul : (a b : ℕ) → pos a *ℤ pos b ≡ pos (a * b)
unfolding ◌*ℤ◌
pos-mul a b = ground arith

unit_is_positive : 0 < float_unit
unfolding float_unit
unit_is_positive = omega arith

truncate-integer : (n : ℕ) → truncate (scaled (pos (n * float_unit))) ≡ pos n
unfolding truncate
truncate-integer n = ap pos (mul-div_cancel n unit_is_positive)

integer-is_positive : (s unit : ℕ) → 0 < unit → is_positive (scaled (pos (suc s * unit))) ≡ true
integer-is_positive s unit h = ground arith

-- A node whose time stamp is at least a second is read from a heartbeat as it was written, with the
-- time stamp in whole seconds.
pub read_heartbeat-node_fields :
    (now : Time) (n : Node) (s : ℕ)
    → unix_seconds n.last_seen ≡ pos (suc s)
    → read_heartbeat now (node_fields n)
      ≡ some record {
        id = n.id;
        address = n.address;
        status = n.status;
        is_leader = n.is_leader;
        last_seen = unix_time (pos (suc s));
      }
unfolding read_heartbeat node_fields get
read_heartbeat-node_fields now n s seconds =
    rw
      (
        seconds,
        pos-mul (suc s) float_unit,
        integer-is_positive s float_unit unit_is_positive,
        truncate-integer (suc s),
      )
      refl
