-- ===== src/Transport/State.antt =====
-- internal/p2p/real_pubsub.go: the state of the service, its life, and the messages that it passes on.
use syncmesh.Common.{
  ℕ, length, String, Bool, true, false, Option, none, some, maybe, List, [], ◌==◌, Map,
  if◌then◌else◌,
}
use syncmesh.FileSync.State.{Bytes}

-- `peer.AddrInfo`.
pub record AddrInfo : Type 0 where
  pub id : String
  pub addrs : List String

-- `host_id` is `none` before a host is created; `has_cancel` says that `cancel` is not nil; `attempts` and `slept` count the calls of Connect and
-- the seconds between them.
pub record Transport : Type 0 where
  pub host_id : Option String
  pub running : Bool
  pub has_cancel : Bool
  pub has_callback : Bool
  pub peers : Map AddrInfo
  pub attempts : ℕ
  pub slept : ℕ

pub data TransportError : Type 0 where
  already_running no_host no_pubsub no_topic no_subscription not_running publish_failed :
      TransportError

-- `NewRealPubSubService`, and `SetFileSyncCallback`.
unfoldable pub new_transport : Transport
new_transport = record {
  host_id = none;
  running = false;
  has_cancel = false;
  has_callback = false;
  peers = [];
  attempts = 0;
  slept = 0;
}

unfoldable pub set_file_sync_callback : Transport → Transport
set_file_sync_callback r = record r { has_callback = true }

-- `Start`: the id of the host that is created, and whether the three calls after it succeed.
unfoldable pub start_transport :
    Option String → Bool → Bool → Bool → Transport → Transport × Option TransportError
start_transport host gossip joins subscribes r =
    if r.running
    then (r, some TransportError.already_running)
    else maybe host (r, some TransportError.no_host)
        λ id.
          let hosted = record r { host_id = some id } in
          if gossip
          then if joins
            then if subscribes
              then (record hosted { running = true }, none)
              else (hosted, some TransportError.no_subscription)
            else (hosted, some TransportError.no_topic)
          else (hosted, some TransportError.no_pubsub)

-- `Stop`: `none` is the panic of calling a function that is nil.
unfoldable pub stop_transport : Transport → Option Transport
stop_transport r =
    let stopped = if r.has_cancel then some (record r { running = false }) else none in
    if r.running then stopped else some r

-- What `sub.Next` gives, and the call of the callback that `handleMessages` spawns for it; `id` is the
-- host's.
pub data Next : Type 0 where
  failed : Next
  message : String → Bytes → Next

unfoldable pub callback_for : String → Next → Transport → Option (Bytes × String)
callback_for id Next.failed r = none
callback_for id (Next.message from content) r =
    let passed = if r.has_callback then some (content, from) else none in
    if from == id then none else passed

-- `Publish`; the topic's answer is an argument.
unfoldable pub publish_to_topic : Bool → Transport → Option TransportError
publish_to_topic taken r =
    if r.running
    then if taken then none else some TransportError.publish_failed
    else some TransportError.not_running

-- `GetPeerCount`.
unfoldable pub peer_count : Transport → ℕ
peer_count r = length r.peers
