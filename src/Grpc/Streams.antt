-- ===== src/Grpc/Streams.antt =====
-- pkg/grpc/server.go: the two streams of invented events. The loop takes what its select finds ready.
use syncmesh.Common.{pos, String, Bool, List, [], ◌∷◌, Time, unix_seconds, if◌then◌else◌}
use syncmesh.Grpc.Messages.{FileEvent, ClusterEvent, WatchFilesRequest, StreamClusterEventsRequest}

-- The client's context ends, or a tick at a time, with what Send does with the event then.
pub data StreamMoment : Type 0 where
  context_done : StreamMoment
  tick : Time → Bool → StreamMoment

pub data StreamEnd : Type 0 where
  context_error send_error still_open : StreamEnd

-- The events that were sent, and how the stream ended.
unfoldable pub stream_events : {E : Type 0} → (Time → E) → List StreamMoment → List E × StreamEnd
stream_events event [] = ([], StreamEnd.still_open)
stream_events event (StreamMoment.context_done ∷ moments) = ([], StreamEnd.context_error)
stream_events event (StreamMoment.tick now sends ∷ moments) =
    let rest = stream_events event moments in
    if sends then (event now ∷ rest.0, rest.1) else ([], StreamEnd.send_error)

-- `WatchFiles`, which does not look at the patterns.
unfoldable pub watched_file : Time → FileEvent
watched_file now = record {
  file_path = "/data/example.txt";
  operation = "modify";
  timestamp = unix_seconds now;
  size = pos 1024;
  checksum = "def456";
  version = pos 0;
  metadata = [];
}

unfoldable pub watch_files : WatchFilesRequest → List StreamMoment → List FileEvent × StreamEnd
watch_files req moments = stream_events watched_file moments

-- `StreamClusterEvents` on a node whose host has the id.
unfoldable pub cluster_event : String → Time → ClusterEvent
cluster_event host_id now = record {
  type = "node-heartbeat";
  node_id = host_id;
  timestamp = unix_seconds now;
  content = ("status", "active") ∷ [];
}

unfoldable pub stream_cluster_events :
    String → StreamClusterEventsRequest → List StreamMoment → List ClusterEvent × StreamEnd
stream_cluster_events host_id req moments = stream_events (cluster_event host_id) moments
