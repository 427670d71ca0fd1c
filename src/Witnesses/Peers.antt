-- ===== src/Witnesses/Peers.antt =====
-- Tests of the file exchange: two peers, one event, and the messages that it leads to.
use syncmesh.Common.{String, Bool, true, false, [], ◌∷◌, pos, Time, Map}
use syncmesh.Config.{FileSyncConfig}
use syncmesh.FileSync.State.{Bytes, FileState, FileEvent, FileSyncMessage, Peer}

abbrev pub config : String → FileSyncConfig
config strategy = record {
  conflict_resolution = strategy;
  compression = false;
  chunk_size = pos 1024;
  max_file_size = pos 1048576;
}

abbrev pub content : Bytes
content = 1 ∷ 2 ∷ 3 ∷ []

abbrev pub peer : String → String → Map FileState → Map Bytes → Peer (Map Bytes)
peer host_id strategy states files = record {
  host_id = host_id;
  config = config strategy;
  file_queue = [];
  workers = [];
  file_states = states;
  cancelled = false;
  running = false;
  files = files;
  published = [];
  requests = [];
}

abbrev pub peer_a : Peer (Map Bytes)
peer_a = peer "a" "timestamp" [] (("/app/data/f", content) ∷ [])

abbrev pub peer_b : Peer (Map Bytes)
peer_b = peer "b" "timestamp" [] []

abbrev pub event : FileEvent
event = record {
  path = "/app/data/f";
  operation = "modify";
  timestamp = pos 5000000000;
  size = pos 3;
  checksum = "sum";
  mod_time = pos 4000000000;
  from_peer = "a";
  version = 1;
  metadata = [];
}

abbrev pub state : FileState
state = record {
  path = "/app/data/f";
  size = pos 2;
  mod_time = pos 1000000000;
  checksum = "other";
  last_sync = pos 1000000000;
  sync_status = "synced";
  error_message = "";
}

abbrev pub manual_b : Peer (Map Bytes)
manual_b = peer "b" "manual" (("/app/data/f", state) ∷ []) []

abbrev pub second_time : Time
second_time = pos 9000000000

abbrev pub takes_all : Bytes → Bool
takes_all bytes = true

-- The announcement of `a`, the request of `b` and the answer of `a`.
abbrev pub announcement : Bytes
announcement = 1 ∷ 4 ∷ 5 ∷ 6 ∷ 0 ∷ 3 ∷ 0 ∷ 9 ∷ 1 ∷ []

abbrev pub request : Bytes
request = 2 ∷ 4 ∷ 0 ∷ 7 ∷ 0 ∷ 0 ∷ 0 ∷ 9 ∷ 0 ∷ []

abbrev pub reply : Bytes
reply = 3 ∷ 4 ∷ 0 ∷ 6 ∷ 0 ∷ 3 ∷ 0 ∷ 9 ∷ 0 ∷ content

abbrev message : String → String → Bytes → FileSyncMessage
message type from_peer file_data = record {
  type = type;
  file_path = "/app/data/f";
  file_data = file_data;
  checksum = "";
  size = pos 0;
  timestamp = pos 9;
  from_peer = from_peer;
  version = 0;
  metadata = [];
}

abbrev pub request_read : FileSyncMessage
request_read = message "file_request" "b" []

abbrev pub reply_read : FileSyncMessage
reply_read = record (message "file_response" "a" content) { size = pos 3 }
