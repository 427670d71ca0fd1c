-- ===== src/FileSync/State.antt =====
-- internal/p2p/file_sync.go, types.go and node.go: the records, the state of a peer and the table of
-- file states. A `peer.ID` is its text; a file's bytes are numbers below 256.
use syncmesh.Common.{ℕ, String, ℤ, pos, Bool, false, Option, List, [], Time, Map, lookup, insert}
use syncmesh.Config.{FileSyncConfig}

abbrev pub Bytes : Type 0
Bytes = List ℕ

pub record FileState : Type 0 where
  pub path : String
  pub size : ℤ
  pub mod_time : Time
  pub checksum : String
  pub last_sync : Time
  pub sync_status : String
  pub error_message : String

pub record FileEvent : Type 0 where
  pub path : String
  pub operation : String
  pub timestamp : Time
  pub size : ℤ
  pub checksum : String
  pub mod_time : Time
  pub from_peer : String
  pub version : ℕ
  pub metadata : Map String

pub record FileOperation : Type 0 where
  pub event : FileEvent
  pub priority : ℤ
  pub retry_count : ℤ
  pub last_attempt : Time

-- A worker; `stop_closed` says whether its stop channel is closed.
pub record FileWorker : Type 0 where
  pub id : ℕ
  pub stop_closed : Bool

pub record FileSyncMessage : Type 0 where
  pub type : String
  pub file_path : String
  pub file_data : Bytes
  pub checksum : String
  pub size : ℤ
  pub timestamp : ℤ
  pub from_peer : String
  pub version : ℕ
  pub metadata : Map String

-- A message with the zero values of its type, for the source's literals.
abbrev pub empty_message : FileSyncMessage
empty_message = record {
  type = "";
  file_path = "";
  file_data = [];
  checksum = "";
  size = pos 0;
  timestamp = pos 0;
  from_peer = "";
  version = 0;
  metadata = [];
}

-- A peer: the protocol's fields, what it reads of its node, its file system, the messages that its
-- node has published, newest first, and the requests that its goroutines have still to send.
pub record Peer (Fs : Type 0) : Type 0 where
  pub host_id : String
  pub config : FileSyncConfig
  pub file_queue : List FileOperation
  pub workers : List FileWorker
  pub file_states : Map FileState
  pub cancelled : Bool
  pub running : Bool
  pub files : Fs
  pub published : List Bytes
  pub requests : List FileEvent

-- The state that an event of this node's own leaves.
unfoldable pub synced_state : Time → FileEvent → FileState
synced_state now event = record {
  path = event.path;
  size = event.size;
  mod_time = event.mod_time;
  checksum = event.checksum;
  last_sync = now;
  sync_status = "synced";
  error_message = "";
}

module _ {Fs : Type 0} where
  -- `NewFileSyncProtocol`.
  unfoldable pub new_file_sync_protocol : String → FileSyncConfig → Fs → Peer Fs
  new_file_sync_protocol host_id config files = record {
    host_id = host_id;
    config = config;
    file_queue = [];
    workers = [];
    file_states = [];
    cancelled = false;
    running = false;
    files = files;
    published = [];
    requests = [];
  }

  -- `GetFileState`.
  unfoldable pub get_file_state : String → Peer Fs → Option FileState
  get_file_state path f = lookup path f.file_states

  -- `UpdateFileState`.
  unfoldable pub update_file_state : String → FileState → Peer Fs → Peer Fs
  update_file_state path state f = record f { file_states = insert path state f.file_states }

  -- `updateFileState`.
  unfoldable pub update_from_event : Time → FileEvent → Peer Fs → Peer Fs
  update_from_event now event f = record f {
    file_states = insert event.path (synced_state now event) f.file_states;
  }
