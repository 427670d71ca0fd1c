-- ===== src/FileSync/Messages.antt =====
-- internal/p2p/file_sync.go: publishing, and the handlers of messages. JSON is a parameter, and so is
-- the answer of the publish/subscribe service to a call of Publish. A goroutine that sends a request
-- is an entry of `requests`, and `run_request` is its run.
use syncmesh.Common.{
  ◌≡◌, String, Bool, true, Option, none, some, maybe, [], ◌∷◌, ◌==◌, Time, unix_time, unix_seconds,
  zero_time, Map, lookup, if◌then◌else◌, pos, length,
}
use syncmesh.FileSync.State.{
  Bytes, FileEvent, FileSyncMessage, empty_message, Peer, update_from_event,
}
use syncmesh.FileSync.Conflicts.{should_sync_file, has_conflict, resolve_conflict}
use syncmesh.FileSync.Files.{Os, create_or_modify_file}

pub record Codec : Type 0 where
  pub marshal : FileSyncMessage → Option Bytes
  pub unmarshal : Bytes → Option FileSyncMessage

-- What the code relies on: a message that was marshalled is read back, up to the order in which the
-- entries of its metadata stand.
pub record IsCodec (json : Codec) : Type 0 where
  pub unmarshal-marshal :
      (msg : FileSyncMessage) (bytes : Bytes)
      → json.marshal msg ≡ some bytes
      → (metadata : Map String) × (json.unmarshal bytes ≡ some (record msg { metadata = metadata }))
        × ((k : String) → lookup k metadata ≡ lookup k msg.metadata)

pub data PublishError : Type 0 where
  marshal_failed publish_failed : PublishError

unfoldable pub response_event : FileSyncMessage → FileEvent
response_event msg = record {
  path = msg.file_path;
  operation = "create";
  timestamp = unix_time msg.timestamp;
  size = msg.size;
  checksum = "";
  mod_time = zero_time;
  from_peer = msg.from_peer;
  version = 0;
  metadata = [];
}

unfoldable pub event_of_message : FileSyncMessage → FileEvent
event_of_message msg = record {
  path = msg.file_path;
  operation = msg.type;
  timestamp = unix_time msg.timestamp;
  size = msg.size;
  checksum = msg.checksum;
  mod_time = zero_time;
  from_peer = msg.from_peer;
  version = msg.version;
  metadata = msg.metadata;
}

module _ {Fs : Type 0} where
  unfoldable pub event_message : Time → FileEvent → Peer Fs → FileSyncMessage
  event_message now event f = record empty_message {
    type = "file_event";
    file_path = event.path;
    checksum = event.checksum;
    size = event.size;
    timestamp = unix_seconds now;
    from_peer = f.host_id;
    version = event.version;
    metadata = event.metadata;
  }

  unfoldable pub request_message : Time → FileEvent → Peer Fs → FileSyncMessage
  request_message now event f = record empty_message {
    type = "file_request";
    file_path = event.path;
    timestamp = unix_seconds now;
    from_peer = f.host_id;
  }

  unfoldable pub response_message : Time → String → Bytes → Peer Fs → FileSyncMessage
  response_message now path file_data f = record empty_message {
    type = "file_response";
    file_path = path;
    timestamp = unix_seconds now;
    from_peer = f.host_id;
    size = pos (length file_data);
    file_data = file_data;
  }

  -- `handleFileEvent`.
  unfoldable pub handle_file_event : Time → FileEvent → Peer Fs → Peer Fs
  handle_file_event now event f =
      let resolved = if has_conflict now event f then resolve_conflict event f else (true, f) in
      if should_sync_file event f
      then if resolved.0
        then record resolved.1 { requests = event ∷ resolved.1.requests }
        else resolved.1
      else f

module _ {Fs : Type 0} (json : Codec) (publish : Bytes → Bool) where
  -- Marshal and publish, which five functions do in the same way.
  unfoldable pub send : FileSyncMessage → Peer Fs → Peer Fs × Option PublishError
  send msg f =
      maybe (json.marshal msg) (f, some PublishError.marshal_failed)
        λ bytes.
          if publish bytes
          then (record f { published = bytes ∷ f.published }, none)
          else (f, some PublishError.publish_failed)

  -- `PublishFileEvent`.
  unfoldable pub publish_file_event : Time → FileEvent → Peer Fs → Peer Fs × Option PublishError
  publish_file_event now event f =
      let sent = send (event_message now event f) f in
      maybe sent.1 (update_from_event now event sent.0, none) λ err. (sent.0, some err)

  -- `requestFileFromPeer`; its errors are only logged.
  unfoldable pub request_file_from_peer : Time → FileEvent → Peer Fs → Peer Fs
  request_file_from_peer now event f = (send (request_message now event f) f).0

  -- One goroutine runs.
  unfoldable pub run_request : Time → Peer Fs → Peer Fs
  run_request now f = elim f.requests [
    | [] ↦ f
    | event ∷ rest ↦ request_file_from_peer now event (record f { requests = rest })
  ]

module _ {Fs : Type 0} (os : Os Fs) where
  -- `handleFileResponse`.
  unfoldable pub handle_file_response : FileSyncMessage → Peer Fs → Peer Fs
  handle_file_response msg f = record f {
    files = (create_or_modify_file os (response_event msg) msg.file_data f.files).0;
  }

module _ {Fs : Type 0} (os : Os Fs) (json : Codec) (publish : Bytes → Bool) where
  -- `handleFileRequest`.
  unfoldable pub handle_file_request : Time → FileSyncMessage → Peer Fs → Peer Fs
  handle_file_request now msg f =
      maybe (os.read_file msg.file_path f.files) f
        λ file_data. (send json publish (response_message now msg.file_path file_data f) f).0

  -- `processMessage`, with the message as it is read.
  unfoldable pub handle_message : Time → FileSyncMessage → Peer Fs → Peer Fs
  handle_message now msg f =
      if msg.from_peer == f.host_id
      then f
      else if msg.type == "file_event"
      then handle_file_event now (event_of_message msg) f
      else if msg.type == "file_request"
      then handle_file_request now msg f
      else if msg.type == "file_response"
      then handle_file_response os msg f
      else f

  unfoldable pub process_message : Time → Bytes → Peer Fs → Peer Fs
  process_message now bytes f = maybe (json.unmarshal bytes) f λ msg. handle_message now msg f
