-- ===== src/Engine/Announcing.antt =====
-- internal/sync/engine.go: from an event of the watcher to the announcement. SHA-256 with its
-- hexadecimal digits is a parameter, `hash`.
use mathlib.Core.Option
use syncmesh.Common.{
  String, Bool, Option, some, maybe, [], ◌∷◌, ◌==◌, pos, zero_time, Time, if◌then◌else◌,
}
use syncmesh.FileSync.State.{Bytes, FileEvent, Peer}
use syncmesh.FileSync.Files.{Os}
use syncmesh.FileSync.Messages.{Codec, PublishError, publish_file_event}
use syncmesh.Engine.State.{Engine, FileInfo, Stat}
use syncmesh.Engine.Patterns.{matches_file_patterns}

pub data SyncError : Type 0 where
  file_not_found checksum_failed : SyncError
  not_published : PublishError → SyncError

module _ {Fs : Type 0} where
  -- The event as it is created, and with what is known of a file that is there.
  unfoldable pub bare_event : Time → String → String → Peer Fs → FileEvent
  bare_event now path operation f = record {
    path = path;
    operation = operation;
    timestamp = now;
    size = pos 0;
    checksum = "";
    mod_time = zero_time;
    from_peer = f.host_id;
    version = 1;
    metadata = [];
  }

  unfoldable pub saved_event : Time → String → String → FileInfo → String → Peer Fs → FileEvent
  saved_event now path operation info checksum f = record (bare_event now path operation f) {
    size = info.size;
    mod_time = info.mod_time;
    checksum = checksum;
  }

module _ {Fs : Type 0} (os : Os Fs) (hash : Bytes → String) where
  -- `calculateChecksum`.
  unfoldable pub calculate_checksum : String → Fs → Option String
  calculate_checksum path fs = Option.map hash (os.read_file path fs)

module _ {Fs : Type 0} (os : Os Fs) (stat : String → Fs → Stat) (hash : Bytes → String) where
  -- The event that `processFileEvent` publishes.
  unfoldable pub local_event : Time → String → String → Peer Fs → FileEvent
  local_event now path operation f =
      if operation == "delete" then bare_event now path operation f else elim (stat path f.files) [
        | Stat.found info ↦
            saved_event now path operation info
              (maybe (calculate_checksum os hash path f.files) "" λ checksum. checksum) f
        | _ ↦ bare_event now path operation f
      ]

module _ {Fs : Type 0} (os : Os Fs) (stat : String → Fs → Stat) (hash : Bytes → String)
    (json : Codec) (publish : Bytes → Bool) where
  -- `SyncFile`.
  unfoldable pub sync_file : Time → Time → String → Peer Fs → Peer Fs × Option SyncError
  sync_file created now path f = elim (stat path f.files) [
    | Stat.found info ↦
        maybe (calculate_checksum os hash path f.files) (f, some SyncError.checksum_failed)
          λ checksum.
            let sent =
              publish_file_event json publish now
                (saved_event created path "modify" info checksum f) f in
            (sent.0, Option.map SyncError.not_published sent.1)
    | _ ↦ (f, some SyncError.file_not_found)
  ]

  module _ (matches : String → String → Bool) (base : String → String) where
    -- `processFileEvent`; an error of publishing is only logged.
    unfoldable pub process_file_event : Time → Time → String → String → Engine → Peer Fs → Peer Fs
    process_file_event created now path operation e f =
        if matches_file_patterns matches base e.config path
        then (publish_file_event json publish now
            (local_event os stat hash created path operation f) f).0
        else f

    -- One goroutine that processes an event runs.
    unfoldable pub run_pending : Time → Time → Engine → Peer Fs → Engine × Peer Fs
    run_pending created now e f = elim e.pending [
      | [] ↦ (e, f)
      | (path, operation) ∷ rest ↦
          (record e { pending = rest }, process_file_event created now path operation e f)
    ]
