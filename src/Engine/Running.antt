-- ===== src/Engine/Running.antt =====
-- internal/sync/engine.go with internal/p2p/file_sync.go: what the engine's announcements lead to.
use mathlib.Core.Option
use syncmesh.Common.{
  ◌≡◌, refl, ◌∙◌, ap, ◌≢◌, String, Bool, true, false, none, some, ◌∷◌, eq-false, text_cases, inl,
  inr, Time, lookup,
}
use syncmesh.FileSync.State.{Bytes, FileState, FileEvent, FileSyncMessage, Peer, synced_state}
use syncmesh.FileSync.Files.{Os}
use syncmesh.FileSync.Messages.{
  Codec, IsCodec, event_message, event_of_message, publish_file_event, handle_file_request,
  process_message,
}
use syncmesh.FileSync.Dispatch.{
  handle_message-own, handle_message-event, handle_message-request, process_message-read,
}
use syncmesh.FileSync.Writes.{handle_file_event-files}
use syncmesh.FileSync.Exchange.{
  Sends, publish_file_event-Sends, recorded_is_not_wanted, known-is_ignored,
  lookup-update_from_event,
}
use syncmesh.Engine.State.{
  Engine, FileInfo, Stat, WatchEvent, is_skipped, operation_of, handle_watch_event,
}
use syncmesh.Engine.Patterns.{matches_file_patterns}
use syncmesh.Engine.Announcing.{
  bare_event, saved_event, calculate_checksum, local_event, process_file_event, run_pending,
}

module _ {Fs : Type 0} (os : Os Fs) (stat : String → Fs → Stat) (hash : Bytes → String) where
  -- The event of a file that is there and can be read.
  pub saved :
      (now : Time) (path operation : String) (info : FileInfo) (content : Bytes) (f : Peer Fs)
      → operation ≢ "delete"
      → stat path f.files ≡ Stat.found info
      → os.read_file path f.files ≡ some content
      → local_event os stat hash now path operation f
        ≡ saved_event now path operation info (hash content) f
  unfolding local_event calculate_checksum
  saved now path operation info content f changed there readable =
      rw (eq-false operation "delete" changed) (rw there (rw readable refl))

  pub deleted :
      (now : Time) (path : String) (f : Peer Fs)
      → local_event os stat hash now path "delete" f ≡ bare_event now path "delete" f
  unfolding local_event
  deleted now path f = refl

handled :
    (base : String → String) (w : WatchEvent) (operation : String) (e : Engine)
    → is_skipped base w.name ≡ false
    → operation_of w.op ≡ some operation
    → handle_watch_event base w e ≡ record e { pending = (w.name, operation) ∷ e.pending }
unfolding handle_watch_event
handled base w operation e kept op = rw kept (rw op refl)

pub recorded :
    {Fs : Type 0} (json : Codec) (publish : Bytes → Bool) (now : Time) (event : FileEvent)
    (bytes : Bytes) (f : Peer Fs)
    → Sends json publish (event_message now event f) bytes
    → Option.map
        (λ (state : FileState). state.checksum)
        (lookup event.path (publish_file_event json publish now event f).0.file_states)
      ≡ some event.checksum
unfolding synced_state
recorded json publish now event bytes f s =
    rw (publish_file_event-Sends json publish now event bytes f s) (
      rw
        (lookup-update_from_event now event event.path
          (record f { published = bytes ∷ f.published }) refl)
        refl)

-- An announcement of a checksum that the reader has recorded is ignored.
pub recorded_announcement_is_ignored :
    {Fs : Type 0} (os : Os Fs) (json : Codec) (is_codec : IsCodec json) (publish : Bytes → Bool)
    (now later : Time) (event : FileEvent) (bytes : Bytes) (state : FileState) (a b : Peer Fs)
    → json.marshal (event_message now event b) ≡ some bytes
    → lookup event.path a.file_states ≡ some state
    → state.checksum ≡ event.checksum
    → process_message os json publish later bytes a ≡ a
unfolding event_message event_of_message
recorded_announcement_is_ignored os json is_codec publish now later event bytes state a b e known
      same =
    let read = is_codec.unmarshal-marshal (event_message now event b) bytes e in
    let msg = record (event_message now event b) { metadata = read.0 } in
    process_message-read os json publish later msg a bytes read.1
    ∙ elim (text_cases b.host_id a.host_id) [
      | inl (_, own) ↦ handle_message-own os json publish later msg a own
      | inr (_, other) ↦
          handle_message-event os json publish later msg a other refl
          ∙ known-is_ignored json publish later (event_of_message msg) a
              (recorded_is_not_wanted (event_of_message msg) state a known same)
    ]

-- An announcement changes no file of its reader.
pub announcement-files :
    {Fs : Type 0} (os : Os Fs) (json : Codec) (is_codec : IsCodec json) (publish : Bytes → Bool)
    (now later : Time) (event : FileEvent) (bytes : Bytes) (a b : Peer Fs)
    → json.marshal (event_message now event a) ≡ some bytes
    → (process_message os json publish later bytes b).files ≡ b.files
unfolding event_message event_of_message
announcement-files {Fs = Fs} os json is_codec publish now later event bytes a b e =
    let read = is_codec.unmarshal-marshal (event_message now event a) bytes e in
    let msg = record (event_message now event a) { metadata = read.0 } in
    ap (λ (f : Peer Fs). f.files) (process_message-read os json publish later msg b bytes read.1)
    ∙ elim (text_cases a.host_id b.host_id) [
      | inl (_, own) ↦
          ap (λ (f : Peer Fs). f.files) (handle_message-own os json publish later msg b own)
      | inr (_, other) ↦
          ap (λ (f : Peer Fs). f.files)
            (handle_message-event os json publish later msg b other refl)
          ∙ handle_file_event-files later (event_of_message msg) b
    ]

-- A request for a file that cannot be read is dropped.
pub unreadable_is_not_served :
    {Fs : Type 0} (os : Os Fs) (json : Codec) (publish : Bytes → Bool) (now : Time)
    (msg : FileSyncMessage) (bytes : Bytes) (f : Peer Fs)
    → json.unmarshal bytes ≡ some msg
    → msg.type ≡ "file_request"
    → os.read_file msg.file_path f.files ≡ none
    → process_message os json publish now bytes f ≡ f
unfolding handle_file_request
unreadable_is_not_served os json publish now msg bytes f e kind gone =
    process_message-read os json publish now msg f bytes e
    ∙ elim (text_cases msg.from_peer f.host_id) [
      | inl (_, own) ↦ handle_message-own os json publish now msg f own
      | inr (_, other) ↦ handle_message-request os json publish now msg f other kind ∙ rw gone refl
    ]

module _ {Fs : Type 0} (os : Os Fs) (stat : String → Fs → Stat) (hash : Bytes → String)
    (json : Codec) (publish : Bytes → Bool) (matches : String → String → Bool)
    (base : String → String) where
  -- An event of the watcher that is followed leads to one announcement.
  pub watched-run_pending :
      (created now : Time) (w : WatchEvent) (operation : String) (e : Engine) (f : Peer Fs)
      → is_skipped base w.name ≡ false
      → operation_of w.op ≡ some operation
      → matches_file_patterns matches base e.config w.name ≡ true
      → (run_pending os stat hash json publish matches base created now
          (handle_watch_event base w e)
          f).1
        ≡ (publish_file_event json publish now
            (local_event os stat hash created w.name operation f)
            f).0
  unfolding run_pending process_file_event
  watched-run_pending created now w operation e f kept op matched =
      rw (handled base w operation e kept op) (rw matched refl)
