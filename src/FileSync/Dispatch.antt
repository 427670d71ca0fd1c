-- ===== src/FileSync/Dispatch.antt =====
-- internal/p2p/file_sync.go, `processMessage`: the handler of each type of message.
use syncmesh.Common.{◌≡◌, refl, ◌≢◌, String, Bool, some, ◌==◌, eq_iff, eq-false, Time, ap}
use syncmesh.FileSync.State.{Bytes, FileSyncMessage, Peer}
use syncmesh.FileSync.Files.{Os}
use syncmesh.FileSync.Messages.{
  Codec, event_of_message, handle_file_event, handle_file_request, handle_file_response,
  handle_message, process_message,
}

module _ {Fs : Type 0} (os : Os Fs) (json : Codec) (publish : Bytes → Bool) (now : Time)
    (msg : FileSyncMessage) (f : Peer Fs) where
  pub handle_message-own : msg.from_peer ≡ f.host_id → handle_message os json publish now msg f ≡ f
  unfolding handle_message
  handle_message-own own = rw ((eq_iff msg.from_peer f.host_id).1 own) refl

  pub handle_message-event :
      msg.from_peer ≢ f.host_id
      → msg.type ≡ "file_event"
      → handle_message os json publish now msg f ≡ handle_file_event now (event_of_message msg) f
  unfolding handle_message
  handle_message-event other kind =
      rw (eq-false msg.from_peer f.host_id other, ap (λ (s : String). s == "file_event") kind) refl

  pub handle_message-request :
      msg.from_peer ≢ f.host_id
      → msg.type ≡ "file_request"
      → handle_message os json publish now msg f ≡ handle_file_request os json publish now msg f
  unfolding handle_message
  handle_message-request other kind =
      rw
        (
          eq-false msg.from_peer f.host_id other,
          ap (λ (s : String). s == "file_event") kind,
          ap (λ (s : String). s == "file_request") kind,
        )
        refl

  pub handle_message-response :
      msg.from_peer ≢ f.host_id
      → msg.type ≡ "file_response"
      → handle_message os json publish now msg f ≡ handle_file_response os msg f
  unfolding handle_message
  handle_message-response other kind =
      rw
        (
          eq-false msg.from_peer f.host_id other,
          ap (λ (s : String). s == "file_event") kind,
          ap (λ (s : String). s == "file_request") kind,
          ap (λ (s : String). s == "file_response") kind,
        )
        refl

  pub process_message-read :
      (bytes : Bytes)
      → json.unmarshal bytes ≡ some msg
      → process_message os json publish now bytes f ≡ handle_message os json publish now msg f
  unfolding process_message
  process_message-read bytes e = rw e refl
