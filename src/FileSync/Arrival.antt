-- ===== src/FileSync/Arrival.antt =====
-- internal/p2p/file_sync.go: a file gets from the peer that announces it to one that has none.
use syncmesh.Common.{
  ◌≡◌, refl, sym, ◌∙◌, ap, ◌≢◌, String, Bool, true, Option, none, some, ◌∷◌, Time, unix_seconds,
  lookup, unix_time,
}
use syncmesh.FileSync.State.{
  Bytes, FileEvent, FileSyncMessage, empty_message, Peer, update_from_event,
}
use syncmesh.FileSync.Conflicts.{is_file_in_watched_paths}
use syncmesh.FileSync.Files.{CanWrite, Os, IsFileSystem}
use syncmesh.FileSync.Messages.{
  Codec, IsCodec, send, event_message, request_message, response_message, event_of_message,
  publish_file_event, request_file_from_peer, run_request, handle_file_event, process_message,
  PublishError,
}
use syncmesh.FileSync.Dispatch.{handle_message-event, handle_message-request, process_message-read}
use syncmesh.FileSync.Writes.{response_is_written}
use syncmesh.FileSync.Exchange.{
  Sends, send-Sends, publish_file_event-Sends, answered, unknown_is_requested,
}

module _ {Fs : Type 0} (os : Os Fs) (json : Codec) (is_codec : IsCodec json)
    (publish : Bytes → Bool) where
  -- The event that the announcement is read as.
  pub told_event :
      (sent_at now : Time) (event : FileEvent) (bytes : Bytes) (a b : Peer Fs)
      → a.host_id ≢ b.host_id
      → json.marshal (event_message sent_at event a) ≡ some bytes
      → (told : FileEvent) × (told.path ≡ event.path)
        × (told.checksum ≡ event.checksum)
        × (told.size ≡ event.size)
        × (told.timestamp ≡ unix_time (unix_seconds sent_at))
        × (process_message os json publish now bytes b ≡ handle_file_event now told b)
  unfolding event_message event_of_message
  told_event sent_at now event bytes a b others e =
      let read = is_codec.unmarshal-marshal (event_message sent_at event a) bytes e in
      let msg = record (event_message sent_at event a) { metadata = read.0 } in
      (
        event_of_message msg,
        refl,
        refl,
        refl,
        refl,
        process_message-read os json publish now msg b bytes read.1
            ∙ handle_message-event os json publish now msg b others refl,
      )

  -- The announcement arrives.
  announced :
      (sent_at now : Time) (event : FileEvent) (bytes : Bytes) (a b : Peer Fs)
      → a.host_id ≢ b.host_id
      → json.marshal (event_message sent_at event a) ≡ some bytes
      → is_file_in_watched_paths event.path ≡ true
      → lookup event.path b.file_states ≡ none
      → (told : FileEvent) × (told.path ≡ event.path)
        × (process_message os json publish now bytes b ≡ record b { requests = told ∷ b.requests })
  announced sent_at now event bytes a b others e watched unknown =
      let (told, same, _, _, _, read) = told_event sent_at now event bytes a b others e in
      (
        told,
        same,
        read
            ∙ unknown_is_requested now told b
                (ap (λ (p : String). is_file_in_watched_paths p) same ∙ watched)
                (ap (λ (p : String). lookup p b.file_states) same ∙ unknown),
      )

  same_request :
      (now : Time) (told event : FileEvent) (b : Peer Fs)
      → told.path ≡ event.path
      → request_message now told b ≡ request_message now event b
  unfolding request_message
  same_request now told event b same =
      ap
        (λ (path : String). record empty_message {
          type = "file_request";
          file_path = path;
          timestamp = unix_seconds now;
          from_peer = b.host_id;
        })
        same

  -- The request goes out.
  pub requested :
      (now : Time) (told event : FileEvent) (bytes : Bytes) (b : Peer Fs)
      → told.path ≡ event.path
      → Sends json publish (request_message now event b) bytes
      → run_request json publish now (record b { requests = told ∷ b.requests })
        ≡ record b { published = bytes ∷ b.published }
  unfolding run_request request_file_from_peer
  requested now told event bytes b same s =
      ap (λ (msg : FileSyncMessage). (send json publish msg b).0)
        (same_request now told event b same)
      ∙ ap (λ (r : Peer Fs × Option PublishError). r.0)
          (send-Sends json publish (request_message now event b) bytes b s)

  -- The request arrives, and the answer goes out.
  pub replied :
      (sent_at now : Time) (told : FileEvent) (bytes reply_bytes content : Bytes) (a b : Peer Fs)
      → b.host_id ≢ a.host_id
      → json.marshal (request_message sent_at told b) ≡ some bytes
      → os.read_file told.path a.files ≡ some content
      → Sends json publish (response_message now told.path content a) reply_bytes
      → process_message os json publish now bytes a
        ≡ record a { published = reply_bytes ∷ a.published }
  unfolding request_message
  replied sent_at now told bytes reply_bytes content a b others e found s =
      let read = is_codec.unmarshal-marshal (request_message sent_at told b) bytes e in
      let msg = record (request_message sent_at told b) { metadata = read.0 } in
      process_message-read os json publish now msg a bytes read.1
      ∙ handle_message-request os json publish now msg a others refl
      ∙ answered os json publish now msg content reply_bytes a found s

  -- The answer arrives.
  pub received :
      (file_of : String → String) (is_fs : IsFileSystem os file_of) (sent_at now : Time)
      (path : String) (bytes content : Bytes) (a b : Peer Fs)
      → a.host_id ≢ b.host_id
      → json.marshal (response_message sent_at path content a) ≡ some bytes
      → CanWrite os path content b.files
      → let after_it = process_message os json publish now bytes b in
        (os.read_file path after_it.files ≡ some content) × (after_it.file_states ≡ b.file_states)
  unfolding response_message
  received file_of is_fs sent_at now path bytes content a b others e can =
      let read = is_codec.unmarshal-marshal (response_message sent_at path content a) bytes e in
      response_is_written os file_of is_fs json publish now bytes
        (record (response_message sent_at path content a) { metadata = read.0 }) b read.1 others
        refl can

  -- A peer `a` announces a change of a watched file that it can read, and `b`, which knows no state
  -- of that file, gets the announcement, sends the request, and gets the answer. If each message can
  -- be marshalled and is taken by the service, and `b` can write the file, then it has the content
  -- that `a` had. No state is recorded for the file at `b`.
  pub file_arrives :
      (file_of : String → String) (is_fs : IsFileSystem os file_of) (t₁ t₂ t₃ t₄ t₅ : Time)
      (event : FileEvent) (announcement request reply content : Bytes) (a b : Peer Fs)
      → a.host_id ≢ b.host_id
      → is_file_in_watched_paths event.path ≡ true
      → lookup event.path b.file_states ≡ none
      → os.read_file event.path a.files ≡ some content
      → Sends json publish (event_message t₁ event a) announcement
      → Sends json publish (request_message t₃ event b) request
      → Sends json publish (response_message t₄ event.path content a) reply
      → CanWrite os event.path content b.files
      → let a₁ = (publish_file_event json publish t₁ event a).0 in
        let b₁ = process_message os json publish t₂ announcement b in
        let b₂ = run_request json publish t₃ b₁ in
        let a₂ = process_message os json publish t₄ request a₁ in
        let b₃ = process_message os json publish t₅ reply b₂ in
        (a₁.published ≡ announcement ∷ a.published)
        × (b₂.published ≡ request ∷ b.published)
        × (a₂.published ≡ reply ∷ announcement ∷ a.published)
        × (os.read_file event.path b₃.files ≡ some content)
        × (lookup event.path b₃.file_states ≡ none)
  unfolding update_from_event response_message
  file_arrives file_of is_fs t₁ t₂ t₃ t₄ t₅ event announcement request reply content a b others
        watched unknown found s₁ s₂ s₃ can =
      let told = announced t₁ t₂ event announcement a b others s₁.0 watched unknown in
      let a₁ = update_from_event t₁ event (record a { published = announcement ∷ a.published }) in
      let b₂ = record b { published = request ∷ b.published } in
      let answer =
        replied t₃ t₄ event request reply content a₁ b (λ e. others (sym e)) s₂.0 found s₃ in
      let result = received file_of is_fs t₄ t₅ event.path reply content a b₂ others s₃.0 can in
      rw
        (
          told.2,
          requested t₃ told.0 event request b told.1 s₂,
          publish_file_event-Sends json publish t₁ event announcement a s₁,
        )
        (
          refl,
          refl,
          ap (λ (r : Peer Fs). r.published) answer,
          result.0,
          ap (lookup event.path) result.1 ∙ unknown,
        )
