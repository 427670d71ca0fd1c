-- ===== src/FileSync/Exchange.antt =====
-- internal/p2p/file_sync.go: the three messages by which a file gets from one peer to another.
use syncmesh.Common.{
  ◌≡◌, refl, sym, ◌∙◌, ap, ◌≢◌, String, Bool, true, false, Option, none, some, ◌∷◌, eq_iff, Time,
  lookup, lookup-insert, if_elim, not,
}
use syncmesh.FileSync.State.{
  Bytes, FileState, FileEvent, FileSyncMessage, Peer, update_from_event, synced_state,
}
use syncmesh.FileSync.Conflicts.{
  is_file_in_watched_paths, matches_file_patterns, should_sync_file, has_conflict,
}
use syncmesh.FileSync.Files.{Os}
use syncmesh.FileSync.Messages.{
  Codec, IsCodec, send, event_message, response_message, publish_file_event, handle_file_event,
  handle_file_request, process_message, PublishError,
}
use syncmesh.FileSync.Dispatch.{handle_message-own, handle_message-request, process_message-read}

module _ {Fs : Type 0} where
  pub recorded_is_not_wanted :
      (event : FileEvent) (state : FileState) (f : Peer Fs)
      → lookup event.path f.file_states ≡ some state
      → state.checksum ≡ event.checksum
      → should_sync_file event f ≡ false
  unfolding should_sync_file
  recorded_is_not_wanted event state f found same =
      if_elim (λ r. r ≡ false) (not (is_file_in_watched_paths event.path)) _ _ (λ _. refl)
        (λ _.
          if_elim (λ r. r ≡ false) (not (matches_file_patterns event.path)) _ _ (λ _. refl)
            (λ _. rw (found, (eq_iff state.checksum event.checksum).1 same) refl))

  pub lookup-update_from_event :
      (now : Time) (event : FileEvent) (path : String) (f : Peer Fs)
      → path ≡ event.path
      → lookup path (update_from_event now event f).file_states ≡ some (synced_state now event)
  unfolding update_from_event
  lookup-update_from_event now event path f e =
      lookup-insert event.path path (synced_state now event) f.file_states
      ∙ rw ((eq_iff event.path path).1 (sym e)) refl

  unknown_is_wanted :
      (event : FileEvent) (f : Peer Fs)
      → is_file_in_watched_paths event.path ≡ true
      → lookup event.path f.file_states ≡ none
      → should_sync_file event f ≡ true
  unfolding should_sync_file matches_file_patterns
  unknown_is_wanted event f watched unknown = rw watched (rw unknown refl)

  unknown_is_clear :
      (now : Time) (event : FileEvent) (f : Peer Fs)
      → lookup event.path f.file_states ≡ none
      → has_conflict now event f ≡ false
  unfolding has_conflict
  unknown_is_clear now event f unknown = rw (unknown, has_conflict) refl

  pub unknown_is_requested :
      (now : Time) (event : FileEvent) (f : Peer Fs)
      → is_file_in_watched_paths event.path ≡ true
      → lookup event.path f.file_states ≡ none
      → handle_file_event now event f ≡ record f { requests = event ∷ f.requests }
  unfolding handle_file_event
  unknown_is_requested now event f watched unknown =
      rw (unknown_is_wanted event f watched unknown, unknown_is_clear now event f unknown) refl

module _ (json : Codec) (publish : Bytes → Bool) where
  -- The message can be marshalled, and the service takes it.
  abbrev pub Sends : FileSyncMessage → Bytes → Type 0
  Sends msg bytes = (json.marshal msg ≡ some bytes) × (publish bytes ≡ true)

module _ {Fs : Type 0} (json : Codec) (publish : Bytes → Bool) where
  pub send-Sends :
      (msg : FileSyncMessage) (bytes : Bytes) (f : Peer Fs)
      → Sends json publish msg bytes
      → send json publish msg f ≡ (record f { published = bytes ∷ f.published }, none)
  unfolding send
  send-Sends msg bytes f (e, taken) = rw e (rw taken refl)

  pub publish_file_event-Sends :
      (now : Time) (event : FileEvent) (bytes : Bytes) (f : Peer Fs)
      → Sends json publish (event_message now event f) bytes
      → publish_file_event json publish now event f
        ≡ (update_from_event now event (record f { published = bytes ∷ f.published }), none)
  unfolding publish_file_event
  publish_file_event-Sends now event bytes f s =
      rw (send-Sends (event_message now event f) bytes f s) refl

  pub known-is_ignored :
      (now : Time) (event : FileEvent) (f : Peer Fs)
      → should_sync_file event f ≡ false
      → handle_file_event now event f ≡ f
  unfolding handle_file_event
  known-is_ignored now event f e = rw e refl

  -- After a peer has published a change that could be marshalled and was taken by the service, it ignores every later event for the same path with the
  -- same checksum, whoever sends it.
  pub echo_is_ignored :
      (now later : Time) (event echo : FileEvent) (bytes : Bytes) (f : Peer Fs)
      → Sends json publish (event_message now event f) bytes
      → echo.path ≡ event.path
      → echo.checksum ≡ event.checksum
      → let after_it = (publish_file_event json publish now event f).0 in
        handle_file_event later echo after_it ≡ after_it
  unfolding synced_state
  echo_is_ignored now later event echo bytes f s path checksum =
      rw (publish_file_event-Sends now event bytes f s) (
        known-is_ignored later echo _ (
          recorded_is_not_wanted echo (synced_state now event) _
            (lookup-update_from_event now event echo.path _ path) (sym checksum)))

module _ {Fs : Type 0} (os : Os Fs) (json : Codec) (publish : Bytes → Bool) where
  pub answered :
      (now : Time) (msg : FileSyncMessage) (content bytes : Bytes) (f : Peer Fs)
      → os.read_file msg.file_path f.files ≡ some content
      → Sends json publish (response_message now msg.file_path content f) bytes
      → handle_file_request os json publish now msg f ≡ record f { published = bytes ∷ f.published }
  unfolding handle_file_request
  answered now msg content bytes f found s = rw found (
      ap (λ (r : Peer Fs × Option PublishError). r.0)
        (send-Sends json publish (response_message now msg.file_path content f) bytes f s))

module _ {Fs : Type 0} (os : Os Fs) (json : Codec) (is_codec : IsCodec json)
    (publish : Bytes → Bool) where
  -- A peer that reads its own announcement of a change does nothing.
  pub own_announcement_is_ignored :
      (now later : Time) (event : FileEvent) (bytes : Bytes) (f g : Peer Fs)
      → json.marshal (event_message now event f) ≡ some bytes
      → g.host_id ≡ f.host_id
      → process_message os json publish later bytes g ≡ g
  unfolding event_message
  own_announcement_is_ignored now later event bytes f g e same =
      let read = is_codec.unmarshal-marshal (event_message now event f) bytes e in
      process_message-read os json publish later
        (record (event_message now event f) { metadata = read.0 }) g bytes read.1
      ∙ handle_message-own os json publish later _ g (sym same)

  -- A request of another peer for any file that this one can read is answered with its content, if
  -- the answer can be marshalled and is taken by the service; the
  -- path need not be watched.
  pub readable_file_is_served :
      (now : Time) (bytes reply_bytes content : Bytes) (msg : FileSyncMessage) (f : Peer Fs)
      → json.unmarshal bytes ≡ some msg
      → msg.from_peer ≢ f.host_id
      → msg.type ≡ "file_request"
      → os.read_file msg.file_path f.files ≡ some content
      → Sends json publish (response_message now msg.file_path content f) reply_bytes
      → let after_it = process_message os json publish now bytes f in
        (after_it.published ≡ reply_bytes ∷ f.published)
        × ((reply : FileSyncMessage) × (json.unmarshal reply_bytes ≡ some reply)
            × (reply.type ≡ "file_response")
            × (reply.file_path ≡ msg.file_path)
            × (reply.file_data ≡ content))
  unfolding response_message
  readable_file_is_served now bytes reply_bytes content msg f e other kind found s =
      let read =
        is_codec.unmarshal-marshal (response_message now msg.file_path content f) reply_bytes s.0 in
      rw
        (
          process_message-read os json publish now msg f bytes e,
          handle_message-request os json publish now msg f other kind,
          answered os json publish now msg content reply_bytes f found s,
        )
        (refl, (_, read.1, refl, refl, refl))
