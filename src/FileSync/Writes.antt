-- ===== src/FileSync/Writes.antt =====
-- internal/p2p/file_sync.go: what the messages of other peers do to this peer's files.
use syncmesh.Common.{
  ◌≡◌, refl, ◌∙◌, ◌≢◌, String, Bool, Option, none, some, ◌==◌, Time, arith, if_elim, maybe_elim,
  text_cases, ◌⊎◌, inl, inr, Option-cases,
}
use syncmesh.FileSync.State.{Bytes, FileEvent, FileSyncMessage, Peer}
use syncmesh.FileSync.Conflicts.{resolve_manually, resolve_conflict}
use syncmesh.FileSync.Files.{CanWrite, FileError, Os, IsFileSystem, create_or_modify_file}
use syncmesh.FileSync.Messages.{
  Codec, PublishError, process_message, send, response_message, response_event, event_of_message,
  handle_file_event, handle_file_request, handle_file_response, handle_message,
}
use syncmesh.FileSync.Dispatch.{handle_message-response, process_message-read}

module _ {Fs : Type 0} where
  pub handle_file_event-files :
      (now : Time) (event : FileEvent) (f : Peer Fs)
      → (handle_file_event now event f).files ≡ f.files
  unfolding handle_file_event resolve_conflict resolve_manually
  handle_file_event-files now event f = ground arith

module _ {Fs : Type 0} (os : Os Fs) (file_of : String → String)
    (is_fs : IsFileSystem os file_of) where
  -- Writing a file, if its steps succeed, leaves the given content, and reports no error.
  pub create_or_modify_file-read_file :
      (event : FileEvent) (bytes : Bytes) (fs : Fs)
      → CanWrite os event.path bytes fs
      → let after_it = create_or_modify_file os event bytes fs in
        (after_it.1 ≡ none) × (os.read_file event.path after_it.0 ≡ some bytes)
  unfolding create_or_modify_file
  create_or_modify_file-read_file event bytes fs (made, created, written) =
      rw (made, created, written)
        (refl, is_fs.create-write-read_file event.path bytes _ created written)

  -- Writing a file changes the content of no other file, whether it succeeds or not.
  pub create_or_modify_file-others :
      (event : FileEvent) (bytes : Bytes) (fs : Fs) (q : String)
      → file_of event.path ≢ file_of q
      → os.read_file q (create_or_modify_file os event bytes fs).0 ≡ os.read_file q fs
  unfolding create_or_modify_file
  create_or_modify_file-others event bytes fs q other =
      if_elim P made.1 _ _
        (λ _.
          if_elim P created.1 _ _ (λ _. if_elim P written.1 _ _ (λ _. all_three) (λ _. all_three))
            (λ _. first_two))
        (λ _. first)
    where
      made : Fs × Bool
      made = os.mkdir_all (os.dir event.path) fs

      created : Fs × Bool
      created = os.create event.path made.0

      written : Fs × Bool
      written = os.write event.path bytes created.0

      P : Fs × Option FileError → Type 0
      P r = os.read_file q r.0 ≡ os.read_file q fs

      first : os.read_file q made.0 ≡ os.read_file q fs
      first = is_fs.mkdir_all-read_file (os.dir event.path) q fs

      first_two : os.read_file q created.0 ≡ os.read_file q fs
      first_two = is_fs.create-read_file event.path q made.0 other ∙ first

      all_three : os.read_file q written.0 ≡ os.read_file q fs
      all_three = is_fs.write-read_file event.path q bytes created.0 other ∙ first_two

  -- A response of another peer is written whatever file it names, if the file system can write it: it need not answer a request, nor
  -- stand under a watched path. The table of file states does not change.
  pub response_is_written :
      (json : Codec) (publish : Bytes → Bool) (now : Time) (bytes : Bytes) (msg : FileSyncMessage)
      (f : Peer Fs)
      → json.unmarshal bytes ≡ some msg
      → msg.from_peer ≢ f.host_id
      → msg.type ≡ "file_response"
      → CanWrite os msg.file_path msg.file_data f.files
      → let after_it = process_message os json publish now bytes f in
        (os.read_file msg.file_path after_it.files ≡ some msg.file_data)
        × (after_it.file_states ≡ f.file_states)
  unfolding handle_file_response response_event
  response_is_written json publish now bytes msg f e other kind can =
      rw
        (
          process_message-read os json publish now msg f bytes e,
          handle_message-response os json publish now msg f other kind,
        )
        ((create_or_modify_file-read_file (response_event msg) msg.file_data f.files can).1, refl)

  send-files :
      (json : Codec) (publish : Bytes → Bool) (msg : FileSyncMessage) (f : Peer Fs)
      → (send json publish msg f).0.files ≡ f.files
  unfolding send
  send-files json publish msg f =
      maybe_elim P (json.marshal msg) _ _ refl
        λ bytes _. if_elim P (publish bytes) _ _ (λ _. refl) (λ _. refl)
    where
      P : Peer Fs × Option PublishError → Type 0
      P r = r.0.files ≡ f.files

  handle_file_request-files :
      (json : Codec) (publish : Bytes → Bool) (now : Time) (msg : FileSyncMessage) (f : Peer Fs)
      → (handle_file_request os json publish now msg f).files ≡ f.files
  unfolding handle_file_request
  handle_file_request-files json publish now msg f =
      maybe_elim (λ (r : Peer Fs). r.files ≡ f.files) (os.read_file msg.file_path f.files) f _ refl
        λ content _. send-files json publish (response_message now msg.file_path content f) f

  Untouched : Peer Fs → Peer Fs → Type 0
  Untouched f r = r.files ≡ f.files

  handle_message-cases :
      (json : Codec) (publish : Bytes → Bool) (now : Time) (msg : FileSyncMessage) (f : Peer Fs)
      → Untouched f (handle_message os json publish now msg f)
        ⊎ (msg.from_peer ≢ f.host_id) × (msg.type ≡ "file_response")
  unfolding handle_message Untouched
  handle_message-cases json publish now msg f = elim (text_cases msg.type "file_response") [
    | inl (t, kind) ↦ elim (text_cases msg.from_peer f.host_id) [
      | inl (u, own) ↦ inl (rw u refl)
      | inr (u, other) ↦ inr (other, kind)
    ]
    | inr (t, _) ↦ inl (
        if_elim (Untouched f) (msg.from_peer == f.host_id) _ _ (λ _. refl)
          (λ _.
            if_elim (Untouched f) (msg.type == "file_event") _ _
              (λ _. handle_file_event-files now (event_of_message msg) f)
              (λ _.
                if_elim (Untouched f) (msg.type == "file_request") _ _
                  (λ _. handle_file_request-files json publish now msg f) (λ _. rw t refl))))
  ]

  -- A message changes a file's content only if it is a response of another peer that names the file.
  pub only_responses_write :
      (json : Codec) (publish : Bytes → Bool) (now : Time) (bytes : Bytes) (f : Peer Fs)
      (q : String)
      → (os.read_file q (process_message os json publish now bytes f).files
          ≡ os.read_file q f.files)
        ⊎ ((msg : FileSyncMessage) × (json.unmarshal bytes ≡ some msg)
            × (msg.from_peer ≢ f.host_id)
            × (msg.type ≡ "file_response")
            × (file_of msg.file_path ≡ file_of q))
  unfolding handle_file_response response_event Untouched process_message
  only_responses_write json publish now bytes f q = elim (Option-cases (json.unmarshal bytes)) [
    | inl e ↦ inl (rw e refl)
    | inr (msg, e) ↦ elim (handle_message-cases json publish now msg f) [
      | inl same ↦ inl (rw (e, same) refl)
      | inr (other, kind) ↦ elim (text_cases (file_of msg.file_path) (file_of q)) [
        | inl (_, names) ↦ inr (msg, e, other, kind, names)
        | inr (_, differs) ↦ inl (
            rw (e, handle_message-response os json publish now msg f other kind)
              (create_or_modify_file-others (response_event msg) msg.file_data f.files q differs))
      ]
    ]
  ]
