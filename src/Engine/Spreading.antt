-- ===== src/Engine/Spreading.antt =====
-- internal/sync/engine.go with internal/p2p/file_sync.go: how a change of a local file spreads.
use mathlib.Core.Option
use syncmesh.Common.{
  ◌≡◌, refl, ◌∙◌, ap, ◌≢◌, String, Bool, true, false, none, some, ◌∷◌, Time, lookup,
}
use syncmesh.FileSync.State.{Bytes, FileState, FileEvent, FileSyncMessage, Peer, update_from_event}
use syncmesh.FileSync.Conflicts.{is_file_in_watched_paths}
use syncmesh.FileSync.Files.{CanWrite, Os, IsFileSystem}
use syncmesh.FileSync.Messages.{
  Codec, IsCodec, event_message, request_message, response_message, publish_file_event, run_request,
  process_message,
}
use syncmesh.FileSync.Exchange.{Sends, publish_file_event-Sends}
use syncmesh.FileSync.Arrival.{file_arrives}
use syncmesh.Engine.State.{
  Engine, FileInfo, Stat, WatchEvent, is_skipped, operation_of, handle_watch_event,
}
use syncmesh.Engine.Patterns.{matches_file_patterns}
use syncmesh.Engine.Announcing.{bare_event, saved_event, run_pending}
use syncmesh.Engine.Running.{
  saved, deleted, recorded, recorded_announcement_is_ignored, announcement-files,
  unreadable_is_not_served, watched-run_pending,
}

module _ {Fs : Type 0} (os : Os Fs) (file_of : String → String) (is_fs : IsFileSystem os file_of)
    (stat : String → Fs → Stat) (hash : Bytes → String) (json : Codec) (is_codec : IsCodec json)
    (publish : Bytes → Bool) (matches : String → String → Bool) (base : String → String) where
  -- A file that is saved at a peer `a` reaches a peer `b` that knows no state of it: from the event
  -- of the watcher, that is not skipped and no deletion and passes the filter, over the
  -- announcement, the request and the answer, `b` ends with the content that the file has at `a`,
  -- which has recorded its checksum. Each message is marshalled and taken by the service, the file
  -- is there and can be read at `a`, its path is watched by `b`, and `b` can write it.
  pub saved_file_spreads :
      (t₀ t₁ t₂ t₃ t₄ t₅ : Time) (w : WatchEvent) (operation : String) (info : FileInfo)
      (announcement request reply content : Bytes) (e : Engine) (a b : Peer Fs)
      → is_skipped base w.name ≡ false
      → operation_of w.op ≡ some operation
      → operation ≢ "delete"
      → matches_file_patterns matches base e.config w.name ≡ true
      → stat w.name a.files ≡ Stat.found info
      → os.read_file w.name a.files ≡ some content
      → a.host_id ≢ b.host_id
      → is_file_in_watched_paths w.name ≡ true
      → lookup w.name b.file_states ≡ none
      → Sends json publish
          (event_message t₁ (saved_event t₀ w.name operation info (hash content) a) a)
          announcement
      → Sends json publish
          (request_message t₃ (saved_event t₀ w.name operation info (hash content) a) b)
          request
      → Sends json publish (response_message t₄ w.name content a) reply
      → CanWrite os w.name content b.files
      → let a₁ =
          (run_pending os stat hash json publish matches base t₀ t₁
            (handle_watch_event base w e)
            a).1 in
        let b₁ = process_message os json publish t₂ announcement b in
        let b₂ = run_request json publish t₃ b₁ in
        let a₂ = process_message os json publish t₄ request a₁ in
        let b₃ = process_message os json publish t₅ reply b₂ in
        (os.read_file w.name b₃.files ≡ some content)
        × (Option.map (λ (state : FileState). state.checksum) (lookup w.name a₁.file_states)
            ≡ some (hash content))
        × (a₂.published ≡ reply ∷ announcement ∷ a.published)
  unfolding saved_event bare_event
  saved_file_spreads t₀ t₁ t₂ t₃ t₄ t₅ w operation info announcement request reply content e a b
        kept op changed matched there readable others watched unknown s₁ s₂ s₃ can =
      let event = saved_event t₀ w.name operation info (hash content) a in
      let run =
        watched-run_pending os stat hash json publish matches base t₀ t₁ w operation e a kept op
          matched
        ∙ ap (λ (v : FileEvent). (publish_file_event json publish t₁ v a).0)
            (saved os stat hash t₀ w.name operation info content a changed there readable) in
      let result =
        file_arrives os json is_codec publish file_of is_fs t₁ t₂ t₃ t₄ t₅ event announcement
          request reply content a b others watched unknown readable s₁ s₂ s₃ can in
      rw run (result.3, recorded json publish t₁ event announcement a s₁, result.2)

module _ {Fs : Type 0} (os : Os Fs) (stat : String → Fs → Stat) (hash : Bytes → String)
    (json : Codec) (is_codec : IsCodec json) (publish : Bytes → Bool)
    (matches : String → String → Bool) (base : String → String) where
  -- What `b` has received, `a` does not take back: when the watcher of `b` announces the file that
  -- has arrived, a peer `a` that has recorded the checksum of the same content ignores it.
  pub arrived_file_is_not_sent_back :
      (t₀ t₁ t₂ : Time) (w : WatchEvent) (operation : String) (info : FileInfo)
      (announcement content : Bytes) (state : FileState) (e : Engine) (a b : Peer Fs)
      → is_skipped base w.name ≡ false
      → operation_of w.op ≡ some operation
      → operation ≢ "delete"
      → matches_file_patterns matches base e.config w.name ≡ true
      → stat w.name b.files ≡ Stat.found info
      → os.read_file w.name b.files ≡ some content
      → lookup w.name a.file_states ≡ some state
      → state.checksum ≡ hash content
      → Sends json publish
          (event_message t₁ (saved_event t₀ w.name operation info (hash content) b) b)
          announcement
      → ((run_pending os stat hash json publish matches base t₀ t₁
            (handle_watch_event base w e)
            b).1.published
          ≡ announcement ∷ b.published)
        × (process_message os json publish t₂ announcement a ≡ a)
  unfolding saved_event bare_event update_from_event
  arrived_file_is_not_sent_back t₀ t₁ t₂ w operation info announcement content state e a b kept op
        changed matched there readable known same s =
      let event = saved_event t₀ w.name operation info (hash content) b in
      let run =
        watched-run_pending os stat hash json publish matches base t₀ t₁ w operation e b kept op
          matched
        ∙ ap (λ (v : FileEvent). (publish_file_event json publish t₁ v b).0)
            (saved os stat hash t₀ w.name operation info content b changed there readable) in
      rw (run, publish_file_event-Sends json publish t₁ event announcement b s)
        (
          refl,
          recorded_announcement_is_ignored os json is_codec publish t₁ t₂ event announcement state a
              b s.0 known same,
        )

  -- A deletion does not spread: when the watcher of `a` sees that a file is gone, its announcement
  -- changes no file of any peer `b` that reads it, and a request for the file, that `b` may send in
  -- return, makes `a` do nothing.
  pub deletion_does_not_spread :
      (t₀ t₁ t₂ t₃ : Time) (w : WatchEvent) (announcement request : Bytes) (msg : FileSyncMessage)
      (e : Engine) (a b : Peer Fs)
      → is_skipped base w.name ≡ false
      → operation_of w.op ≡ some "delete"
      → matches_file_patterns matches base e.config w.name ≡ true
      → os.read_file w.name a.files ≡ none
      → Sends json publish (event_message t₁ (bare_event t₀ w.name "delete" a) a) announcement
      → json.unmarshal request ≡ some msg
      → msg.type ≡ "file_request"
      → msg.file_path ≡ w.name
      → let a₁ =
          (run_pending os stat hash json publish matches base t₀ t₁
            (handle_watch_event base w e)
            a).1 in
        (a₁.published ≡ announcement ∷ a.published)
        × ((process_message os json publish t₂ announcement b).files ≡ b.files)
        × (process_message os json publish t₃ request a₁ ≡ a₁)
  unfolding update_from_event
  deletion_does_not_spread t₀ t₁ t₂ t₃ w announcement request msg e a b kept op matched gone s read
        kind named =
      let event = bare_event t₀ w.name "delete" a in
      let run =
        watched-run_pending os stat hash json publish matches base t₀ t₁ w "delete" e a kept op
          matched
        ∙ ap (λ (v : FileEvent). (publish_file_event json publish t₁ v a).0)
            (deleted os stat hash t₀ w.name a) in
      rw (run, publish_file_event-Sends json publish t₁ event announcement a s)
        (
          refl,
          announcement-files os json is_codec publish t₁ t₂ event announcement a b s.0,
          unreadable_is_not_served os json publish t₃ msg request _ read kind (rw named gone),
        )
