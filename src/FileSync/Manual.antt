-- ===== src/FileSync/Manual.antt =====
-- internal/p2p/file_sync.go, `resolveManually`: files that wait for a decision by hand.
use syncmesh.Common.{
  ◌≡◌, refl, sym, ◌∙◌, ◌≢◌, String, true, some, ◌==◌, eq_refl, eq-false, Time, lookup,
  lookup-insert, if◌then◌else◌,
}
use syncmesh.FileSync.State.{FileState, FileEvent, Peer, get_file_state}
use syncmesh.FileSync.Conflicts.{should_sync_file, has_conflict, resolve_manually, resolve_conflict}
use syncmesh.FileSync.Messages.{handle_file_event}

module _ {Fs : Type 0} where
  resolves_manually :
      (event : FileEvent) (f : Peer Fs)
      → f.config.conflict_resolution ≡ "manual"
      → resolve_conflict event f ≡ resolve_manually event f
  unfolding resolve_conflict
  resolves_manually event f manual = simp manual refl

  held :
      (now : Time) (event : FileEvent) (f : Peer Fs)
      → f.config.conflict_resolution ≡ "manual"
      → should_sync_file event f ≡ true
      → has_conflict now event f ≡ true
      → handle_file_event now event f ≡ (resolve_manually event f).1
  unfolding handle_file_event resolve_manually
  held now event f manual wanted conflict =
      rw (wanted, conflict, resolves_manually event f manual) refl

  marked :
      (path : String) (event : FileEvent) (state : FileState) (f : Peer Fs)
      → lookup event.path f.file_states ≡ some state
      → lookup path (resolve_manually event f).1.file_states ≡ (
          if event.path == path
          then some (record state { sync_status = "conflict" })
          else lookup path f.file_states)
  unfolding resolve_manually
  marked path event state f found =
      rw found
        (lookup-insert event.path path (record state { sync_status = "conflict" }) f.file_states)

  resolve_manually-requests :
      (event : FileEvent) (f : Peer Fs) → (resolve_manually event f).1.requests ≡ f.requests
  unfolding resolve_manually
  resolve_manually-requests event f = refl

  -- Under the manual strategy, an event that is to be synchronised and conflicts with the state of
  -- a known file is not followed: no request is made, the file's state is marked as in conflict and
  -- otherwise kept, and no other file's state changes.
  pub conflict_waits :
      (now : Time) (event : FileEvent) (state : FileState) (f : Peer Fs)
      → f.config.conflict_resolution ≡ "manual"
      → should_sync_file event f ≡ true
      → has_conflict now event f ≡ true
      → get_file_state event.path f ≡ some state
      → let after_it = handle_file_event now event f in
        (after_it.requests ≡ f.requests)
        × (get_file_state event.path after_it ≡ some (record state { sync_status = "conflict" }))
        × ((path : String)
            → path ≢ event.path
            → get_file_state path after_it ≡ get_file_state path f)
  unfolding get_file_state
  conflict_waits now event state f manual wanted conflict found =
      rw (held now event f manual wanted conflict) (
        resolve_manually-requests event f,
        marked event.path event state f found ∙ rw (eq_refl event.path) refl,
        λ path other.
            marked path event state f found
            ∙ rw (eq-false event.path path (λ e. other (sym e))) refl,
      )
