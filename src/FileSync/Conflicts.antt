-- ===== src/FileSync/Conflicts.antt =====
-- internal/p2p/file_sync.go: which events of other peers are followed, and the conflict strategies.
use syncmesh.Common.{
  String, Bool, true, false, none, some, List, [], ◌∷◌, ◌==◌, ◌&&◌, not, ltb_ℤ, Time, zero_time,
  seconds_before, after, lookup, insert, if◌then◌else◌, pos, starts_with, maybe,
}
use syncmesh.FileSync.State.{FileState, FileEvent, Peer}

abbrev pub watched_paths : List String
watched_paths = "/app/data" ∷ "/opt/tomcat/webapps/zenoptics/resources" ∷ []

has_prefix_in : String → List String → Bool
has_prefix_in file_path [] = false
has_prefix_in file_path (watched ∷ rest) =
    let later = has_prefix_in file_path rest in
    if starts_with file_path watched then true else later

-- `isFileInWatchedPaths`.
unfoldable pub is_file_in_watched_paths : String → Bool
unfolding has_prefix_in
is_file_in_watched_paths file_path = has_prefix_in file_path watched_paths

-- `matchesFilePatterns`.
unfoldable pub matches_file_patterns : String → Bool
matches_file_patterns file_path = true

-- The entry that `resolveManually` creates for a file that has none.
unfoldable pub blank_state : String → FileState
blank_state path = record {
  path = path;
  size = pos 0;
  mod_time = zero_time;
  checksum = "";
  last_sync = zero_time;
  sync_status = "";
  error_message = "";
}

module _ {Fs : Type 0} where
  -- `shouldSyncFile`.
  unfoldable pub should_sync_file : FileEvent → Peer Fs → Bool
  should_sync_file event f =
      if not (is_file_in_watched_paths event.path)
      then false
      else if not (matches_file_patterns event.path)
      then false
      else elim (lookup event.path f.file_states) [
        | none ↦ true
        | some state ↦ if state.checksum == event.checksum then false else true
      ]

  -- `hasConflict`.
  unfoldable pub has_conflict : Time → FileEvent → Peer Fs → Bool
  has_conflict now event f = elim (lookup event.path f.file_states) [
    | none ↦ false
    | some state ↦
        if after state.last_sync (seconds_before 5 now)
        then true
        else not (state.checksum == "")
          && not (event.checksum == "")
          && not (state.checksum == event.checksum)
  ]

  -- `resolveByTimestamp`.
  unfoldable pub resolve_by_timestamp : FileEvent → Peer Fs → Bool
  resolve_by_timestamp event f = elim (lookup event.path f.file_states) [
    | none ↦ true
    | some state ↦ after event.timestamp state.mod_time
  ]

  -- `resolveBySize`.
  unfoldable pub resolve_by_size : FileEvent → Peer Fs → Bool
  resolve_by_size event f = elim (lookup event.path f.file_states) [
    | none ↦ true
    | some state ↦ ltb_ℤ state.size event.size
  ]

  -- `resolveManually`.
  unfoldable pub resolve_manually : FileEvent → Peer Fs → Bool × Peer Fs
  resolve_manually event f =
      let state = maybe (lookup event.path f.file_states) (blank_state event.path) λ s. s in
      (
        false,
        record f {
          file_states = insert event.path (record state { sync_status = "conflict" }) f.file_states;
        },
      )

  -- `resolveConflict`.
  unfoldable pub resolve_conflict : FileEvent → Peer Fs → Bool × Peer Fs
  resolve_conflict event f =
      let strategy = f.config.conflict_resolution in
      if strategy == "timestamp"
      then (resolve_by_timestamp event f, f)
      else if strategy == "size"
      then (resolve_by_size event f, f)
      else if strategy == "manual"
      then resolve_manually event f
      else (resolve_by_timestamp event f, f)
