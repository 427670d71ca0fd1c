-- ===== src/FileSync/Conflicting.antt =====
-- internal/p2p/file_sync.go: two peers have changed the same file, and each announces its version
-- under the strategy `timestamp`.
use syncmesh.Common.{
  ◌≡◌, refl, sym, ◌∙◌, ap, ◌≢◌, String, Bool, true, some, ◌∷◌, Time, unix_time, unix_seconds, after,
  lookup, ◌==◌,
}
use syncmesh.FileSync.State.{Bytes, FileState, FileEvent, Peer, synced_state, update_from_event}
use syncmesh.FileSync.Conflicts.{is_file_in_watched_paths, resolve_conflict}
use syncmesh.FileSync.Files.{CanWrite, Os, IsFileSystem}
use syncmesh.FileSync.Messages.{Codec, IsCodec}
use syncmesh.FileSync.Decisions.{by_timestamp-known}
use syncmesh.FileSync.Exchange.{lookup-update_from_event}
use syncmesh.FileSync.Trading.{Part, IsPart, Wins, trading, traded}

module _ {Fs : Type 0} where
  later_is_preferred :
      (event : FileEvent) (state : FileState) (f : Peer Fs)
      → f.config.conflict_resolution ≡ "timestamp"
      → lookup event.path f.file_states ≡ some state
      → after event.timestamp state.mod_time ≡ true
      → resolve_conflict event f ≡ (true, f)
  unfolding resolve_conflict
  later_is_preferred event state f strategy known later =
      rw
        (
          ap (λ (s : String). s == "timestamp") strategy,
          by_timestamp-known event state f known,
          later,
        )
        refl

module _ {Fs : Type 0} (os : Os Fs) (json : Codec) (publish : Bytes → Bool) (path : String) where
  later-Wins :
      (mine other : Part) (x : Peer Fs)
      → mine.event.path ≡ path
      → x.config.conflict_resolution ≡ "timestamp"
      → after (unix_time (unix_seconds other.announced_at)) mine.event.mod_time ≡ true
      → Wins os json publish "timestamp" path mine other x
  unfolding update_from_event synced_state
  later-Wins mine other x here strategy later told same size stamp =
      let x₀ = record x { published = mine.announcement ∷ x.published } in
      later_is_preferred told (synced_state mine.announced_at mine.event)
        (update_from_event mine.announced_at mine.event x₀) strategy
        (lookup-update_from_event mine.announced_at mine.event told.path x₀ (same ∙ sym here))
        (ap (λ (t : Time). after t mine.event.mod_time) stamp ∙ later)

module _ {Fs : Type 0} (os : Os Fs) (json : Codec) (is_codec : IsCodec json)
    (publish : Bytes → Bool) (path : String) where
  -- Two peers have announced different versions of one watched file under the strategy `timestamp`,
  -- which each of them can read, each in a second that began after the other's version was last modified. If every message can be
  -- marshalled and is taken by the service, and both can write the file, then each peer gets the
  -- other's announcement, request and answer with this result: the contents have changed places, and
  -- each table of states still records the peer's own version.
  pub conflicting_files_are_swapped :
      (file_of : String → String) (is_fs : IsFileSystem os file_of) (mine other : Part)
      (a b : Peer Fs)
      → a.host_id ≢ b.host_id
      → is_file_in_watched_paths path ≡ true
      → IsPart os json publish "timestamp" path mine a
      → IsPart os json publish "timestamp" path other b
      → mine.event.checksum ≢ other.event.checksum
      → after (unix_time (unix_seconds other.announced_at)) mine.event.mod_time ≡ true
      → after (unix_time (unix_seconds mine.announced_at)) other.event.mod_time ≡ true
      → CanWrite os path other.content a.files
      → CanWrite os path mine.content b.files
      → let a₅ = trading os json publish "timestamp" path mine other a in
        let b₅ = trading os json publish "timestamp" path other mine b in
        (os.read_file path a₅.files ≡ some other.content)
        × (os.read_file path b₅.files ≡ some mine.content)
        × (lookup path a₅.file_states ≡ some (synced_state mine.announced_at mine.event))
        × (lookup path b₅.file_states ≡ some (synced_state other.announced_at other.event))
  conflicting_files_are_swapped file_of is_fs mine other a b others watched p q differs later sooner
        can_a can_b =
      let at_a =
        traded os json is_codec publish "timestamp" path file_of is_fs mine other a b
          (λ e. others (sym e)) watched p q differs
          (later-Wins os json publish path mine other a p.0 p.1 later) can_a in
      let at_b =
        traded os json is_codec publish "timestamp" path file_of is_fs other mine b a others watched
          q p (λ e. differs (sym e)) (later-Wins os json publish path other mine b q.0 q.1 sooner)
          can_b in
      (at_a.0, at_b.0, at_a.1, at_b.1)
