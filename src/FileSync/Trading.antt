-- ===== src/FileSync/Trading.antt =====
-- internal/p2p/file_sync.go: two peers have changed the same file, and each announces its version: what
-- comes to a peer that prefers the other's.
use syncmesh.Common.{
  ◌≡◌, refl, sym, ◌∙◌, ap, subst, ◌≢◌, String, Bool, true, Option, some, ◌∷◌, Time, unix_time,
  unix_seconds, lookup, eq-false, if_elim, if◌then◌else◌,
}
use syncmesh.FileSync.State.{Bytes, FileState, FileEvent, Peer, synced_state, update_from_event}
use syncmesh.FileSync.Conflicts.{
  is_file_in_watched_paths, matches_file_patterns, should_sync_file, has_conflict, resolve_conflict,
}
use syncmesh.FileSync.Files.{CanWrite, Os, IsFileSystem}
use syncmesh.FileSync.Messages.{
  Codec, IsCodec, event_message, request_message, response_message, publish_file_event,
  handle_file_event, run_request, process_message, PublishError,
}
use syncmesh.FileSync.Exchange.{Sends, publish_file_event-Sends, lookup-update_from_event}
use syncmesh.FileSync.Arrival.{told_event, requested, replied, received}

-- What one of the two peers announces and sends, its file's content, and when it acts.
pub record Part : Type 0 where
  pub event : FileEvent
  pub content : Bytes
  pub announcement : Bytes
  pub request : Bytes
  pub reply : Bytes
  pub announced_at : Time
  pub heard_at : Time
  pub asked_at : Time
  pub answered_at : Time
  pub written_at : Time

module _ {Fs : Type 0} where
  pub differing_is_wanted :
      (event : FileEvent) (state : FileState) (f : Peer Fs)
      → is_file_in_watched_paths event.path ≡ true
      → lookup event.path f.file_states ≡ some state
      → state.checksum ≢ event.checksum
      → should_sync_file event f ≡ true
  unfolding should_sync_file matches_file_patterns
  differing_is_wanted event state f watched known differs =
      rw watched (rw known (rw (eq-false state.checksum event.checksum differs) refl))

  preferred_is_requested :
      (now : Time) (event : FileEvent) (state : FileState) (f : Peer Fs)
      → is_file_in_watched_paths event.path ≡ true
      → lookup event.path f.file_states ≡ some state
      → state.checksum ≢ event.checksum
      → resolve_conflict event f ≡ (true, f)
      → handle_file_event now event f ≡ record f { requests = event ∷ f.requests }
  unfolding handle_file_event
  preferred_is_requested now event state f watched known differs wins =
      rw (differing_is_wanted event state f watched known differs, wins)
        (if_elim
          (λ (r : Bool × Peer Fs).
            (if r.0 then record r.1 { requests = event ∷ r.1.requests } else r.1)
            ≡ record f { requests = event ∷ f.requests })
          (has_conflict now event f) _ _ (λ _. refl) (λ _. refl))

module _ {Fs : Type 0} (os : Os Fs) (json : Codec) (publish : Bytes → Bool)
    (strategy path : String) where
  -- What the peer `x` sends for its part, and what it has.
  abbrev pub IsPart : Part → Peer Fs → Type 0
  IsPart mine x =
      (mine.event.path ≡ path)
      × (x.config.conflict_resolution ≡ strategy)
      × Sends json publish (event_message mine.announced_at mine.event x) mine.announcement
      × Sends json publish (request_message mine.asked_at mine.event x) mine.request
      × Sends json publish (response_message mine.answered_at path mine.content x) mine.reply
      × (os.read_file path x.files ≡ some mine.content)

  -- `x` announces its version and gets the other's announcement, request and answer.
  abbrev pub announcing : Part → Peer Fs → Peer Fs
  announcing mine x = (publish_file_event json publish mine.announced_at mine.event x).0

  abbrev pub asking : Part → Part → Peer Fs → Peer Fs
  asking mine other x =
      run_request json publish mine.asked_at
        (process_message os json publish mine.heard_at other.announcement (announcing mine x))

  abbrev pub trading : Part → Part → Peer Fs → Peer Fs
  trading mine other x =
      process_message os json publish mine.written_at other.reply
        (process_message os json publish mine.answered_at other.request (asking mine other x))

  -- The strategy prefers what the other peer announces, once `x` has announced its own version.
  abbrev pub Wins : Part → Part → Peer Fs → Type 0
  Wins mine other x =
      (told : FileEvent)
      → told.path ≡ path
      → told.size ≡ other.event.size
      → told.timestamp ≡ unix_time (unix_seconds other.announced_at)
      → let x₁ =
          update_from_event mine.announced_at mine.event
            (record x { published = mine.announcement ∷ x.published }) in
        resolve_conflict told x₁ ≡ (true, x₁)

module _ {Fs : Type 0} (os : Os Fs) (json : Codec) (is_codec : IsCodec json)
    (publish : Bytes → Bool) (strategy path : String) where
  pub asked :
      (mine other : Part) (x y : Peer Fs)
      → y.host_id ≢ x.host_id
      → is_file_in_watched_paths path ≡ true
      → IsPart os json publish strategy path mine x
      → IsPart os json publish strategy path other y
      → mine.event.checksum ≢ other.event.checksum
      → Wins os json publish strategy path mine other x
      → asking os json publish strategy path mine other x ≡ record x {
        published = mine.request ∷ mine.announcement ∷ x.published;
        file_states = (update_from_event mine.announced_at mine.event x).file_states;
      }
  unfolding update_from_event synced_state request_message
  asked mine other x y others watched (here, _, s₁, s₂, _, _) (there, _, r₁, _, _, _) differs wins =
      let x₀ = record x { published = mine.announcement ∷ x.published } in
      let x₁ = update_from_event mine.announced_at mine.event x₀ in
      let (told, same, sum, size, stamp, heard) =
        told_event os json is_codec publish other.announced_at mine.heard_at other.event
          other.announcement y x₁ others r₁.0 in
      let here_too : told.path ≡ mine.event.path = same ∙ there ∙ sym here in
      let wanted =
        preferred_is_requested mine.heard_at told (synced_state mine.announced_at mine.event) x₁
          (ap (λ (p : String). is_file_in_watched_paths p) (same ∙ there) ∙ watched)
          (lookup-update_from_event mine.announced_at mine.event told.path x₀ here_too)
          (λ e. differs (e ∙ sum)) (wins told (same ∙ there) size stamp) in
      ap
        (λ (r : Peer Fs × Option PublishError).
          run_request json publish mine.asked_at
            (process_message os json publish mine.heard_at other.announcement r.0))
        (publish_file_event-Sends json publish mine.announced_at mine.event mine.announcement x s₁)
      ∙ ap (λ (r : Peer Fs). run_request json publish mine.asked_at r) (heard ∙ wanted)
      ∙ requested os json is_codec publish mine.asked_at told mine.event mine.request x₁ here_too s₂

  pub traded :
      (file_of : String → String) (is_fs : IsFileSystem os file_of) (mine other : Part)
      (x y : Peer Fs)
      → y.host_id ≢ x.host_id
      → is_file_in_watched_paths path ≡ true
      → IsPart os json publish strategy path mine x
      → IsPart os json publish strategy path other y
      → mine.event.checksum ≢ other.event.checksum
      → Wins os json publish strategy path mine other x
      → CanWrite os path other.content x.files
      → let x₅ = trading os json publish strategy path mine other x in
        (os.read_file path x₅.files ≡ some other.content)
        × (lookup path x₅.file_states ≡ some (synced_state mine.announced_at mine.event))
  unfolding update_from_event request_message response_message
  traded file_of is_fs mine other x y others watched p q differs wins can =
      let x₃ = record x {
        published = mine.request ∷ mine.announcement ∷ x.published;
        file_states = (update_from_event mine.announced_at mine.event x).file_states;
      } in
      let (here, _, _, _, s₃, found) = p in
      let (there, _, _, r₂, r₃, _) = q in
      let served =
        replied os json is_codec publish other.asked_at mine.answered_at other.event other.request
          mine.reply mine.content x₃ y others r₂.0
          (ap (λ (p : String). os.read_file p x.files) there ∙ found)
          (subst
            (λ (p : String).
              Sends json publish (response_message mine.answered_at p mine.content x₃) mine.reply)
            (sym there) s₃) in
      let result =
        received os json is_codec publish file_of is_fs other.answered_at mine.written_at path
          other.reply other.content y (record x₃ { published = mine.reply ∷ x₃.published }) others
          r₃.0 can in
      rw (asked mine other x y others watched p q differs wins, served)
        (
          result.0,
          ap (lookup path) result.1
              ∙ lookup-update_from_event mine.announced_at mine.event path x (sym here),
        )
