-- ===== src/FileSync/Decisions.antt =====
-- internal/p2p/file_sync.go, `handleFileEvent`: which events make a peer ask for a file.
use text.Mathlib.TextBridge.{IsPrefix}
use text.Mathlib.TextEquality.{starts_with_iff}
use syncmesh.Common.{
  ◌≡◌, refl, sym, ◌∙◌, ◌≢◌, subst, ◌↔◌, ◌⊎◌, inl, inr, String, Bool, true, false, Option, none,
  some, ◌∷◌, ◌==◌, eq_iff, Bool-cases, Time, lookup, after, seconds_before, ltb_ℤ, starts_with,
  arith, if◌then◌else◌, ◌&&◌, ◌||◌, not, if_elim,
}
use syncmesh.FileSync.State.{FileState, FileEvent, Peer}
use syncmesh.FileSync.Conflicts.{
  is_file_in_watched_paths, matches_file_patterns, should_sync_file, has_conflict,
  resolve_by_timestamp, resolve_by_size, resolve_manually, resolve_conflict,
}
use syncmesh.FileSync.Messages.{handle_file_event}

abbrev pub IsWatched : String → Type 0
IsWatched path = IsPrefix "/app/data" path ⊎ IsPrefix "/opt/tomcat/webapps/zenoptics/resources" path

-- The event is in no conflict with the state that is known: that one is older than five seconds
-- and one of the checksums is missing.
abbrev pub IsHarmless : Time → FileEvent → FileState → Type 0
IsHarmless now event state =
    (after state.last_sync (seconds_before 5 now) ≡ false)
    × ((state.checksum ≡ "") ⊎ (event.checksum ≡ ""))

IsWatched-iff : (path : String) → (is_file_in_watched_paths path ≡ true) ↔ IsWatched path
unfolding is_file_in_watched_paths
IsWatched-iff path = (forth, back)
  where
    data_iff : (starts_with path "/app/data" ≡ true) ↔ IsPrefix "/app/data" path
    data_iff = starts_with_iff path "/app/data"

    resources_iff :
        (starts_with path "/opt/tomcat/webapps/zenoptics/resources" ≡ true)
        ↔ IsPrefix "/opt/tomcat/webapps/zenoptics/resources" path
    resources_iff = starts_with_iff path "/opt/tomcat/webapps/zenoptics/resources"

    forth : is_file_in_watched_paths path ≡ true → IsWatched path
    forth h = elim (Bool-cases (starts_with path "/app/data")) [
      | inl e ↦ inl (data_iff.0 e)
      | inr e ↦ inr (resources_iff.0 (ground arith))
    ]

    back : IsWatched path → is_file_in_watched_paths path ≡ true
    back (inl p) = rw (data_iff.1 p) refl
    back (inr p) =
        rw (resources_iff.1 p)
          (if_elim (λ r. r ≡ true) (starts_with path "/app/data") _ _ (λ _. refl) (λ _. refl))

-- What a strategy says, by the two comparisons.
preference : String → Bool → Bool → Bool
preference strategy larger later =
    if strategy == "size" then larger else if strategy == "manual" then false else later

preference_iff :
    (s : String) (larger later : Bool)
    → (preference s larger later ≡ true)
      ↔ ((s ≡ "size") × (larger ≡ true) ⊎ (s ≢ "size") × (s ≢ "manual") × (later ≡ true))
unfolding preference
preference_iff s larger later = ground (arith, eq_iff s "size", eq_iff s "manual")

preference-timestamp :
    (s : String) (larger later : Bool)
    → (s == "timestamp") ≡ true
    → later ≡ preference s larger later
unfolding preference
preference-timestamp s larger later e =
    subst (λ v. later ≡ preference v larger later) (sym ((eq_iff s "timestamp").0 e)) refl

module _ {Fs : Type 0} where
  -- The strategy prefers the event to the state that is known: a larger file, or by default a later
  -- change; under `manual` never.
  abbrev pub Prefers : FileEvent → FileState → Peer Fs → Type 0
  Prefers event state f =
      (f.config.conflict_resolution ≡ "size") × (ltb_ℤ state.size event.size ≡ true)
      ⊎ (f.config.conflict_resolution ≢ "size")
        × (f.config.conflict_resolution ≢ "manual")
        × (after event.timestamp state.mod_time ≡ true)

  abbrev pub IsNews : Time → FileEvent → Peer Fs → Option FileState → Type 0
  IsNews now event f none = Unit
  IsNews now event f (some state) =
      (state.checksum ≢ event.checksum) × (IsHarmless now event state ⊎ Prefers event state f)

  -- The event is to be followed.
  abbrev pub Follows : Time → FileEvent → Peer Fs → Type 0
  Follows now event f = IsWatched event.path × IsNews now event f (lookup event.path f.file_states)

  pub by_timestamp-known :
      (event : FileEvent) (state : FileState) (f : Peer Fs)
      → lookup event.path f.file_states ≡ some state
      → resolve_by_timestamp event f ≡ after event.timestamp state.mod_time
  unfolding resolve_by_timestamp
  by_timestamp-known event state f found = rw (found, resolve_by_timestamp) refl

  pub by_size-known :
      (event : FileEvent) (state : FileState) (f : Peer Fs)
      → lookup event.path f.file_states ≡ some state
      → resolve_by_size event f ≡ ltb_ℤ state.size event.size
  unfolding resolve_by_size
  by_size-known event state f found = rw (found, resolve_by_size) refl

  resolve_conflict-known :
      (event : FileEvent) (state : FileState) (f : Peer Fs)
      → lookup event.path f.file_states ≡ some state
      → (resolve_conflict event f).0
        ≡ preference f.config.conflict_resolution
            (ltb_ℤ state.size event.size)
            (after event.timestamp state.mod_time)
  unfolding resolve_conflict resolve_manually preference
  resolve_conflict-known event state f found =
      if_elim P (strategy == "timestamp") _ _ (λ e. later ∙ preference-timestamp strategy _ _ e)
        (λ _.
          if_elim P (strategy == "size") _ _ (λ e. rw e (by_size-known event state f found))
            (λ d.
              if_elim P (strategy == "manual") _ _ (λ e. rw (d, e) refl) (λ e. rw (d, e) later)))
    where
      strategy : String
      strategy = f.config.conflict_resolution

      later : resolve_by_timestamp event f ≡ after event.timestamp state.mod_time
      later = by_timestamp-known event state f found

      P : Bool × Peer Fs → Type 0
      P r =
          r.0
          ≡ preference strategy (ltb_ℤ state.size event.size) (after event.timestamp state.mod_time)

  resolve_conflict_iff :
      (event : FileEvent) (state : FileState) (f : Peer Fs)
      → lookup event.path f.file_states ≡ some state
      → ((resolve_conflict event f).0 ≡ true) ↔ Prefers event state f
  resolve_conflict_iff event state f found =
      rw (resolve_conflict-known event state f found)
        (preference_iff f.config.conflict_resolution _ _)

  has_conflict_iff :
      (now : Time) (event : FileEvent) (state : FileState) (f : Peer Fs)
      → lookup event.path f.file_states ≡ some state
      → state.checksum ≢ event.checksum
      → (has_conflict now event f ≡ false) ↔ IsHarmless now event state
  unfolding has_conflict
  has_conflict_iff now event state f found differs = ground (
    arith,
    eq_iff state.checksum "",
    eq_iff event.checksum "",
    eq_iff state.checksum event.checksum,
  )

  -- What becomes of the requests, by the decision.
  followed : Time → FileEvent → Peer Fs → Bool
  followed now event f =
      should_sync_file event f && (not (has_conflict now event f) || (resolve_conflict event f).0)

  resolve_conflict-requests :
      (event : FileEvent) (f : Peer Fs) → (resolve_conflict event f).1.requests ≡ f.requests
  unfolding resolve_conflict resolve_manually
  resolve_conflict-requests event f =
      if_elim P (strategy == "timestamp") _ _ (λ _. refl)
        (λ _.
          if_elim P (strategy == "size") _ _ (λ _. refl)
            (λ _. if_elim P (strategy == "manual") _ _ (λ _. refl) (λ _. refl)))
    where
      strategy : String
      strategy = f.config.conflict_resolution

      P : Bool × Peer Fs → Type 0
      P r = r.1.requests ≡ f.requests

  handle_file_event-requests :
      (now : Time) (event : FileEvent) (f : Peer Fs)
      → (handle_file_event now event f).requests
        ≡ (if followed now event f then event ∷ f.requests else f.requests)
  unfolding handle_file_event followed
  handle_file_event-requests now event f = elim (Bool-cases (should_sync_file event f)) [
    | inr refused ↦ rw refused refl
    | inl wanted ↦ elim (Bool-cases (has_conflict now event f)) [
      | inr clear ↦ rw (wanted, clear) refl
      | inl conflict ↦ elim (Bool-cases (resolve_conflict event f).0) [
        | inl wins ↦ rw (wanted, conflict, wins, resolve_conflict-requests event f) refl
        | inr loses ↦ rw (wanted, conflict, loses, resolve_conflict-requests event f) refl
      ]
    ]
  ]

  followed_iff :
      (now : Time) (event : FileEvent) (f : Peer Fs)
      → (followed now event f ≡ true) ↔ Follows now event f
  followed_iff now event f = go (lookup event.path f.file_states) refl
    where
      go :
          (found : Option FileState)
          → lookup event.path f.file_states ≡ found
          → (followed now event f ≡ true) ↔ (IsWatched event.path × IsNews now event f found)
      go none e =
          unfold followed should_sync_file matches_file_patterns has_conflict in
          ground (arith, IsWatched-iff event.path)
      go (some state) e =
          unfold followed should_sync_file matches_file_patterns in
          ground (
            arith,
            IsWatched-iff event.path,
            eq_iff state.checksum event.checksum,
            has_conflict_iff now event state f e,
            resolve_conflict_iff event state f e,
          )

  -- An event of another peer makes this one ask for the file exactly if its path is watched and it
  -- is news: the file is unknown, or has another checksum and is in no conflict or is preferred by
  -- the strategy. Otherwise no request is made.
  pub handle_file_event-Follows :
      (now : Time) (event : FileEvent) (f : Peer Fs)
      → Follows now event f × ((handle_file_event now event f).requests ≡ event ∷ f.requests)
        ⊎ (¬ Follows now event f) × ((handle_file_event now event f).requests ≡ f.requests)
  handle_file_event-Follows now event f = elim (Bool-cases (followed now event f)) [
    | inl wanted ↦ inl (
      (followed_iff now event f).0 wanted,
      handle_file_event-requests now event f ∙ rw wanted refl,
    )
    | inr refused ↦ inr (
      λ h. ground (arith, followed_iff now event f),
      handle_file_event-requests now event f ∙ rw refused refl,
    )
  ]
