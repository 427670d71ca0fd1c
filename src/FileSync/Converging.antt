-- ===== src/FileSync/Converging.antt =====
-- internal/p2p/file_sync.go: two peers have changed the same file under the strategy `size`.
use syncmesh.Common.{
  ℤ, eq_iff, ltb_ℤ, arith, Bool, true, false, if_elim, ◌≡◌, refl, sym, ◌∙◌, ap, subst, ◌≢◌, String,
  Bool, true, Option, some, ◌∷◌, Time, lookup, if_elim, ◌==◌,
}
use syncmesh.FileSync.State.{Bytes, FileState, FileEvent, Peer, synced_state, update_from_event}
use syncmesh.FileSync.Conflicts.{
  is_file_in_watched_paths, should_sync_file, has_conflict, resolve_conflict,
}
use syncmesh.FileSync.Files.{CanWrite, Os, IsFileSystem}
use syncmesh.FileSync.Messages.{
  Codec, IsCodec, response_message, handle_file_event, process_message, PublishError,
}
use syncmesh.FileSync.Decisions.{by_size-known}
use syncmesh.FileSync.Exchange.{Sends, publish_file_event-Sends, lookup-update_from_event}
use syncmesh.FileSync.Arrival.{told_event, replied, received}
use syncmesh.FileSync.Trading.{Part, IsPart, Wins, asking, asked, announcing}

ltb_ℤ-asym : (a b : ℤ) → ltb_ℤ a b ≡ true → ltb_ℤ b a ≡ false
ltb_ℤ-asym a b h = ground (arith, h)

not_less : (a b : ℤ) → a ≡ b → ltb_ℤ a b ≡ false
not_less a b same = subst (λ z. ltb_ℤ a z ≡ false) same (ground arith)

module _ {Fs : Type 0} where
  by_size :
      (event : FileEvent) (state : FileState) (f : Peer Fs) (larger : Bool)
      → f.config.conflict_resolution ≡ "size"
      → lookup event.path f.file_states ≡ some state
      → ltb_ℤ state.size event.size ≡ larger
      → resolve_conflict event f ≡ (larger, f)
  unfolding resolve_conflict
  by_size event state f larger strategy known compared =
      rw
        (
          ap (λ (s : String). s == "timestamp") strategy,
          ap (λ (s : String). s == "size") strategy,
          by_size-known event state f known,
          compared,
        )
        refl

  conflicts :
      (now : Time) (event : FileEvent) (state : FileState) (f : Peer Fs)
      → lookup event.path f.file_states ≡ some state
      → state.checksum ≢ ""
      → event.checksum ≢ ""
      → state.checksum ≢ event.checksum
      → has_conflict now event f ≡ true
  unfolding has_conflict
  conflicts now event state f known mine its differs = ground (
    arith,
    known,
    eq_iff state.checksum "",
    eq_iff event.checksum "",
    eq_iff state.checksum event.checksum,
  )

  refused_is_ignored :
      (now : Time) (event : FileEvent) (f : Peer Fs)
      → has_conflict now event f ≡ true
      → resolve_conflict event f ≡ (false, f)
      → handle_file_event now event f ≡ f
  unfolding handle_file_event
  refused_is_ignored now event f conflict loses =
      rw (conflict, loses)
        (if_elim (λ (r : Peer Fs). r ≡ f) (should_sync_file event f) f f (λ _. refl) (λ _. refl))

module _ {Fs : Type 0} (os : Os Fs) (json : Codec) (is_codec : IsCodec json)
    (publish : Bytes → Bool) (path : String) where
  larger-Wins :
      (mine other : Part) (x : Peer Fs)
      → mine.event.path ≡ path
      → x.config.conflict_resolution ≡ "size"
      → ltb_ℤ mine.event.size other.event.size ≡ true
      → Wins os json publish "size" path mine other x
  unfolding update_from_event synced_state
  larger-Wins mine other x here strategy larger told same size stamp =
      let x₀ = record x { published = mine.announcement ∷ x.published } in
      by_size told (synced_state mine.announced_at mine.event)
        (update_from_event mine.announced_at mine.event x₀) true strategy
        (lookup-update_from_event mine.announced_at mine.event told.path x₀ (same ∙ sym here))
        (ap (λ (z : ℤ). ltb_ℤ mine.event.size z) size ∙ larger)

  -- A peer ignores the announcement of a version that is not larger than the one it has announced.
  smaller_is_ignored :
      (mine other : Part) (x y : Peer Fs)
      → y.host_id ≢ x.host_id
      → IsPart os json publish "size" path mine x
      → IsPart os json publish "size" path other y
      → mine.event.checksum ≢ other.event.checksum
      → mine.event.checksum ≢ ""
      → other.event.checksum ≢ ""
      → ltb_ℤ mine.event.size other.event.size ≡ false
      → process_message os json publish mine.heard_at other.announcement
          (announcing os json publish "size" path mine x)
        ≡ update_from_event mine.announced_at mine.event
            (record x { published = mine.announcement ∷ x.published })
  unfolding update_from_event synced_state
  smaller_is_ignored mine other x y others (here, strategy, s₁, _, _, _) (there, _, r₁, _, _, _)
        differs full its_full smaller =
      let x₀ = record x { published = mine.announcement ∷ x.published } in
      let x₁ = update_from_event mine.announced_at mine.event x₀ in
      let state = synced_state mine.announced_at mine.event in
      let (told, same, sum, size, stamp, heard) =
        told_event os json is_codec publish other.announced_at mine.heard_at other.event
          other.announcement y x₁ others r₁.0 in
      let known =
        lookup-update_from_event mine.announced_at mine.event told.path x₀
          (same ∙ there ∙ sym here) in
      ap
        (λ (r : Peer Fs × Option PublishError).
          process_message os json publish mine.heard_at other.announcement r.0)
        (publish_file_event-Sends json publish mine.announced_at mine.event mine.announcement x s₁)
      ∙ heard
      ∙ refused_is_ignored mine.heard_at told x₁
          (conflicts mine.heard_at told state x₁ known full (λ e. its_full (sym sum ∙ e))
            (λ e. differs (e ∙ sum)))
          (by_size told state x₁ false strategy known
            (ap (λ (z : ℤ). ltb_ℤ mine.event.size z) size ∙ smaller))

  -- Two peers have announced different versions of one watched file under the strategy `size`, both
  -- with a checksum, and each of them can read its own. If the messages can be marshalled and are taken by the service, and the peer with
  -- the smaller version can write the file, then it asks for the larger one and gets it, and the other
  -- peer ignores the announcement of the smaller one and answers: both end with the larger version.
  pub larger_file_wins :
      (file_of : String → String) (is_fs : IsFileSystem os file_of) (mine other : Part)
      (a b : Peer Fs)
      → a.host_id ≢ b.host_id
      → is_file_in_watched_paths path ≡ true
      → IsPart os json publish "size" path mine a
      → IsPart os json publish "size" path other b
      → mine.event.checksum ≢ other.event.checksum
      → mine.event.checksum ≢ ""
      → other.event.checksum ≢ ""
      → ltb_ℤ mine.event.size other.event.size ≡ true
      → CanWrite os path other.content a.files
      → let a₃ = asking os json publish "size" path mine other a in
        let b₂ =
          process_message os json publish other.heard_at mine.announcement
            (announcing os json publish "size" path other b) in
        let b₃ = process_message os json publish other.answered_at mine.request b₂ in
        let a₄ = process_message os json publish mine.written_at other.reply a₃ in
        (a₃.published ≡ mine.request ∷ mine.announcement ∷ a.published)
        × (b₂.requests ≡ b.requests)
        × (b₃.published ≡ other.reply ∷ other.announcement ∷ b.published)
        × (os.read_file path a₄.files ≡ some other.content)
        × (os.read_file path b₃.files ≡ some other.content)
  unfolding update_from_event response_message
  larger_file_wins file_of is_fs mine other a b others watched p q differs full its_full larger
        can =
      let a₃ = record a {
        published = mine.request ∷ mine.announcement ∷ a.published;
        file_states = (update_from_event mine.announced_at mine.event a).file_states;
      } in
      let b₂ =
        update_from_event other.announced_at other.event
          (record b { published = other.announcement ∷ b.published }) in
      let asks =
        asked os json is_codec publish "size" path mine other a b (λ e. others (sym e)) watched p q
          differs (larger-Wins mine other a p.0 p.1 larger) in
      let ignores =
        smaller_is_ignored other mine b a others q p (λ e. differs (sym e)) its_full full
          (ltb_ℤ-asym mine.event.size other.event.size larger) in
      let (here, _, _, r₂, _, _) = p in
      let (_, _, _, _, r₃, found) = q in
      let answers =
        replied os json is_codec publish mine.asked_at other.answered_at mine.event mine.request
          other.reply other.content b₂ a others r₂.0
          (ap (λ (i : String). os.read_file i b.files) here ∙ found)
          (subst
            (λ (i : String).
              Sends json publish (response_message other.answered_at i other.content b₂)
                other.reply)
            (sym here) r₃) in
      let result =
        received os json is_codec publish file_of is_fs other.answered_at mine.written_at path
          other.reply other.content b a₃ (λ e. others (sym e)) r₃.0 can in
      rw (asks, ignores, answers) (refl, refl, refl, result.0, found)

  -- Two peers have announced different versions of one watched file under the strategy `size`, both
  -- with a checksum and of the same size, each of them can read its own, and the messages can be marshalled and are taken by the
  -- service. Then each peer ignores the other's announcement: it asks for nothing, and keeps its files
  -- and the state that it has recorded.
  pub equal_sizes_stay :
      (mine other : Part) (a b : Peer Fs)
      → a.host_id ≢ b.host_id
      → IsPart os json publish "size" path mine a
      → IsPart os json publish "size" path other b
      → mine.event.checksum ≢ other.event.checksum
      → mine.event.checksum ≢ ""
      → other.event.checksum ≢ ""
      → mine.event.size ≡ other.event.size
      → let a₁ = announcing os json publish "size" path mine a in
        let b₁ = announcing os json publish "size" path other b in
        (process_message os json publish mine.heard_at other.announcement a₁
          ≡ update_from_event mine.announced_at mine.event
              (record a { published = mine.announcement ∷ a.published }))
        × (process_message os json publish other.heard_at mine.announcement b₁
            ≡ update_from_event other.announced_at other.event
                (record b { published = other.announcement ∷ b.published }))
  equal_sizes_stay mine other a b others p q differs full its_full same = (
    smaller_is_ignored mine other a b (λ e. others (sym e)) p q differs full its_full
        (not_less mine.event.size other.event.size same),
    smaller_is_ignored other mine b a others q p (λ e. differs (sym e)) its_full full
        (not_less other.event.size mine.event.size (sym same)),
  )
