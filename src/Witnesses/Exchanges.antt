-- ===== src/Witnesses/Exchanges.antt =====
-- Tests of the file exchange at concrete peers.
use syncmesh.Common.{
  ◌≡◌, refl, ◌≢◌, ◌⊎◌, none, some, [], ◌∷◌, lookup, ne_by_test, Map, unix_time, unix_seconds, pos,
}
use syncmesh.FileSync.State.{FileSyncMessage, synced_state, update_from_event, Peer, Bytes}
use syncmesh.FileSync.Conflicts.{is_file_in_watched_paths}
use syncmesh.FileSync.Messages.{
  event_message, request_message, response_message, publish_file_event, run_request,
  handle_file_event, process_message,
}
use syncmesh.FileSync.Decisions.{Follows, handle_file_event-Follows}
use syncmesh.FileSync.Arrival.{file_arrives}
use syncmesh.FileSync.Conflicting.{conflicting_files_are_swapped}
use syncmesh.FileSync.Converging.{larger_file_wins, equal_sizes_stay}
use syncmesh.FileSync.Trading.{Part, trading, asking, announcing}
use syncmesh.FileSync.Writes.{only_responses_write}
use syncmesh.Witnesses.Files.{toy_os, toy_os-IsFileSystem}
use syncmesh.Witnesses.Codecs.{toy_codec, toy_codec-IsCodec}
use syncmesh.Witnesses.Peers.{
  config, config, content, peer_a, peer_b, manual_b, event, second_time, takes_all, announcement,
  request, reply,
}

a_is_not_b : peer_a.host_id ≢ peer_b.host_id
a_is_not_b = ne_by_test "a" "b" refl

b_is_not_a : peer_b.host_id ≢ peer_a.host_id
b_is_not_a = ne_by_test "b" "a" refl

file_arrives_example :
    let a₁ = (publish_file_event toy_codec takes_all second_time event peer_a).0 in
    let b₁ = process_message toy_os toy_codec takes_all second_time announcement peer_b in
    let b₂ = run_request toy_codec takes_all second_time b₁ in
    let a₂ = process_message toy_os toy_codec takes_all second_time request a₁ in
    let b₃ = process_message toy_os toy_codec takes_all second_time reply b₂ in
    (a₁.published ≡ announcement ∷ [])
    × (b₂.published ≡ request ∷ [])
    × (a₂.published ≡ reply ∷ announcement ∷ [])
    × (lookup "/app/data/f" b₃.files ≡ some content)
    × (lookup "/app/data/f" b₃.file_states ≡ none)
unfolding event_message request_message response_message is_file_in_watched_paths lookup
    unix_seconds
file_arrives_example =
    file_arrives toy_os toy_codec toy_codec-IsCodec takes_all (λ path. path) toy_os-IsFileSystem
      second_time second_time second_time second_time second_time event announcement request reply
      content peer_a peer_b a_is_not_b refl refl refl (refl, refl) (refl, refl) (refl, refl)
      (refl, refl, refl)

handle_file_event-Follows_example :
    let r = handle_file_event second_time event manual_b in
    Follows second_time event manual_b × (r.requests ≡ event ∷ [])
    ⊎ (¬ Follows second_time event manual_b) × (r.requests ≡ [])
handle_file_event-Follows_example = handle_file_event-Follows second_time event manual_b

only_responses_write_example :
    (lookup "/app/data/g"
        (process_message toy_os toy_codec takes_all second_time reply peer_b).files
      ≡ lookup "/app/data/g" peer_b.files)
    ⊎ ((msg : FileSyncMessage) × (toy_codec.unmarshal reply ≡ some msg)
        × (msg.from_peer ≢ "b")
        × (msg.type ≡ "file_response")
        × (msg.file_path ≡ "/app/data/g"))
only_responses_write_example =
    only_responses_write toy_os (λ path. path) toy_os-IsFileSystem toy_codec takes_all second_time
      reply peer_b "/app/data/g"

abbrev others : Bytes
others = 7 ∷ 8 ∷ []

-- `b` has a version of its own.
abbrev changed_b : Peer (Map Bytes)
changed_b = record peer_b { files = ("/app/data/f", others) ∷ [] }

abbrev part_a : Part
part_a = record {
  event = event;
  content = content;
  announcement = announcement;
  request = 2 ∷ 4 ∷ 0 ∷ 6 ∷ 0 ∷ 0 ∷ 0 ∷ 9 ∷ 0 ∷ [];
  reply = reply;
  announced_at = second_time;
  heard_at = second_time;
  asked_at = second_time;
  answered_at = second_time;
  written_at = second_time;
}

abbrev part_b : Part
part_b = record part_a {
  event = record event { checksum = "other"; size = pos 2; from_peer = "b" };
  content = others;
  announcement = 1 ∷ 4 ∷ 8 ∷ 7 ∷ 0 ∷ 2 ∷ 0 ∷ 9 ∷ 1 ∷ [];
  request = request;
  reply = 3 ∷ 4 ∷ 0 ∷ 7 ∷ 0 ∷ 2 ∷ 0 ∷ 9 ∷ 0 ∷ others;
}

conflicting_files_are_swapped_example :
    let a = trading toy_os toy_codec takes_all "timestamp" "/app/data/f" part_a part_b peer_a in
    let b = trading toy_os toy_codec takes_all "timestamp" "/app/data/f" part_b part_a changed_b in
    (lookup "/app/data/f" a.files ≡ some others)
    × (lookup "/app/data/f" b.files ≡ some content)
    × (lookup "/app/data/f" a.file_states ≡ some (synced_state second_time part_a.event))
    × (lookup "/app/data/f" b.file_states ≡ some (synced_state second_time part_b.event))
unfolding event_message request_message response_message is_file_in_watched_paths lookup
    unix_seconds unix_time
conflicting_files_are_swapped_example =
    conflicting_files_are_swapped toy_os toy_codec toy_codec-IsCodec takes_all "/app/data/f"
      (λ path. path) toy_os-IsFileSystem part_a part_b peer_a changed_b a_is_not_b refl
      (refl, refl, (refl, refl), (refl, refl), (refl, refl), refl)
      (refl, refl, (refl, refl), (refl, refl), (refl, refl), refl) (ne_by_test "sum" "other" refl)
      refl refl (refl, refl, refl) (refl, refl, refl)

-- The same peers under the strategy `size`.
abbrev large_a : Peer (Map Bytes)
large_a = record peer_a { config = config "size" }

abbrev small_b : Peer (Map Bytes)
small_b = record changed_b { config = config "size" }

larger_file_wins_example :
    let b₃ = asking toy_os toy_codec takes_all "size" "/app/data/f" part_b part_a small_b in
    let a₂ =
      process_message toy_os toy_codec takes_all second_time part_b.announcement
        (announcing toy_os toy_codec takes_all "size" "/app/data/f" part_a large_a) in
    let a₃ = process_message toy_os toy_codec takes_all second_time part_b.request a₂ in
    let b₄ = process_message toy_os toy_codec takes_all second_time part_a.reply b₃ in
    (b₃.published ≡ part_b.request ∷ part_b.announcement ∷ [])
    × (a₂.requests ≡ [])
    × (a₃.published ≡ part_a.reply ∷ part_a.announcement ∷ [])
    × (lookup "/app/data/f" b₄.files ≡ some content)
    × (lookup "/app/data/f" a₃.files ≡ some content)
unfolding event_message request_message response_message is_file_in_watched_paths lookup
    unix_seconds
larger_file_wins_example =
    larger_file_wins toy_os toy_codec toy_codec-IsCodec takes_all "/app/data/f" (λ path. path)
      toy_os-IsFileSystem part_b part_a small_b large_a b_is_not_a refl
      (refl, refl, (refl, refl), (refl, refl), (refl, refl), refl)
      (refl, refl, (refl, refl), (refl, refl), (refl, refl), refl) (ne_by_test "other" "sum" refl)
      (ne_by_test "other" "" refl) (ne_by_test "sum" "" refl) refl (refl, refl, refl)

abbrev part_c : Part
part_c = record part_b {
  event = record part_b.event { size = pos 3 };
  announcement = 1 ∷ 4 ∷ 8 ∷ 7 ∷ 0 ∷ 3 ∷ 0 ∷ 9 ∷ 1 ∷ [];
}

equal_sizes_stay_example :
    let a₁ = announcing toy_os toy_codec takes_all "size" "/app/data/f" part_a large_a in
    let b₁ = announcing toy_os toy_codec takes_all "size" "/app/data/f" part_c small_b in
    (process_message toy_os toy_codec takes_all second_time part_c.announcement a₁
      ≡ update_from_event second_time part_a.event
          (record large_a { published = part_a.announcement ∷ [] }))
    × (process_message toy_os toy_codec takes_all second_time part_a.announcement b₁
        ≡ update_from_event second_time part_c.event
            (record small_b { published = part_c.announcement ∷ [] }))
unfolding event_message request_message response_message is_file_in_watched_paths lookup
    unix_seconds
equal_sizes_stay_example =
    equal_sizes_stay toy_os toy_codec toy_codec-IsCodec takes_all "/app/data/f" part_a part_c
      large_a small_b a_is_not_b (refl, refl, (refl, refl), (refl, refl), (refl, refl), refl)
      (refl, refl, (refl, refl), (refl, refl), (refl, refl), refl) (ne_by_test "sum" "other" refl)
      (ne_by_test "sum" "" refl) (ne_by_test "other" "" refl) refl
