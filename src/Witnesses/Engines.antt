-- ===== src/Witnesses/Engines.antt =====
-- Tests of the engine at concrete peers.
use syncmesh.Common.{
  ◌≡◌, refl, String, Bool, true, false, some, [], ◌∷◌, pos, Map, lookup, ne_by_test, unix_seconds,
  ends_with, ◌==◌,
}
use mathlib.Core.Option
use syncmesh.FileSync.State.{Bytes, FileState, Peer}
use syncmesh.FileSync.Conflicts.{is_file_in_watched_paths}
use syncmesh.FileSync.Messages.{
  event_message, request_message, response_message, run_request, process_message,
}
use syncmesh.Engine.State.{
  EngineConfig, Engine, FileInfo, Stat, WatchEvent, is_skipped, operation_of, handle_watch_event,
}
use syncmesh.Engine.Patterns.{matches_any, matches_file_patterns}
use syncmesh.Engine.Announcing.{bare_event, saved_event, run_pending}
use syncmesh.Engine.Spreading.{
  saved_file_spreads, arrived_file_is_not_sent_back, deletion_does_not_spread,
}
use syncmesh.Witnesses.Files.{toy_os, toy_os-IsFileSystem}
use syncmesh.Witnesses.Codecs.{toy_codec, toy_codec-IsCodec}
use syncmesh.Witnesses.Peers.{
  content, peer, peer_a, peer_b, state, second_time, takes_all, announcement, request, reply,
  request_read,
}

abbrev settings : EngineConfig
settings = record {
  watched_paths = "/app/data" ∷ [];
  exclude_patterns = "g" ∷ [];
  include_patterns = "/app/data/f" ∷ [];
  sync_interval = pos 0;
  batch_size = pos 1;
  max_retries = pos 0;
  retry_backoff = pos 0;
  conflict_resolution = "timestamp";
  checksum_algorithm = "sha256";
  compression_enabled = false;
  compression_level = pos 0;
}

abbrev engine : Engine
engine = record { config = settings; watched_dirs = []; running = true; pending = [] }

abbrev info : FileInfo
info = record { size = pos 3; mod_time = pos 4000000000 }

abbrev stat : String → Map Bytes → Stat
stat path fs = Stat.found info

abbrev hash : Bytes → String
hash bytes = "sum"

abbrev matches : String → String → Bool
matches pattern name = pattern == name

abbrev base : String → String
base path = path

abbrev written : WatchEvent
written = record {
  name = "/app/data/f";
  op = record { create = false; write = true; remove = false; rename = false; chmod = false };
}

abbrev removed : WatchEvent
removed = record {
  name = "/app/data/f";
  op = record { create = false; write = false; remove = true; rename = false; chmod = false };
}

-- A peer that has received the file, one that recorded it, and one that lost it.
abbrev full_b : Peer (Map Bytes)
full_b = peer "b" "timestamp" [] (("/app/data/f", content) ∷ [])

abbrev known : FileState
known = record state { checksum = "sum" }

abbrev knowing_a : Peer (Map Bytes)
knowing_a = peer "a" "timestamp" (("/app/data/f", known) ∷ []) (("/app/data/f", content) ∷ [])

abbrev empty_a : Peer (Map Bytes)
empty_a = peer "a" "timestamp" (("/app/data/f", known) ∷ []) []

abbrev from_b : Bytes
from_b = 1 ∷ 4 ∷ 5 ∷ 7 ∷ 0 ∷ 3 ∷ 0 ∷ 9 ∷ 1 ∷ []

abbrev deletion : Bytes
deletion = 1 ∷ 4 ∷ 0 ∷ 6 ∷ 0 ∷ 0 ∷ 0 ∷ 9 ∷ 1 ∷ []

saved_file_spreads_example :
    let a₁ =
      (run_pending toy_os stat hash toy_codec takes_all matches base second_time second_time
        (handle_watch_event base written engine)
        peer_a).1 in
    let b₁ = process_message toy_os toy_codec takes_all second_time announcement peer_b in
    let b₂ = run_request toy_codec takes_all second_time b₁ in
    let a₂ = process_message toy_os toy_codec takes_all second_time request a₁ in
    let b₃ = process_message toy_os toy_codec takes_all second_time reply b₂ in
    (lookup "/app/data/f" b₃.files ≡ some content)
    × (Option.map (λ (s : FileState). s.checksum) (lookup "/app/data/f" a₁.file_states)
        ≡ some "sum")
    × (a₂.published ≡ reply ∷ announcement ∷ [])
unfolding event_message request_message response_message is_file_in_watched_paths lookup
    unix_seconds is_skipped operation_of matches_file_patterns matches_any saved_event bare_event
    ends_with
saved_file_spreads_example =
    saved_file_spreads toy_os (λ path. path) toy_os-IsFileSystem stat hash toy_codec
      toy_codec-IsCodec takes_all matches base second_time second_time second_time second_time
      second_time second_time written "modify" info announcement request reply content engine peer_a
      peer_b refl refl (ne_by_test "modify" "delete" refl) refl refl refl (ne_by_test "a" "b" refl)
      refl refl (refl, refl) (refl, refl) (refl, refl) (refl, refl, refl)

arrived_file_is_not_sent_back_example :
    ((run_pending toy_os stat hash toy_codec takes_all matches base second_time second_time
        (handle_watch_event base written engine)
        full_b).1.published
      ≡ from_b ∷ [])
    × (process_message toy_os toy_codec takes_all second_time from_b knowing_a ≡ knowing_a)
unfolding event_message lookup unix_seconds is_skipped operation_of matches_file_patterns
    matches_any saved_event bare_event ends_with
arrived_file_is_not_sent_back_example =
    arrived_file_is_not_sent_back toy_os stat hash toy_codec toy_codec-IsCodec takes_all matches
      base second_time second_time second_time written "modify" info from_b content known engine
      knowing_a full_b refl refl (ne_by_test "modify" "delete" refl) refl refl refl refl refl
      (refl, refl)

deletion_does_not_spread_example :
    let a₁ =
      (run_pending toy_os stat hash toy_codec takes_all matches base second_time second_time
        (handle_watch_event base removed engine)
        empty_a).1 in
    (a₁.published ≡ deletion ∷ [])
    × ((process_message toy_os toy_codec takes_all second_time deletion full_b).files
        ≡ full_b.files)
    × (process_message toy_os toy_codec takes_all second_time request a₁ ≡ a₁)
unfolding event_message lookup unix_seconds is_skipped operation_of matches_file_patterns
    matches_any bare_event ends_with
deletion_does_not_spread_example =
    deletion_does_not_spread toy_os stat hash toy_codec toy_codec-IsCodec takes_all matches base
      second_time second_time second_time second_time removed deletion request request_read engine
      empty_a full_b refl refl refl refl (refl, refl) refl refl refl
