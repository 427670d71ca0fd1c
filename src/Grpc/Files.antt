-- ===== src/Grpc/Files.antt =====
-- pkg/grpc/server.go: the calls on files. What a stream gives its reader is a list, oldest first.
use syncmesh.Common.{
  ◌≡◌, sym, ◌∙◌, ap, ℕ, ◌+◌, length, ℤ, pos, wrap_int64, wrap_int64-add, wrap_int64-zero, ◌+ℤ◌,
  String, true, List, [], ◌∷◌, ◌++◌, ◌==◌, if◌then◌else◌, arith, unix_seconds, Time,
}
use syncmesh.Grpc.Messages.{
  SyncFileRequest, SyncFileResponse, GetFileStatusRequest, GetFileStatusResponse, FileChunk,
  StreamFileResponse,
}

-- `SyncFile` and `GetFileStatus`, which change nothing.
unfoldable pub sync_file_call : SyncFileRequest → SyncFileResponse
sync_file_call req = record {
  success = true;
  message = "File synced successfully";
  error_code = "";
  version = pos 0;
}

unfoldable pub get_file_status : Time → GetFileStatusRequest → GetFileStatusResponse
get_file_status now req = record {
  exists = true;
  size = pos 1024;
  checksum = "abc123";
  mod_time = unix_seconds now;
  version = pos 1;
  status = "";
  metadata = [];
}

-- What `Recv` gives: a chunk, or an error with its text.
pub data Received : Type 0 where
  chunk : FileChunk → Received
  failure : String → Received

-- What `StreamFileData` ends with: its answer, or the text of the error that it wraps; or it waits for
-- more.
pub data Streamed : Type 0 where
  answered : StreamFileResponse → Streamed
  failed : String → Streamed
  waiting : Streamed

unfoldable pub completed : ℤ → StreamFileResponse
completed total = record {
  success = true;
  message = "File transfer completed";
  bytes_written = total;
  error_code = "";
}

-- The loop, with the count so far, an int64.
unfoldable pub stream_from : ℤ → List Received → Streamed
stream_from total [] = Streamed.waiting
stream_from total (Received.chunk c ∷ rest) =
    stream_from (wrap_int64 (total +ℤ pos (length c.content))) rest
stream_from total (Received.failure e ∷ rest) =
    if e == "EOF" then Streamed.answered (completed total) else Streamed.failed e

unfoldable pub stream_file_data : List Received → Streamed
stream_file_data stream = stream_from (pos 0) stream

abbrev pub chunks_of : List FileChunk → List Received
chunks_of [] = []
chunks_of (c ∷ cs) = Received.chunk c ∷ chunks_of cs

abbrev pub byte_count : List FileChunk → ℕ
byte_count [] = 0
byte_count (c ∷ cs) = length c.content + byte_count cs

stream_from-chunks :
    (n : ℕ) (cs : List FileChunk) (e : String) (rest : List Received)
    → stream_from (wrap_int64 (pos n)) (chunks_of cs ++ Received.failure e ∷ rest) ≡ (
        if e == "EOF"
        then Streamed.answered (completed (wrap_int64 (pos (n + byte_count cs))))
        else Streamed.failed e)
unfolding stream_from
stream_from-chunks n [] e rest = ground arith
stream_from-chunks n (c ∷ cs) e rest =
    ap (λ (total : ℤ). stream_from total (chunks_of cs ++ Received.failure e ∷ rest))
      (wrap_int64-add n (length c.content))
    ∙ stream_from-chunks (n + length c.content) cs e rest
    ∙ ap
        (λ (m : ℕ).
          if e == "EOF"
          then Streamed.answered (completed (wrap_int64 (pos m)))
          else Streamed.failed e)
        (omega arith)

-- A stream of chunks is answered with the number of its bytes, as an int64, when it ends with EOF,
-- and by the error that it ends with otherwise.
pub stream_file_data-chunks :
    (cs : List FileChunk) (e : String) (rest : List Received)
    → stream_file_data (chunks_of cs ++ Received.failure e ∷ rest) ≡ (
        if e == "EOF"
        then Streamed.answered (completed (wrap_int64 (pos (byte_count cs))))
        else Streamed.failed e)
unfolding stream_file_data
stream_file_data-chunks cs e rest =
    ap (λ (total : ℤ). stream_from total (chunks_of cs ++ Received.failure e ∷ rest))
      (sym wrap_int64-zero)
    ∙ stream_from-chunks 0 cs e rest
    ∙ ap
        (λ (m : ℕ).
          if e == "EOF"
          then Streamed.answered (completed (wrap_int64 (pos m)))
          else Streamed.failed e)
        (omega arith)
