-- ===== src/FileSync/Workers.antt =====
-- internal/p2p/file_sync.go: starting and stopping, and the file workers.
use syncmesh.Common.{
  ℕ, String, zero, suc, true, false, Option, none, some, maybe, List, [], ◌∷◌, ◌++◌, if◌then◌else◌,
}
use syncmesh.FileSync.State.{FileOperation, FileWorker, Peer}

unfoldable pub worker_count : ℕ
worker_count = 3

-- The workers `i`, `i + 1`, …, `n` in all.
unfoldable pub new_workers : ℕ → ℕ → List FileWorker
new_workers i zero = []
new_workers i (suc n) = record { id = i; stop_closed = false } ∷ new_workers (suc i) n

-- Closing every stop channel; `none` is the panic of a channel that is closed already.
unfoldable pub close_all : List FileWorker → Option (List FileWorker)
close_all [] = some []
close_all (w ∷ ws) =
    let rest = close_all ws in
    if w.stop_closed
    then none
    else maybe rest none λ closed. some (record w { stop_closed = true } ∷ closed)

-- What the select of a worker finds: a channel that is closed, or an operation.
pub data Ready : Type 0 where
  done stopped : Ready
  queued : FileOperation → Ready

-- `processFileOperation` logs the path of the operation.
unfoldable pub process_file_operation : FileOperation → String
process_file_operation operation = operation.event.path

-- `workerLoop`: what it logs.
unfoldable pub worker_loop : List Ready → List String
worker_loop [] = []
worker_loop (Ready.done ∷ rest) = []
worker_loop (Ready.stopped ∷ rest) = []
worker_loop (Ready.queued operation ∷ rest) = process_file_operation operation ∷ worker_loop rest

module _ {Fs : Type 0} where
  -- `startWorkers`.
  unfoldable pub start_workers : Peer Fs → Peer Fs
  start_workers f = record f { workers = f.workers ++ new_workers 0 worker_count }

  -- `Start`: `none` is the error that the protocol is running already.
  unfoldable pub start : Peer Fs → Option (Peer Fs)
  start f =
      if f.running
      then none
      else some (start_workers (record f { running = true; cancelled = false }))

  -- `stopWorkers`.
  unfoldable pub stop_workers : Peer Fs → Option (Peer Fs)
  stop_workers f = maybe (close_all f.workers) none λ ws. some (record f { workers = ws })

  -- `Stop`: `none` is the panic.
  unfoldable pub stop : Peer Fs → Option (Peer Fs)
  stop f =
      if f.running then stop_workers (record f { running = false; cancelled = true }) else some f
