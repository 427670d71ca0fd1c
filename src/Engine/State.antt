-- ===== src/Engine/State.antt =====
-- internal/sync/engine.go: the engine's state, its life, and the events of the file watcher. fsnotify
-- and the operating system are parameters; a goroutine that is to process an event is an entry of
-- `pending`.
use syncmesh.Common.{
  String, ℤ, Bool, true, false, Option, none, some, List, [], ◌∷◌, ◌||◌, Duration, Time, Map,
  insert, starts_with, ends_with, if◌then◌else◌,
}
use syncmesh.FileSync.Files.{Os}

pub record EngineConfig : Type 0 where
  pub watched_paths : List String
  pub exclude_patterns : List String
  pub include_patterns : List String
  pub sync_interval : Duration
  pub batch_size : ℤ
  pub max_retries : ℤ
  pub retry_backoff : Duration
  pub conflict_resolution : String
  pub checksum_algorithm : String
  pub compression_enabled : Bool
  pub compression_level : ℤ

pub record Engine : Type 0 where
  pub config : EngineConfig
  pub watched_dirs : Map Bool
  pub running : Bool
  pub pending : List (String × String)

pub data EngineError : Type 0 where
  already_running watcher_failed mkdir_failed watch_failed : EngineError

-- What `os.Stat` gives.
pub record FileInfo : Type 0 where
  pub size : ℤ
  pub mod_time : Time

pub data Stat : Type 0 where
  found : FileInfo → Stat
  not_exist failed : Stat

-- `fsnotify.Op`, a set of flags.
pub record Op : Type 0 where
  pub create : Bool
  pub write : Bool
  pub remove : Bool
  pub rename : Bool
  pub chmod : Bool

pub record WatchEvent : Type 0 where
  pub name : String
  pub op : Op

-- `NewEngine`.
unfoldable pub new_engine : EngineConfig → Engine
new_engine config = record { config = config; watched_dirs = []; running = false; pending = [] }

-- `filepath.Base` is a parameter. Temporary and hidden files.
unfoldable pub is_skipped : (String → String) → String → Bool
is_skipped base name = starts_with (base name) "." || ends_with name ".tmp" || ends_with name ".swp"

-- The type of the operation; `none` where the handler returns.
unfoldable pub operation_of : Op → Option String
operation_of op =
    if op.create
    then some "create"
    else if op.write
    then some "modify"
    else if op.remove
    then some "delete"
    else if op.rename
    then some "rename"
    else none

-- `handleFileEvent`.
unfoldable pub handle_watch_event : (String → String) → WatchEvent → Engine → Engine
handle_watch_event base event e =
    if is_skipped base event.name then e else elim (operation_of event.op) [
      | none ↦ e
      | some operation ↦ record e { pending = (event.name, operation) ∷ e.pending }
    ]

module _ {Fs : Type 0} (os : Os Fs) (stat : String → Fs → Stat) (watch : String → Fs → Bool) where
  unfoldable pub is_missing : String → Fs → Bool
  is_missing path fs = elim (stat path fs) [ Stat.not_exist ↦ true | _ ↦ false ]

  -- `addWatchedPath`, which `AddWatchedPath` calls. `watch` is the watcher's Add.
  unfoldable pub add_watched_path : String → Engine → Fs → (Engine × Fs) × Option EngineError
  add_watched_path path e fs =
      let made = if is_missing path fs then os.mkdir_all path fs else (fs, true) in
      if made.1
      then if watch path made.0
        then ((record e { watched_dirs = insert path true e.watched_dirs }, made.0), none)
        else ((e, made.0), some EngineError.watch_failed)
      else ((e, made.0), some EngineError.mkdir_failed)

  -- The loop of `Start`; its errors are only logged.
  unfoldable pub add_all : List String → Engine → Fs → Engine × Fs
  add_all [] e fs = (e, fs)
  add_all (path ∷ paths) e fs =
      let added = (add_watched_path path e fs).0 in add_all paths added.0 added.1

  -- `Start`. `creates` says whether fsnotify.NewWatcher succeeds.
  unfoldable pub start_engine : Bool → Engine → Fs → (Engine × Fs) × Option EngineError
  start_engine creates e fs =
      let added = add_all e.config.watched_paths e fs in
      if e.running
      then ((e, fs), some EngineError.already_running)
      else if creates
      then ((record added.0 { running = true }, added.1), none)
      else ((e, fs), some EngineError.watcher_failed)

-- `Stop`: the goroutines that process events are not waited for.
unfoldable pub stop_engine : Engine → Engine
stop_engine e = if e.running then record e { running = false } else e
