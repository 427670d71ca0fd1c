-- ===== src/FileSync/Files.antt =====
-- internal/p2p/file_sync.go: the changes to the file system. The operating system is a parameter;
-- a Boolean beside the file system that an operation leaves says whether it succeeded.
use syncmesh.Common.{◌≡◌, ◌≢◌, String, Bool, true, Option, none, some, ◌==◌, ◌||◌, if◌then◌else◌}
use syncmesh.FileSync.State.{Bytes, FileEvent}

-- What `os.Remove` reports.
pub data Removal : Type 0 where
  removed missing refused : Removal

pub record Os (Fs : Type 0) : Type 0 where
  pub dir : String → String
  pub mkdir_all : String → Fs → Fs × Bool
  pub create : String → Fs → Fs × Bool
  pub write : String → Bytes → Fs → Fs × Bool
  pub remove : String → Fs → Fs × Removal
  pub read_file : String → Fs → Option Bytes

-- What the code relies on. `file_of` is the file that a path names, since two paths may name one.
pub record IsFileSystem {Fs : Type 0} (os : Os Fs) (file_of : String → String) : Type 0 where
  pub mkdir_all-read_file :
      (d q : String) (fs : Fs) → os.read_file q (os.mkdir_all d fs).0 ≡ os.read_file q fs
  pub create-read_file :
      (p q : String) (fs : Fs)
      → file_of p ≢ file_of q
      → os.read_file q (os.create p fs).0 ≡ os.read_file q fs
  pub write-read_file :
      (p q : String) (bytes : Bytes) (fs : Fs)
      → file_of p ≢ file_of q
      → os.read_file q (os.write p bytes fs).0 ≡ os.read_file q fs
  -- What is written to a file that was created, and so truncated, just before is all its content.
  pub create-write-read_file :
      (p : String) (bytes : Bytes) (fs : Fs)
      → (os.create p fs).1 ≡ true
      → (os.write p bytes (os.create p fs).0).1 ≡ true
      → os.read_file p (os.write p bytes (os.create p fs).0).0 ≡ some bytes

pub data FileError : Type 0 where
  mkdir_failed create_failed write_failed delete_failed : FileError
  unsupported_operation : String → FileError

module _ {Fs : Type 0} (os : Os Fs) where
  -- `createOrModifyFile`, with the file system as it stands in each case.
  unfoldable pub create_or_modify_file : FileEvent → Bytes → Fs → Fs × Option FileError
  create_or_modify_file event file_data fs =
      let made = os.mkdir_all (os.dir event.path) fs in
      let created = os.create event.path made.0 in
      let written = os.write event.path file_data created.0 in
      if made.1
      then if created.1
        then if written.1 then (written.0, none) else (written.0, some FileError.write_failed)
        else (created.0, some FileError.create_failed)
      else (made.0, some FileError.mkdir_failed)

  -- `deleteFile`.
  unfoldable pub delete_file : FileEvent → Fs → Fs × Option FileError
  delete_file event fs =
      let gone = os.remove event.path fs in
      elim gone.1 [
        | Removal.removed ↦ (gone.0, none)
        | Removal.missing ↦ (gone.0, none)
        | Removal.refused ↦ (gone.0, some FileError.delete_failed)
      ]

  -- `applyFileOperation`.
  unfoldable pub apply_file_operation : FileEvent → Bytes → Fs → Fs × Option FileError
  apply_file_operation event file_data fs =
      if event.operation == "create" || event.operation == "modify"
      then create_or_modify_file event file_data fs
      else if event.operation == "delete"
      then delete_file event fs
      else (fs, some (FileError.unsupported_operation event.operation))

  -- The three steps of writing a file, all of which succeed.
  abbrev pub CanWrite : String → Bytes → Fs → Type 0
  CanWrite path bytes fs =
      let made = os.mkdir_all (os.dir path) fs in
      let created = os.create path made.0 in
      (made.1 ≡ true) × (created.1 ≡ true) × ((os.write path bytes created.0).1 ≡ true)
