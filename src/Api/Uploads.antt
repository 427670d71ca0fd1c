-- ===== src/Api/Uploads.antt =====
-- pkg/api/handler.go, `receiveFile`: a file that another node uploads.
use syncmesh.Common.{
  ◌≡◌, refl, ◌⊎◌, ◌≢◌, inl, inr, String, Bool, false, Option, none, some, maybe, [], ◌==◌, ◌||◌,
  length, if◌then◌else◌, text_cases, Bool-cases, Option-cases, pos, zero_time,
}
use syncmesh.FileSync.State.{Bytes, FileEvent}
use syncmesh.FileSync.Files.{Os, IsFileSystem, FileError, CanWrite, create_or_modify_file}
use syncmesh.FileSync.Writes.{create_or_modify_file-read_file, create_or_modify_file-others}
use syncmesh.Api.State.{Body, Response, answer, refuse}

-- The form of the request: whether it can be parsed, its fields, and its file.
pub record Upload : Type 0 where
  pub parses : Bool
  pub operation : String
  pub path : String
  pub checksum : String
  pub file : Option Bytes

module _ {Fs : Type 0} (os : Os Fs) where
  -- From the directory to the copy of the content, with the file system as it stands in each case.
  unfoldable pub save_upload : String → Bytes → Fs → Fs × Option FileError
  save_upload path bytes fs =
      let made = os.mkdir_all (os.dir path) fs in
      let created = os.create path made.0 in
      let written = os.write path bytes created.0 in
      if made.1
      then if created.1
        then if written.1 then (written.0, none) else (written.0, some FileError.write_failed)
        else (created.0, some FileError.create_failed)
      else (made.0, some FileError.mkdir_failed)

  unfoldable pub failed_upload : FileError → Response
  failed_upload FileError.mkdir_failed = refuse 500 "Failed to create directory"
  failed_upload FileError.create_failed = refuse 500 "Failed to create file"
  failed_upload _ = refuse 500 "Failed to write file"

  unfoldable pub receive_bytes : Upload → Bytes → Fs → Fs × Response
  receive_bytes form bytes fs =
      let saved = save_upload form.path bytes fs in
      (
        saved.0,
        maybe saved.1 (answer (Body.received form.path (length bytes) form.operation))
            failed_upload,
      )

  -- `receiveFile`.
  unfoldable pub receive_file : Upload → Fs → Fs × Response
  receive_file form fs =
      let given =
        maybe form.file (fs, refuse 400 "Failed to get uploaded file")
          λ bytes. receive_bytes form bytes fs in
      if form.parses
      then if form.path == "" || form.operation == ""
        then (fs, refuse 400 "Missing required fields: path, operation")
        else given
      else (fs, refuse 400 "Failed to parse multipart form")

-- The form is not read, or it lacks one of its parts.
abbrev pub IsIncomplete : Upload → Type 0
IsIncomplete form =
    (form.parses ≡ false) ⊎ (form.path ≡ "") ⊎ (form.operation ≡ "") ⊎ (form.file ≡ none)

abbrev upload_event : String → FileEvent
upload_event path = record {
  path = path;
  operation = "";
  timestamp = zero_time;
  size = pos 0;
  checksum = "";
  mod_time = zero_time;
  from_peer = "";
  version = 0;
  metadata = [];
}

module _ {Fs : Type 0} (os : Os Fs) where
  saves_as_sync :
      (path : String) (bytes : Bytes) (fs : Fs)
      → save_upload os path bytes fs ≡ create_or_modify_file os (upload_event path) bytes fs
  unfolding save_upload create_or_modify_file
  saves_as_sync path bytes fs = refl

  receive_file-cases :
      (form : Upload) (fs : Fs)
      → IsIncomplete form
          × ((receive_file os form fs).0 ≡ fs)
          × ((receive_file os form fs).1.code ≡ 400)
        ⊎ ((bytes : Bytes) × (form.file ≡ some bytes)
            × (receive_file os form fs ≡ receive_bytes os form bytes fs))
  unfolding receive_file refuse
  receive_file-cases form fs = elim (Bool-cases form.parses) [
    | inr e ↦ inl (inl e, rw e refl, rw e refl)
    | inl e ↦ elim (text_cases form.path "") [
      | inl (t, nameless) ↦ inl (inr (inl nameless), rw (e, t) refl, rw (e, t) refl)
      | inr (t, _) ↦ elim (text_cases form.operation "") [
        | inl (u, idle) ↦ inl (inr (inr (inl idle)), rw (e, t, u) refl, rw (e, t, u) refl)
        | inr (u, _) ↦ elim (Option-cases form.file) [
          | inl bare ↦
              inl (inr (inr (inr bare)), rw (e, t, u) (rw bare refl), rw (e, t, u) (rw bare refl))
          | inr (bytes, given) ↦ inr (bytes, given, rw (e, t, u) (rw given refl))
        ]
      ]
    ]
  ]

module _ {Fs : Type 0} (os : Os Fs) (file_of : String → String)
    (is_fs : IsFileSystem os file_of) where
  -- An upload without a path, an operation or a file is refused and changes nothing. Any other changes
  -- at most the file that its path names, wherever that is, and if it can be written, the answer says
  -- so and the file has the uploaded content, whatever the operation and the checksum are.
  pub receive_file-read_file :
      (form : Upload) (fs : Fs)
      → let (after_it, response) = receive_file os form fs in
        IsIncomplete form × (after_it ≡ fs) × (response.code ≡ 400)
        ⊎ ((bytes : Bytes) × (form.file ≡ some bytes)
            × ((q : String)
                → file_of form.path ≢ file_of q
                → os.read_file q after_it ≡ os.read_file q fs)
            × (CanWrite os form.path bytes fs
                → (response.code ≡ 200) × (os.read_file form.path after_it ≡ some bytes)))
  unfolding receive_bytes answer
  receive_file-read_file form fs = elim (receive_file-cases os form fs) [
    | inl refused ↦ inl refused
    | inr (bytes, given, e) ↦ inr (
      bytes,
      given,
      λ q other.
          rw (e, saves_as_sync os form.path bytes fs)
            (create_or_modify_file-others os file_of is_fs (upload_event form.path) bytes fs q
              other),
      λ can.
          let (done, content) =
            create_or_modify_file-read_file os file_of is_fs (upload_event form.path) bytes fs
              can in
          rw (e, saves_as_sync os form.path bytes fs) (rw done refl, content),
    )
  ]
