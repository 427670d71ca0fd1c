-- ===== src/Witnesses/Files.antt =====
-- A file system for the tests: a map from paths to contents, on which every operation succeeds.
use syncmesh.Common.{
  ◌≡◌, refl, ◌∙◌, ◌≢◌, eq-false, String, true, some, [], Map, lookup, insert, lookup-insert, erase,
  eq_refl,
}
use syncmesh.FileSync.State.{Bytes}
use syncmesh.FileSync.Files.{Os, IsFileSystem, Removal}

abbrev pub toy_os : Os (Map Bytes)
toy_os = record {
  dir = λ path. "/app/data";
  mkdir_all = λ path fs. (fs, true);
  create = λ path fs. (insert path [] fs, true);
  write = λ path bytes fs. (insert path bytes fs, true);
  remove = λ path fs. (erase path fs, Removal.removed);
  read_file = λ path fs. lookup path fs;
}

inserted :
    (path : String) (bytes : Bytes) (fs : Map Bytes)
    → lookup path (insert path bytes fs) ≡ some bytes
inserted path bytes fs = lookup-insert path path bytes fs ∙ rw (eq_refl path) refl

untouched :
    (p q : String) (bytes : Bytes) (fs : Map Bytes)
    → p ≢ q
    → lookup q (insert p bytes fs) ≡ lookup q fs
untouched p q bytes fs other = lookup-insert p q bytes fs ∙ rw (eq-false p q other) refl

pub toy_os-IsFileSystem : IsFileSystem toy_os (λ path. path)
toy_os-IsFileSystem = record {
  mkdir_all-read_file = λ d q fs. refl;
  create-read_file = λ p q fs other. untouched p q [] fs other;
  write-read_file = λ p q bytes fs other. untouched p q bytes fs other;
  create-write-read_file = λ p bytes fs _ _. inserted p bytes _;
}
