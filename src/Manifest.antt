-- ===== src/Manifest.antt =====
-- The manifest of the files that a client must have, src/shared/checksum/manifest.c: its data and the look-ups.
-- `bc_manifest_load`, which reads a JSON file, and the summary for the log are outside the model.
use open_bc.Base.{ℕ, Bool, Option, none, some, List, [], ◌∷◌, ◌==◌, if◌then◌else◌}

-- `bc_manifest_file_t`, and `bc_checksum_file_t` of a client's answer
pub record FileHash : Type 0 where
  pub name_hash : ℕ
  pub content_hash : ℕ

-- `bc_manifest_subdir_t`; an array with its count is a list.
pub record ManifestSubdir : Type 0 where
  pub name_hash : ℕ
  pub files : List FileHash

-- `bc_manifest_dir_t`
pub record ManifestDir : Type 0 where
  pub dir_name_hash : ℕ
  pub recursive : Bool
  pub files : List FileHash
  pub subdirs : List ManifestSubdir

abbrev pub file_name : FileHash → ℕ
file_name f = f.name_hash

abbrev pub subdir_name : ManifestSubdir → ℕ
subdir_name s = s.name_hash

-- The loop of the three look-ups: the first entry of the name.
unfoldable pub find_by : {A : Type 0} → (A → ℕ) → ℕ → List A → Option A
find_by name_of name_hash [] = none
find_by name_of name_hash (x ∷ xs) =
    if name_of x == name_hash then some x else find_by name_of name_hash xs

abbrev pub find_file : ManifestDir → ℕ → Option FileHash
find_file dir name_hash = find_by file_name name_hash dir.files

abbrev pub find_subdir_file : ManifestSubdir → ℕ → Option FileHash
find_subdir_file subdir name_hash = find_by file_name name_hash subdir.files

abbrev pub find_subdir : ManifestDir → ℕ → Option ManifestSubdir
find_subdir dir name_hash = find_by subdir_name name_hash dir.subdirs
