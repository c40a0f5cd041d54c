-- ===== src/Handshake/Response/Wire.antt =====
-- The directory tree of a client and its bytes on the wire.
use open_bc.Base.{ℕ, suc, ◌<◌, ◌^◌, max, List, [], ◌∷◌, ◌++◌, length, All, IsU32}
use open_bc.Buffer.Writes.{le16, le32}
use open_bc.Manifest.{FileHash}

mutual
  pub data Tree : Type 0 where
    node : List FileHash → Subtrees → Tree

  pub data Subtrees : Type 0 where
    leaf : Subtrees
    sub : ℕ → Tree → Subtrees → Subtrees

abbrev pub own_files : Tree → List FileHash
own_files (node files subs) = files

abbrev pub names : Subtrees → List ℕ
names leaf = []
names (sub name t ts) = name ∷ names ts

abbrev pub file_bytes : List FileHash → List ℕ
file_bytes [] = []
file_bytes (f ∷ fs) = le32 f.name_hash ++ (le32 f.content_hash ++ file_bytes fs)

abbrev pub name_bytes : List ℕ → List ℕ
name_bytes [] = []
name_bytes (n ∷ ns) = le32 n ++ name_bytes ns

unfoldable mutual
  pub tree_bytes : Tree → List ℕ
  tree_bytes (node files subs) =
      le16 (length files)
      ++ (file_bytes files
          ++ (length (names subs) ∷ (name_bytes (names subs) ++ subtree_bytes subs)))

  pub subtree_bytes : Subtrees → List ℕ
  subtree_bytes leaf = []
  subtree_bytes (sub name t ts) = tree_bytes t ++ subtree_bytes ts

-- How deep the tree goes; 1 for a directory without subdirectories.
unfoldable mutual
  pub depth : Tree → ℕ
  depth (node files subs) = suc (depth_subs subs)

  pub depth_subs : Subtrees → ℕ
  depth_subs leaf = 0
  depth_subs (sub name t ts) = max (depth t) (depth_subs ts)

abbrev pub IsWord : FileHash → Type 0
IsWord f = IsU32 f.name_hash × IsU32 f.content_hash

-- Counts and hashes that their fields hold, at every level.
unfoldable mutual
  pub Encodes : Tree → Type 0
  Encodes (node files subs) =
      (length files < 2 ^ 16) × All IsWord files × (length (names subs) < 256) × EncodesAll subs

  pub EncodesAll : Subtrees → Type 0
  EncodesAll leaf = Unit
  EncodesAll (sub name t ts) = IsU32 name × Encodes t × EncodesAll ts
