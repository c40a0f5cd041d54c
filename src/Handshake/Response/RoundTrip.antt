-- ===== src/Handshake/Response/RoundTrip.antt =====
-- Responses as clients encode them, and what the parser makes of them.
use open_bc.Base.{
  ℕ, zero, suc, ◌-◌, ◌≤◌, ◌<◌, ◌^◌, ◌≡◌, refl, ap, ◌∙◌, subst, arith, Bool, true, false, not, ◌&&◌,
  Option, none, some,
}
use open_bc.Base.{
  List, [], ◌∷◌, ◌++◌, length, All, IsU32, take, ltb, ◌==◌, if◌then◌else◌, if_false, Bool-cases,
  by_branch, inl, inr,
}
use mathlib.Core.List.{append-nil}
use open_bc.Buffer.Writes.{le32}
use open_bc.Buffer.Reads.{Takes, read_u8-Takes, read_u16-Takes, read_u32-Takes}
use open_bc.Buffer.Seq.{Read, ◌>>=◌, pure, parse_lem, Takes-pure, Takes->>=, Takes-guard}
use open_bc.Manifest.{FileHash}
use open_bc.Handshake.Response.{
  SubdirResp, FileTree, ChecksumResp, max_resp_subdirs, max_resp_files, max_sub_files, exceeds,
  read_file_hashes, read_name_hashes, read_subtrees, parse_file_tree, read_ref_hash, read_response,
  checksum_response_parse,
}
use open_bc.Handshake.Response.Wire.{
  Tree, Subtrees, node, leaf, sub, own_files, names, file_bytes, name_bytes, tree_bytes,
  subtree_bytes, depth, depth_subs, IsWord, Encodes, EncodesAll,
}

pub Takes-map {ℓ κ} :
    {A : Type ℓ} {B : Type κ} {r : Read A} {xs : List ℕ} {a : A} (f : A → B)
    → Takes r xs a
    → Takes (r >>= λ x. pure (f x)) xs (f a)
Takes-map {r} {xs} {a} f h =
    subst (λ ys. Takes (r >>= λ x. pure (f x)) ys (f a)) (append-nil xs)
      (Takes->>= (λ x. pure (f x)) h (Takes-pure (f a)))

pub file_hashes-Takes :
    (fs : List FileHash) → All IsWord fs → Takes (read_file_hashes (length fs)) (file_bytes fs) fs
file_hashes-Takes [] h = Takes-pure []
file_hashes-Takes (f ∷ fs) h = Takes->>= _ (read_u32-Takes f.name_hash h.0.0) (
    Takes->>= _ (read_u32-Takes f.content_hash h.0.1)
      (Takes-map (λ rest. f ∷ rest) (file_hashes-Takes fs h.1)))

pub name_hashes-Takes :
    (ns : List ℕ) → All IsU32 ns → Takes (read_name_hashes (length ns)) (name_bytes ns) ns
name_hashes-Takes [] h = Takes-pure []
name_hashes-Takes (n ∷ ns) h =
    Takes->>= _ (read_u32-Takes n h.0) (Takes-map (λ rest. n ∷ rest) (name_hashes-Takes ns h.1))

pub names-IsU32 : (ts : Subtrees) → EncodesAll ts → All IsU32 (names ts)
unfolding Encodes
names-IsU32 leaf h = tt
names-IsU32 (sub name t ts) h = (h.0, names-IsU32 ts h.2)

-- A reader of trees of at most `levels` levels that stores the tree's own files only.
pub record ReadsTrees (levels : ℕ) (subtree : Option ℕ → Read FileTree) : Type 0 where
  pub reads :
      (t : Tree) (limit : Option ℕ)
      → Encodes t
      → depth t ≤ levels
      → exceeds limit (length (own_files t)) ≡ false
      → Takes (subtree limit) (tree_bytes t) (record { files = own_files t; subdirs = [] })

-- The directories of a tree as a response lists them.
abbrev pub listed : Subtrees → List SubdirResp
listed leaf = []
listed (sub name t ts) = record { name_hash = name; files = own_files t } ∷ listed ts

-- The first `n` of them have no more files than a response stores.
abbrev pub FewFiles : ℕ → Subtrees → Type 0
FewFiles zero ts = Unit
FewFiles (suc n) leaf = Unit
FewFiles (suc n) (sub name t ts) = (length (own_files t) ≤ max_sub_files) × FewFiles n ts

pub unstored :
    (levels : ℕ) (subtree : Option ℕ → Read FileTree) (i : ℕ) (ts : Subtrees)
    → ReadsTrees levels subtree
    → EncodesAll ts
    → depth_subs ts ≤ levels
    → Takes (read_subtrees subtree false i (names ts)) (subtree_bytes ts) []
unfolding Encodes depth tree_bytes
unstored levels subtree i leaf r h few = Takes-pure []
unstored levels subtree i (sub name t ts) r h few =
    Takes->>= _ (r.reads t none h.1 (omega arith) refl)
      (unstored levels subtree (suc i) ts r h.2 (omega arith))

stored :
    (levels : ℕ) (subtree : Option ℕ → Read FileTree) (i left : ℕ) (ts : Subtrees)
    → ReadsTrees levels subtree
    → EncodesAll ts
    → depth_subs ts ≤ levels
    → left ≡ max_resp_subdirs - i
    → FewFiles left ts
    → Takes (read_subtrees subtree true i (names ts)) (subtree_bytes ts) (take left (listed ts))
unfolding Encodes depth tree_bytes
stored levels subtree i zero leaf r h few e small = Takes-pure []
stored levels subtree i (suc left) leaf r h few e small = Takes-pure []
stored levels subtree i zero (sub name t ts) r h few e small =
    by_branch (λ (q : Read (List SubdirResp)). Takes q (subtree_bytes (sub name t ts)) [])
      (true && ltb i max_resp_subdirs) (λ free. absurd (ground (arith, e, free)))
      (λ full.
        Takes->>= (λ _. read_subtrees subtree true (suc i) (names ts))
          (r.reads t none h.1 (omega arith) refl)
          (stored levels subtree (suc i) zero ts r h.2 (omega arith) (omega arith) tt))
stored levels subtree i (suc left) (sub name t ts) r h few e small =
    by_branch
      (λ (q : Read (List SubdirResp)).
        Takes q (subtree_bytes (sub name t ts)) (take (suc left) (listed (sub name t ts))))
      (true && ltb i max_resp_subdirs)
      (λ free.
        Takes->>= _ (r.reads t (some max_sub_files) h.1 (omega arith) (ground (arith, small))) (
          Takes-map (λ others. record { name_hash = name; files = own_files t } ∷ others)
            (stored levels subtree (suc i) left ts r h.2 (omega arith) (omega arith) small.1)))
      (λ full. absurd (ground (arith, e, full)))

-- A tree's bytes are read where its subtrees' are.
pub read_node :
    (levels : ℕ) (keep : Bool) (limit : Option ℕ) (files : List FileHash) (ts : Subtrees)
    {subdirs : List SubdirResp}
    → Encodes (node files ts)
    → exceeds limit (length files) ≡ false
    → Takes
        (read_subtrees (parse_file_tree levels false) keep 0 (names ts))
        (subtree_bytes ts)
        subdirs
    → Takes
        (parse_file_tree (suc levels) keep limit)
        (tree_bytes (node files ts))
        (record { files = files; subdirs = subdirs })
unfolding parse_file_tree Encodes tree_bytes
read_node levels keep limit files ts h fits loop =
    let allowed : not (exceeds limit (length files)) ≡ true = ap not fits in
    Takes->>= _ (read_u16-Takes (length files) h.0) (
      Takes-guard allowed (
        Takes->>= _ (file_hashes-Takes files h.1) (
          Takes->>= _ (read_u8-Takes (length (names ts))) (
            Takes->>= _ (name_hashes-Takes (names ts) (names-IsU32 ts h.3))
              (Takes-map (λ subdirs. record { files = files; subdirs = subdirs }) loop)))))

pub parse_file_tree-ReadsTrees : (levels : ℕ) → ReadsTrees levels (parse_file_tree levels false)
unfolding depth Encodes parse_file_tree
parse_file_tree-ReadsTrees zero = record { reads = none_fits }
  where
    none_fits :
        (t : Tree) (limit : Option ℕ)
        → Encodes t
        → depth t ≤ 0
        → exceeds limit (length (own_files t)) ≡ false
        → Takes
            (parse_file_tree 0 false limit)
            (tree_bytes t)
            (record { files = own_files t; subdirs = [] })
    none_fits (node files ts) limit h few fits = absurd (omega (arith, few))
parse_file_tree-ReadsTrees (suc levels) = record {
  reads = λ t. each t (parse_file_tree-ReadsTrees levels);
}
  where
    each :
        (t : Tree)
        → ReadsTrees levels (parse_file_tree levels false)
        → (limit : Option ℕ) → Encodes t
        → depth t ≤ suc levels
        → exceeds limit (length (own_files t)) ≡ false
        → Takes
            (parse_file_tree (suc levels) false limit)
            (tree_bytes t)
            (record { files = own_files t; subdirs = [] })
    each (node files ts) below limit h few fits =
        read_node levels false limit files ts h fits
          (unstored levels (parse_file_tree levels false) 0 ts below h.3 (omega (arith, few)))

-- A response of a client: its round, the hash of the game version in round 0, the directory's hash, the tree.
abbrev pub response_bytes : ℕ → ℕ → ℕ → Tree → List ℕ
response_bytes round ref dir t =
    0x21 ∷ round ∷ ((if round == 0 then le32 ref else []) ++ (le32 dir ++ tree_bytes t))

-- What the parser keeps of it.
abbrev pub response : ℕ → ℕ → ℕ → List FileHash → Subtrees → ChecksumResp
response round ref dir files ts = record {
  round_index = round;
  ref_hash = if round == 0 then ref else 0;
  dir_hash = dir;
  empty = false;
  files = files;
  subdirs = take max_resp_subdirs (listed ts);
}

pub ref_hash-Takes :
    (round ref : ℕ)
    → IsU32 ref
    → Takes
        (read_ref_hash round)
        (if round == 0 then le32 ref else [])
        (if round == 0 then ref else 0)
ref_hash-Takes round ref h = elim (Bool-cases (round == 0)) [
  | inl first ↦ rw first (read_u32-Takes ref h)
  | inr later ↦ rw later (Takes-pure 0)
]

pub parse-response_bytes :
    (round ref dir : ℕ) (files : List FileHash) (ts : Subtrees) (rest : List ℕ)
    → IsU32 ref
    → IsU32 dir
    → Encodes (node files ts)
    → depth (node files ts) ≤ 17
    → length files ≤ 256
    → FewFiles 8 ts
    → length (response_bytes round ref dir (node files ts) ++ rest) < 2 ^ 63
    → checksum_response_parse (response_bytes round ref dir (node files ts) ++ rest)
      ≡ some (response round ref dir files ts)
unfolding checksum_response_parse Encodes depth
parse-response_bytes round ref dir files ts rest href hdir h shallow few each short =
    if_false {test = ltb (length (response_bytes round ref dir (node files ts) ++ rest)) 2} none
      (ground arith)
    ∙ parse_lem rest reads short
  where
    tree :
        Takes
          (parse_file_tree 17 true (some max_resp_files))
          (tree_bytes (node files ts))
          (record { files = files; subdirs = take max_resp_subdirs (listed ts) })
    tree = read_node 16 true (some max_resp_files) files ts h (ground (arith, few)) (
        stored 16 (parse_file_tree 16 false) 0 8 ts (parse_file_tree-ReadsTrees 16) h.3
          (omega (arith, shallow)) (omega arith) each)

    reads :
        Takes read_response
          (response_bytes round ref dir (node files ts))
          (response round ref dir files ts)
    reads = Takes->>= _ (read_u8-Takes 0x21) (
        Takes-guard refl (
          Takes->>= _ (read_u8-Takes round) (
            Takes->>= _ (ref_hash-Takes round ref href) (
              Takes->>= _ (read_u32-Takes dir hdir) (
                Takes-map
                  (λ (tree : FileTree). record {
                    round_index = round;
                    ref_hash = if round == 0 then ref else 0;
                    dir_hash = dir;
                    empty = false;
                    files = tree.files;
                    subdirs = tree.subdirs;
                  })
                  tree)))))
