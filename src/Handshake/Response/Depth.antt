-- ===== src/Handshake/Response/Depth.antt =====
-- Responses whose directory tree is nested more deeply than the parser follows.
use open_bc.Base.{
  ℕ, zero, suc, ◌<◌, ◌^◌, ◌≡◌, refl, ap, ◌∙◌, arith, Bool, true, false, not, ◌&&◌, Option, none,
  some,
}
use open_bc.Base.{
  List, [], ◌∷◌, ◌++◌, length, IsU32, ltb, if_false, by_branch, Bool-cases, inl, inr,
}
use mathlib.Core.List.{append_assoc}
use open_bc.Buffer.{Buffer, init}
use open_bc.Buffer.Writes.{IsValid}
use open_bc.Buffer.Reads.{
  Takes, unread, skip, skip-IsValid, read_u8-Takes, read_u16-Takes, read_u32-Takes,
}
use open_bc.Buffer.Seq.{Read, ◌>>=◌, ◌>>◌, proceed, pure, guard, parse}
use open_bc.Manifest.{FileHash}
use open_bc.Handshake.Response.{
  SubdirResp, FileTree, max_resp_subdirs, max_sub_files, max_resp_files, exceeds, read_subtrees,
  parse_file_tree, read_response, checksum_response_parse,
}
use open_bc.Handshake.Response.Wire.{
  Tree, Subtrees, node, leaf, sub, own_files, names, tree_bytes, subtree_bytes, depth, depth_subs,
  Encodes, EncodesAll,
}
use open_bc.Handshake.Response.RoundTrip.{
  ReadsTrees, parse_file_tree-ReadsTrees, file_hashes-Takes, name_hashes-Takes, names-IsU32,
  ref_hash-Takes, response_bytes,
}

-- A read that fails on the bytes ahead, whatever follows them.
record Refuses {ℓ} {A : Type ℓ} (r : Read A) (ahead : List ℕ) : Type ℓ where
  refuses : (b : Buffer) (rest : List ℕ) → IsValid b → unread b ≡ ahead ++ rest → (r b).0 ≡ none

stays_none {ℓ κ} :
    {A : Type ℓ} {B : Type κ} (k : A → Read B) (p : Option A × Buffer)
    → p.0 ≡ none
    → (proceed k p).0 ≡ none
stays_none k (none, b) e = refl
stays_none k (some a, b) e = cc

fails_here {ℓ κ} :
    {A : Type ℓ} {B : Type κ} {r : Read A} (k : A → Read B) {xs : List ℕ}
    → Refuses r xs
    → Refuses (r >>= k) xs
fails_here {r} k h = record { refuses = λ b rest v e. stays_none k (r b) (h.refuses b rest v e) }

fails_first {ℓ κ} :
    {A : Type ℓ} {B : Type κ} {r : Read A} (k : A → Read B) {xs : List ℕ} (ys : List ℕ)
    → Refuses r xs
    → Refuses (r >>= k) (xs ++ ys)
fails_first {r} k {xs} ys h = record {
  refuses =
      λ b rest v e. stays_none k (r b) (h.refuses b (ys ++ rest) v (e ∙ append_assoc xs ys rest));
}

fails_later {ℓ κ} :
    {A : Type ℓ} {B : Type κ} {r : Read A} (k : A → Read B) {xs ys : List ℕ} {a : A}
    → Takes r xs a
    → Refuses (k a) ys
    → Refuses (r >>= k) (xs ++ ys)
fails_later {r} k {xs} {ys} {a} hr hk = record { refuses = go }
  where
    go :
        (b : Buffer) (rest : List ℕ)
        → IsValid b
        → unread b ≡ (xs ++ ys) ++ rest
        → ((r >>= k) b).0 ≡ none
    go b rest v e =
        let e' : unread b ≡ xs ++ (ys ++ rest) = e ∙ append_assoc xs ys rest in
        let after = skip-IsValid b xs (ys ++ rest) v e' in
        ap (λ p. (proceed k p).0) (hr.takes b (ys ++ rest) v e')
        ∙ hk.refuses (skip (length xs) b) rest after.0 after.1

fails_after_guard {κ} :
    {B : Type κ} (test : Bool) {k : Read B} {ys : List ℕ}
    → Refuses k ys
    → Refuses (guard test >> k) ys
fails_after_guard true {k} h = record { refuses = λ b rest v e. h.refuses b rest v e }
fails_after_guard false {k} h = record { refuses = λ b rest v e. refl }

-- What a reader of trees does with a tree that is too deep, or has too many files.
record RefusesTrees (levels : ℕ) (subtree : Option ℕ → Read FileTree) : Type 0 where
  deep :
      (t : Tree) (limit : Option ℕ)
      → Encodes t
      → levels < depth t
      → Refuses (subtree limit) (tree_bytes t)
  full :
      (t : Tree) (limit : Option ℕ)
      → Encodes t
      → exceeds limit (length (own_files t)) ≡ true
      → Refuses (subtree limit) (tree_bytes t)

subtrees_refused :
    (levels : ℕ) (subtree : Option ℕ → Read FileTree) (keep : Bool) (i : ℕ) (ts : Subtrees)
    → ReadsTrees levels subtree
    → RefusesTrees levels subtree
    → EncodesAll ts
    → levels < depth_subs ts
    → Refuses (read_subtrees subtree keep i (names ts)) (subtree_bytes ts)
unfolding Encodes depth tree_bytes
subtrees_refused levels subtree keep i leaf r f h over = absurd (omega (arith, over))
subtrees_refused levels subtree keep i (sub name t ts) r f h over =
    by_branch (λ (q : Read (List SubdirResp)). Refuses q (tree_bytes t ++ subtree_bytes ts))
      (keep && ltb i max_resp_subdirs)
      (λ _.
        one_of (some max_sub_files)
          (λ t. read_subtrees subtree keep (suc i) (names ts) >>= λ others.
            pure (record { name_hash = name; files = t.files } ∷ others))
          (λ fits. fails_here _ (subtrees_refused levels subtree keep (suc i) ts r f h.2 fits)))
      (λ _.
        one_of none (λ _. read_subtrees subtree keep (suc i) (names ts))
          (subtrees_refused levels subtree keep (suc i) ts r f h.2))
  where
    one_of :
        (limit : Option ℕ) (k : FileTree → Read (List SubdirResp))
        → (levels < depth_subs ts
            → Refuses (k (record { files = own_files t; subdirs = [] })) (subtree_bytes ts))
        → Refuses (subtree limit >>= k) (tree_bytes t ++ subtree_bytes ts)
    one_of limit k later = elim (Bool-cases (ltb levels (depth t))) [
      | inl too_deep ↦
          fails_first k (subtree_bytes ts) (f.deep t limit h.1 (ground (arith, too_deep)))
      | inr shallow ↦ elim (Bool-cases (exceeds limit (length (own_files t)))) [
        | inl many ↦ fails_first k (subtree_bytes ts) (f.full t limit h.1 many)
        | inr few ↦
            fails_later k (r.reads t limit h.1 (ground (arith, shallow)) few)
              (later (ground (arith, shallow, over)))
      ]
    ]

node_refused :
    (levels : ℕ) (keep : Bool) (limit : Option ℕ) (files : List FileHash) (ts : Subtrees)
    → Encodes (node files ts)
    → Refuses (read_subtrees (parse_file_tree levels false) keep 0 (names ts)) (subtree_bytes ts)
    → Refuses (parse_file_tree (suc levels) keep limit) (tree_bytes (node files ts))
unfolding parse_file_tree Encodes tree_bytes
node_refused levels keep limit files ts h loop = fails_later _ (read_u16-Takes (length files) h.0) (
    fails_after_guard (not (exceeds limit (length files))) (
      fails_later _ (file_hashes-Takes files h.1) (
        fails_later _ (read_u8-Takes (length (names ts)))
          (fails_later _ (name_hashes-Takes (names ts) (names-IsU32 ts h.3)) (fails_here _ loop)))))

too_many :
    (levels : ℕ) (t : Tree) (limit : Option ℕ)
    → Encodes t
    → exceeds limit (length (own_files t)) ≡ true
    → Refuses (parse_file_tree levels false limit) (tree_bytes t)
unfolding parse_file_tree Encodes tree_bytes
too_many zero t limit h many = record { refuses = λ b rest v e. refl }
too_many (suc levels) (node files ts) limit h many =
    fails_later _ (read_u16-Takes (length files) h.0)
      (record { refuses = λ b rest v e. rw many refl })

deeper :
    (levels : ℕ) (files : List FileHash) (ts : Subtrees) (keep : Bool)
    → RefusesTrees levels (parse_file_tree levels false)
    → Encodes (node files ts)
    → suc levels < depth (node files ts)
    → Refuses (read_subtrees (parse_file_tree levels false) keep 0 (names ts)) (subtree_bytes ts)
unfolding Encodes depth
deeper levels files ts keep below h over =
    subtrees_refused levels (parse_file_tree levels false) keep 0 ts
      (parse_file_tree-ReadsTrees levels) below h.3 (omega (arith, over))

parse_file_tree-RefusesTrees : (levels : ℕ) → RefusesTrees levels (parse_file_tree levels false)
unfolding parse_file_tree
parse_file_tree-RefusesTrees zero = record {
  deep = λ t limit h over. record { refuses = λ b rest v e. refl };
  full = λ t limit h many. too_many zero t limit h many;
}
parse_file_tree-RefusesTrees (suc levels) = record {
  deep = λ t. nested t (parse_file_tree-RefusesTrees levels);
  full = λ t limit h many. too_many (suc levels) t limit h many;
}
  where
    nested :
        (t : Tree)
        → RefusesTrees levels (parse_file_tree levels false)
        → (limit : Option ℕ) → Encodes t
        → suc levels < depth t
        → Refuses (parse_file_tree (suc levels) false limit) (tree_bytes t)
    nested (node files ts) below limit h over =
        node_refused levels false limit files ts h (deeper levels files ts false below h over)

-- A crafted response is refused: where the directory tree has more than seventeen levels, wherever in it the
-- branch that is too deep stands, and its counts and hashes fit their fields, the parser answers false.
pub response_bytes_refused :
    (round ref dir : ℕ) (files : List FileHash) (ts : Subtrees) (rest : List ℕ)
    → IsU32 ref
    → IsU32 dir
    → Encodes (node files ts)
    → 17 < depth (node files ts)
    → length (response_bytes round ref dir (node files ts) ++ rest) < 2 ^ 63
    → checksum_response_parse (response_bytes round ref dir (node files ts) ++ rest) ≡ none
unfolding checksum_response_parse parse init
response_bytes_refused round ref dir files ts rest href hdir h deep short =
    if_false {test = ltb (length (response_bytes round ref dir (node files ts) ++ rest)) 2} none
      (ground arith)
    ∙ refused.refuses
        (init (response_bytes round ref dir (node files ts) ++ rest)
          (length (response_bytes round ref dir (node files ts) ++ rest)))
        rest (record { storage = refl; small = short; inside = omega arith }) refl
  where
    refused : Refuses read_response (response_bytes round ref dir (node files ts))
    refused = fails_later _ (read_u8-Takes 0x21) (
        fails_after_guard true (
          fails_later _ (read_u8-Takes round) (
            fails_later _ (ref_hash-Takes round ref href) (
              fails_later _ (read_u32-Takes dir hdir) (
                fails_here _ (
                  node_refused 16 true (some max_resp_files) files ts h
                    (deeper 16 files ts true (parse_file_tree-RefusesTrees 16) h deep)))))))
