-- ===== src/Handshake/Validate/Files.antt =====
-- Which files the server accepts of one directory.
use open_bc.Base.{
  ℕ, Bool, true, false, Option, none, some, ◌≡◌, ◌≢◌, ◌↔◌, inl, inr, refl, sym, ap, subst, ◌∙◌,
  arith,
}
use open_bc.Base.{List, [], ◌∷◌, ◌==◌, if◌then◌else◌, if_true}
use open_bc.Manifest.{FileHash, file_name, find_by}
use open_bc.Handshake.Validate.{
  ChecksumResult, ok, file_missing, file_mismatch, ◌&then◌, content_check, check_contents,
  is_listed, check_present, check_files,
}
use open_bc.Handshake.Validate.Lookup.{Any, In, Distinct, find_by-In, find_by_own, is_listed_iff}

-- The files of a directory are those of the manifest: every one of the manifest is there, and has its contents.
pub record Conforms (known files : List FileHash) : Type 0 where
  pub complete : (m : FileHash) → In m known → Any (λ f. file_name f ≡ file_name m) files
  pub unchanged :
      (m f : FileHash)
      → In m known
      → In f files
      → file_name f ≡ file_name m
      → f.content_hash ≡ m.content_hash

pub &then_ok : (a b : ChecksumResult) → ((a &then b) ≡ ok) ↔ ((a ≡ ok) × (b ≡ ok))
&then_ok ChecksumResult.ok b = (λ e. (refl, e), λ p. p.1)
&then_ok ChecksumResult.empty_dir b = (λ e. absurd (cc e), λ p. p.0)
&then_ok ChecksumResult.dir_mismatch b = (λ e. absurd (cc e), λ p. p.0)
&then_ok ChecksumResult.file_missing b = (λ e. absurd (cc e), λ p. p.0)
&then_ok ChecksumResult.file_mismatch b = (λ e. absurd (cc e), λ p. p.0)
&then_ok ChecksumResult.parse_error b = (λ e. absurd (cc e), λ p. p.0)

branch_ok :
    (test : Bool) (r : ChecksumResult) → r ≢ ok → ((if test then ok else r) ≡ ok) ↔ (test ≡ true)
branch_ok true r bad = (λ e. refl, λ e. refl)
branch_ok false r bad = (λ e. absurd (bad e), λ e. absurd (cc e))

-- The content check of one file.
content_check_iff :
    (f : FileHash) (known : List FileHash)
    → Distinct file_name known
    → (content_check f (find_by file_name f.name_hash known) ≡ ok)
      ↔ ((m : FileHash) → In m known → file_name f ≡ file_name m → f.content_hash ≡ m.content_hash)
content_check_iff f known d = (to, from)
  where
    to :
        content_check f (find_by file_name f.name_hash known) ≡ ok
        → (m : FileHash) → In m known
        → file_name f ≡ file_name m
        → f.content_hash ≡ m.content_hash
    to e m i same =
        let found : find_by file_name f.name_hash known ≡ some m =
          ap (λ n. find_by file_name n known) same ∙ find_by_own file_name known m d i in
        ground (arith, ap (content_check f) (sym found) ∙ e)

    from :
        ((m : FileHash) → In m known → file_name f ≡ file_name m → f.content_hash ≡ m.content_hash)
        → content_check f (find_by file_name f.name_hash known) ≡ ok
    from h = found (find_by file_name f.name_hash known) refl
      where
        found :
            (o : Option FileHash) → find_by file_name f.name_hash known ≡ o → content_check f o ≡ ok
        found none e = refl
        found (some m) e =
            let p = find_by-In file_name f.name_hash known m e in
            if_true {test = f.content_hash == m.content_hash} file_mismatch
              (ground (arith, h m p.0 (sym p.1)))

check_contents_iff :
    (known files : List FileHash)
    → Distinct file_name known
    → (check_contents known files ≡ ok) ↔ (
        (m f : FileHash)
        → In m known
        → In f files
        → file_name f ≡ file_name m
        → f.content_hash ≡ m.content_hash)
unfolding check_contents
check_contents_iff known [] d = (λ e m f i j. absurd j, λ h. refl)
check_contents_iff known (x ∷ files) d =
    let first = content_check_iff x known d in
    let rest = check_contents_iff known files d in
    let both =
      &then_ok (content_check x (find_by file_name x.name_hash known))
        (check_contents known files) in
    (
      λ e m f i j same. elim j [
        | inl is ↦
            subst (λ (y : FileHash). y.content_hash ≡ m.content_hash) is
              (first.0 (both.0 e).0 m i (ap file_name is ∙ same))
        | inr later ↦ rest.0 (both.0 e).1 m f i later same
      ],
      λ h. both.1 (
        first.1 (λ m i same. h m x i (inl refl) same),
        rest.1 (λ m f i j same. h m f i (inr j) same),
      ),
    )

pub check_present_iff :
    {A B : Type 0} (name_of : A → ℕ) (name_of_listed : B → ℕ) (known : List A) (listed : List B)
    → (check_present name_of name_of_listed known listed ≡ ok)
      ↔ ((m : A) → In m known → Any (λ f. name_of_listed f ≡ name_of m) listed)
unfolding check_present
check_present_iff name_of name_of_listed [] listed = (λ e m i. absurd i, λ h. refl)
check_present_iff name_of name_of_listed (x ∷ known) listed =
    let first = branch_ok (is_listed name_of_listed (name_of x) listed) file_missing (λ e. cc) in
    let there = is_listed_iff name_of_listed (name_of x) listed in
    let rest = check_present_iff name_of name_of_listed known listed in
    let both =
      &then_ok (if is_listed name_of_listed (name_of x) listed then ok else file_missing)
        (check_present name_of name_of_listed known listed) in
    (
      λ e m i. elim i [
        | inl is ↦
            subst (λ y. Any (λ f. name_of_listed f ≡ name_of y) listed) is
              (there.0 (first.0 (both.0 e).0))
        | inr later ↦ rest.0 (both.0 e).1 m later
      ],
      λ h. both.1 (first.1 (there.1 (h x (inl refl))), rest.1 (λ m i. h m (inr i))),
    )

pub check_files_iff :
    (known files : List FileHash)
    → Distinct file_name known
    → (check_files known files ≡ ok) ↔ Conforms known files
check_files_iff known files d =
    let contents = check_contents_iff known files d in
    let presence = check_present_iff file_name file_name known files in
    let both =
      &then_ok (check_contents known files) (check_present file_name file_name known files) in
    (
      λ e. record { complete = presence.0 (both.0 e).1; unchanged = contents.0 (both.0 e).0 },
      λ c. both.1 (contents.1 c.unchanged, presence.1 c.complete),
    )
