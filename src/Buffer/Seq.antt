-- ===== src/Buffer/Seq.antt =====
-- How callers string the primitives together: `if (!write(..)) return -1;` after
-- `bc_buf_init(&b, buf, buf_size)`, with `return (int)b.pos;` at the end, and `if (!read(..)) return false;`.
use open_bc.Base.{ℕ, ◌+◌, ◌≤◌, ◌<◌, ◌^◌, ◌≡◌, refl, sym, ap, ◌∙◌, arith}
use open_bc.Base.{Bool, true, false, Option, none, some, List, [], ◌++◌, if◌then◌else◌}
use open_bc.Base.{length, drop, length-append, overwrite_all, copy_at-nil}
use native.Mathlib.Decide.{dec_le}
use mathlib.Core.List.{append_assoc}
use open_bc.Buffer.{Buffer, init}
use open_bc.Buffer.Writes.{IsValid, emit, emit-IsValid, emit-emit, Fits, Stores}
use open_bc.Buffer.Reads.{Takes, unread, skip, skip-IsValid}

abbrev pub Write : Type 0
Write = Buffer → Bool × Buffer

-- The next write is made only if this one succeeded.
infixr 5 ◌⨟◌
abbrev pub ◌⨟◌ : Write → Write → Write
◌⨟◌ f g b = let (ok, b') = f b in if ok then g b' else (false, b')

abbrev pub no_write : Write
no_write b = (true, b)

-- A builder: the packet's length or -1 (`none`), with what stands in the output array.
unfoldable pub build : Write → List ℕ → ℕ → Option ℕ × List ℕ
unfolding init
build w out size = let (ok, b) = w (init out size) in (if ok then some b.pos else none, b.bytes)

abbrev pub Read {ℓ} : Type ℓ → Type ℓ
Read A = Buffer → Option A × Buffer

-- What happens after a read: its answer is handed on, and a failure ends the parser.
abbrev pub proceed {ℓ κ} :
    {A : Type ℓ} {B : Type κ} → (A → Read B) → Option A × Buffer → Option B × Buffer
proceed k (none, b) = (none, b)
proceed k (some a, b) = k a b

infixl 5 ◌>>=◌ ◌>>◌
abbrev pub ◌>>=◌ {ℓ κ} : {A : Type ℓ} {B : Type κ} → Read A → (A → Read B) → Read B
◌>>=◌ r k b = proceed k (r b)

abbrev pub ◌>>◌ {κ} : {B : Type κ} → Read (Unit {0}) → Read B → Read B
m >> k = m >>= λ _. k

abbrev pub pure {ℓ} : {A : Type ℓ} → A → Read A
pure a b = (some a, b)

abbrev pub fail {ℓ} : {A : Type ℓ} → Read A
fail b = (none, b)

-- `if (!test) return false;`
abbrev pub guard : Bool → Read (Unit {0})
guard test b = if test then (some tt, b) else (none, b)

-- `w` stores `out` where it fits and reports failure where it does not.
pub record Writes (w : Write) (out : List ℕ) : Type 0 where
  pub stores : (b : Buffer) → IsValid b → Fits b (length out) → w b ≡ (true, emit out b)
  pub refuses : (b : Buffer) → IsValid b → b.capacity < b.pos + length out → (w b).0 ≡ false

pub Stores-Writes : {w : Write} {out : List ℕ} → Stores w out → Writes w out
Stores-Writes {w} {out} s = record {
  stores = λ b v h. ground (arith, s b v);
  refuses = λ b v h. ground (arith, s b v);
}

add_nothing : (n : ℕ) → n ≡ n + 0
add_nothing n = omega arith

pub no_write-Writes : Writes no_write []
no_write-Writes = record {
  stores = λ b v h. λ i.
      (true, record b { bytes = sym (copy_at-nil b.bytes b.pos) i; pos = add_nothing b.pos i });
  refuses = λ b v h. absurd (omega (arith, v.inside));
}

pub Writes-⨟ :
    {f g : Write} {xs ys : List ℕ} → Writes f xs → Writes g ys → Writes (f ⨟ g) (xs ++ ys)
Writes-⨟ {f} {g} {xs} {ys} hf hg = record { stores = both; refuses = either }
  where
    both :
        (b : Buffer)
        → IsValid b
        → Fits b (length (xs ++ ys))
        → (f ⨟ g) b ≡ (true, emit (xs ++ ys) b)
    both b v h =
        let first : Fits b (length xs) = omega (arith, length-append xs ys) in
        rw (hf.stores b v first) (
          hg.stores (emit xs b) (emit-IsValid xs v first) (omega (arith, length-append xs ys))
          ∙ ap (λ r. (true, r)) (emit-emit b xs ys))

    either :
        (b : Buffer) → IsValid b → b.capacity < b.pos + length (xs ++ ys) → ((f ⨟ g) b).0 ≡ false
    either b v h = elim (dec_le (b.pos + length xs) b.capacity) [
      | yes first ↦
          rw (hf.stores b v first)
            (hg.refuses (emit xs b) (emit-IsValid xs v first) (omega (arith, length-append xs ys)))
      | no over ↦ ground (arith, hf.refuses b v)
    ]

pub Takes-pure {ℓ} : {A : Type ℓ} (a : A) → Takes (pure a) [] a
Takes-pure a = record {
  takes = λ b rest v e. λ i. (some a, record b { pos = add_nothing b.pos i });
}

pub Takes->>= {ℓ κ} :
    {A : Type ℓ} {B : Type κ} {r : Read A} (k : A → Read B) {xs ys : List ℕ} {a : A} {c : B}
    → Takes r xs a
    → Takes (k a) ys c
    → Takes (r >>= k) (xs ++ ys) c
Takes->>= {r} k {xs} {ys} {a} {c} hr hk = record { takes = go }
  where
    go :
        (b : Buffer) (rest : List ℕ)
        → IsValid b
        → unread b ≡ (xs ++ ys) ++ rest
        → (r >>= k) b ≡ (some c, skip (length (xs ++ ys)) b)
    go b rest v e =
        let e' : unread b ≡ xs ++ (ys ++ rest) = e ∙ append_assoc xs ys rest in
        let after = skip-IsValid b xs (ys ++ rest) v e' in
        let ends : b.pos + length xs + length ys ≡ b.pos + length (xs ++ ys) =
          omega (arith, length-append xs ys) in
        ap (proceed k) (hr.takes b (ys ++ rest) v e')
        ∙ hk.takes (skip (length xs) b) rest after.0 after.1
        ∙ (λ i. (some c, record b { pos = ends i }))

pub Takes-guard {κ} :
    {B : Type κ} {test : Bool} {k : Read B} {ys : List ℕ} {c : B}
    → test ≡ true
    → Takes k ys c
    → Takes (guard test >> k) ys c
Takes-guard {k} {ys} {c} p hk = record { takes = λ b rest v e. rw p (hk.takes b rest v e) }

-- What a builder over a big enough array leaves in it: the bytes written, then the old contents.
pub build_lem :
    {w : Write} {packet : List ℕ} (out : List ℕ) (size : ℕ)
    → Writes w packet
    → length out ≡ size
    → size < 2 ^ 63
    → length packet ≤ size
    → build w out size ≡ (some (length packet), packet ++ drop (length packet) out)
unfolding build
build_lem {packet} out size hw e small fits =
    rw (hw.stores (init out size) fresh (omega arith))
      (λ i. (some (ends i), overwrite_all out packet (omega arith) i))
  where
    fresh : IsValid (init out size)
    fresh = record { storage = e; small = small; inside = omega arith }

    ends : 0 + length packet ≡ length packet
    ends = omega arith

-- A parser over a received payload: `bc_buf_init(&buf, payload, len)` and the reads.
unfoldable pub parse {ℓ} : {A : Type ℓ} → Read A → List ℕ → Option A
unfolding init
parse r payload = (r (init payload (length payload))).0

pub parse_lem {ℓ} :
    {A : Type ℓ} {r : Read A} {taken : List ℕ} {a : A} (rest : List ℕ)
    → Takes r taken a
    → length (taken ++ rest) < 2 ^ 63
    → parse r (taken ++ rest) ≡ some a
unfolding parse
parse_lem {r} {taken} {a} rest hr small =
    ap (λ p. p.0) (hr.takes (init (taken ++ rest) (length (taken ++ rest))) rest fresh refl)
  where
    fresh : IsValid (init (taken ++ rest) (length (taken ++ rest)))
    fresh = record { storage = refl; small = small; inside = omega arith }
