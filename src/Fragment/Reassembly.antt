-- ===== src/Fragment/Reassembly.antt =====
-- A message cut into fragments, and what is put together from them.
use open_bc.Base.{ℕ, suc, ◌+◌, ◌-◌, ◌≤◌, ◌<◌, ◌≡◌, refl, sym, ap, ◌∙◌, arith, Bool, true, false}
use open_bc.Base.{
  List, [], ◌∷◌, ◌++◌, length, length-append, length-copy_at, take, copy_at, take-copy_at,
  take_of_append, ltb, leb, if_true, if_false, u8, subst, ◌==◌,
}
use mathlib.Core.List.{append-nil, append_assoc}
use open_bc.Fragment.{Fragment, fragment_buf_size, receive_first, receive_next, fragment_receive}

-- The buffer holds `got`, put together from `k` of `n` fragments.
record Reassembles (f : Fragment) (n k : ℕ) (got : List ℕ) : Type 0 where
  on : f.active ≡ true
  expected : f.frags_expected ≡ n
  arrived : f.frags_received ≡ k
  storage : length f.buf ≡ fragment_buf_size
  ends : f.buf_len ≡ length got
  stored : take f.buf_len f.buf ≡ got

take_whole : (p : List ℕ) → take (length p) p ≡ p
take_whole p = ap (take (length p)) (sym (append-nil p)) ∙ take_of_append p [] _ refl

-- The `n` fragments of the data `first` and `more`: the first tells their number, the others have an index
-- in front.
abbrev pub continuations : ℕ → List (List ℕ) → List (List ℕ)
continuations k [] = []
continuations k (d ∷ ds) = (k ∷ d) ∷ continuations (k + 1) ds

abbrev pub fragments : List ℕ → List (List ℕ) → List (List ℕ)
fragments first more = (0 ∷ suc (length more) ∷ first) ∷ continuations 1 more

abbrev pub joined : List (List ℕ) → List ℕ
joined [] = []
joined (d ∷ ds) = d ++ joined ds

-- The answers to a sequence of fragments, and the buffer after it.
pub receive_all : List (List ℕ) → Fragment → List Bool × Fragment
receive_all [] f = ([], f)
receive_all (p ∷ ps) f =
    let (done, f') = fragment_receive p (length p) f in
    let (rest, f'') = receive_all ps f' in (done ∷ rest, f'')

next_arrives :
    (i : ℕ) (d : List ℕ) {f : Fragment} {n k : ℕ} {got : List ℕ}
    → Reassembles f n k got
    → length got + length d ≤ fragment_buf_size
    → k < n
    → n ≤ 255
    → (f' : Fragment) × (fragment_receive (i ∷ d) (length (i ∷ d)) f ≡ (leb n (k + 1), f'))
      × Reassembles f' n (k + 1) (got ++ d)
unfolding fragment_receive receive_next
next_arrives i d {f} {n} {k} {got} r room more few = (
  after,
  if_false _ nonempty
      ∙ if_true _ r.on
      ∙ if_false _ fits
      ∙ (λ j. (leb (r.expected j) (counted j), after)),
  record {
    on = r.on;
    expected = r.expected;
    arrived = counted;
    storage = length-copy_at f.buf f.buf_len _ ∙ r.storage;
    ends = omega (arith, r.ends, length-append got d);
    stored =
        take-copy_at f.buf f.buf_len _ _ (ap (λ l. f.buf_len + l) (sym (ap length whole ∙ size)))
          (omega (arith, r.ends, r.storage))
        ∙ (λ j. r.stored j ++ whole j);
  },
)
  where
    after : Fragment
    after = record f {
      buf = copy_at f.buf f.buf_len (take (length (i ∷ d) - 1) d);
      buf_len = f.buf_len + (length (i ∷ d) - 1);
      frags_received = u8 (f.frags_received + 1);
    }

    nonempty : ltb (length (i ∷ d)) 1 ≡ false
    nonempty = ground arith

    fits : ltb fragment_buf_size (f.buf_len + (length (i ∷ d) - 1)) ≡ false
    fits = ground (arith, r.ends)

    size : length d ≡ length (i ∷ d) - 1
    size = omega arith

    whole : take (length (i ∷ d) - 1) d ≡ d
    whole = ap (λ l. take l d) (sym size) ∙ take_whole d

    counted : u8 (f.frags_received + 1) ≡ k + 1
    counted = omega (arith, r.arrived)

first_arrives :
    (n : ℕ) (d : List ℕ) (f : Fragment)
    → f.active ≡ false
    → length f.buf ≡ fragment_buf_size
    → length d ≤ fragment_buf_size
    → 2 ≤ n
    → (f' : Fragment) × (fragment_receive (0 ∷ n ∷ d) (length (0 ∷ n ∷ d)) f ≡ (leb n 1, f'))
      × Reassembles f' n 1 d
unfolding fragment_receive receive_first
first_arrives n d f off storage room several = (
  after,
  if_false _ nonempty
      ∙ if_false _ off
      ∙ if_false _ header
      ∙ if_false _ true_count
      ∙ if_false _ fits,
  record {
    on = refl;
    expected = refl;
    arrived = refl;
    storage = length-copy_at f.buf 0 _ ∙ storage;
    ends = sym size;
    stored =
        take-copy_at f.buf 0 _ _ (sym (ap length whole ∙ size) ∙ omega arith)
          (omega (arith, storage))
        ∙ whole;
  },
)
  where
    after : Fragment
    after = record {
      buf = copy_at f.buf 0 (take (length (0 ∷ n ∷ d) - 2) d);
      buf_len = length (0 ∷ n ∷ d) - 2;
      frags_expected = n;
      frags_received = 1;
      active = true;
    }

    nonempty : ltb (length (0 ∷ n ∷ d)) 1 ≡ false
    nonempty = ground arith

    header : ltb (length (0 ∷ n ∷ d)) 2 ≡ false
    header = ground arith

    true_count : ltb n 2 ≡ false
    true_count = ground arith

    fits : ltb fragment_buf_size (length (0 ∷ n ∷ d) - 2) ≡ false
    fits = ground arith

    size : length d ≡ length (0 ∷ n ∷ d) - 2
    size = omega arith

    whole : take (length (0 ∷ n ∷ d) - 2) d ≡ d
    whole = ap (λ l. take l d) (sym size) ∙ take_whole d

receive_then :
    (p : List ℕ) (ps : List (List ℕ)) (f : Fragment) {f' : Fragment} {done : Bool}
    → fragment_receive p (length p) f ≡ (done, f')
    → receive_all (p ∷ ps) f ≡ (done ∷ (receive_all ps f').0, (receive_all ps f').1)
unfolding receive_all
receive_then p ps f e = ap (λ r. (r.0 ∷ (receive_all ps r.1).0, (receive_all ps r.1).1)) e

-- The answers when only the last fragment completes the message.
abbrev pub only_last : List (List ℕ) → List Bool
only_last [] = []
only_last (d ∷ ds) = (length ds == 0) ∷ only_last ds

-- The fragments behind the first: every one but the last is answered by false.
rest_arrives :
    (ds : List (List ℕ)) (i : ℕ) (f : Fragment) (n k : ℕ) (got : List ℕ)
    → Reassembles f n k got
    → length got + length (joined ds) ≤ fragment_buf_size
    → n ≡ k + length ds
    → n ≤ 255
    → (f' : Fragment) × (receive_all (continuations i ds) f ≡ (only_last ds, f'))
      × Reassembles f' n n (got ++ joined ds)
unfolding receive_all
rest_arrives [] i f n k got r room e few =
    let all_there : k ≡ n = omega (arith, e) in
    (
      f,
      refl,
      subst (λ j. Reassembles f n j (got ++ [])) all_there
          (subst (Reassembles f n k) (sym (append-nil got)) r),
    )
rest_arrives (d ∷ ds) i f n k got r room e few =
    let step =
      next_arrives i d r (omega (arith, length-append d (joined ds))) (omega (arith, e)) few in
    let rest =
      rest_arrives ds (i + 1) step.0 n (k + 1) (got ++ d) step.2
        (omega (arith, length-append d (joined ds), length-append got d)) (omega (arith, e)) few in
    let last : leb n (k + 1) ≡ (length ds == 0) = ground (arith, e) in
    (
      rest.0,
      receive_then (i ∷ d) (continuations (i + 1) ds) f step.1
          ∙ (λ j. (last j ∷ (rest.1 j).0, (rest.1 j).1)),
      subst (Reassembles rest.0 n n) (append_assoc got d (joined ds)) rest.2,
    )

-- A message cut into two to 255 fragments, of at most 4096 bytes in all, is put together from them: an
-- idle buffer that gets them in order answers false to each but the last, true to the last, and holds the
-- whole message then.
pub receive_all-fragments :
    (f : Fragment) (first second : List ℕ) (more : List (List ℕ))
    → f.active ≡ false
    → length f.buf ≡ fragment_buf_size
    → length (first ++ joined (second ∷ more)) ≤ fragment_buf_size
    → length more ≤ 253
    → (f' : Fragment) × (receive_all (fragments first (second ∷ more)) f
        ≡ (false ∷ only_last (second ∷ more), f'))
      × (take f'.buf_len f'.buf ≡ first ++ joined (second ∷ more))
receive_all-fragments f first second more off storage room few = (
  rest.0,
  receive_then (0 ∷ n ∷ first) (continuations 1 (second ∷ more)) f start.1
      ∙ (λ j. (not_yet j ∷ (rest.1 j).0, (rest.1 j).1)),
  rest.2.stored,
)
  where
    n : ℕ
    n = suc (length (second ∷ more))

    start :
        (f' : Fragment) × (fragment_receive (0 ∷ n ∷ first) (length (0 ∷ n ∷ first)) f
          ≡ (leb n 1, f'))
        × Reassembles f' n 1 first
    start =
        first_arrives n first f off storage
          (omega (arith, length-append first (joined (second ∷ more)))) (omega arith)

    rest :
        (f' : Fragment) × (receive_all (continuations 1 (second ∷ more)) start.0
          ≡ (only_last (second ∷ more), f'))
        × Reassembles f' n n (first ++ joined (second ∷ more))
    rest =
        rest_arrives (second ∷ more) 1 start.0 n 1 first start.2
          (omega (arith, length-append first (joined (second ∷ more)))) (omega arith) (omega arith)

    not_yet : leb n 1 ≡ false
    not_yet = ground arith
