-- ===== src/Buffer/Script/RoundTrip.antt =====
-- Scripts that are written and then read.
use open_bc.Base.{ℕ, ◌≤◌, ◌<◌, ◌^◌, ◌≡◌, refl, sym, ap, ◌∙◌, arith, some}
use open_bc.Base.{List, [], ◌++◌, length, take, drop, All, overwrite_all, take_of_append}
use mathlib.Core.List.{append-nil}
use open_bc.Base.{length-append}
use open_bc.Buffer.{init}
use open_bc.Buffer.Seq.{build, parse}
use open_bc.Buffer.Script.{Item, InRange, write_items, read_items}
use open_bc.Buffer.Script.Layout.{layout}
use open_bc.Buffer.Script.Group.{Wrote}
use open_bc.Buffer.Script.Writer.{write_items-Wrote}
use open_bc.Buffer.Script.Reader.{read_items_lem}

-- The C values of a script are written as its layout, and nothing else of the array is changed: for a
-- script whose values are in range and whose layout fits, the writes succeed, the length returned is the
-- layout's, and the array holds the layout and then its old contents.
pub build-write_items :
    (xs : List Item) (out : List ℕ) (size : ℕ)
    → All InRange xs
    → length out ≡ size
    → size < 2 ^ 63
    → length (layout 0 xs) ≤ size
    → build (write_items xs) out size
      ≡ (some (length (layout 0 xs)), layout 0 xs ++ drop (length (layout 0 xs)) out)
unfolding build init
build-write_items xs out size ok e small fits =
    rw w.succeeds
      (λ i. (some (ends i), (w.stored ∙ overwrite_all out (layout 0 xs) (omega arith)) i))
  where
    w : Wrote (init out size) [] xs (write_items xs (init out size))
    w =
        write_items-Wrote xs [] (record { storage = e; small = small; inside = omega arith })
          (record {
            count = refl;
            few = omega arith;
            behind = λ h. absurd (omega arith);
            holds = λ h. absurd (omega arith);
          })
          ok (omega arith)

    ends : (write_items xs (init out size)).1.pos ≡ length (layout 0 xs)
    ends = w.ends ∙ omega arith

-- What a script's writes leave, its reads give back, whatever bytes follow: every value of the script is
-- returned, in order, where its values are in range.
pub parse-layout :
    (xs : List Item) (rest : List ℕ)
    → All InRange xs
    → length (layout 0 xs ++ rest) < 2 ^ 63
    → parse (read_items xs) (layout 0 xs ++ rest) ≡ some xs
unfolding parse init layout
parse-layout xs rest ok small =
    read_items_lem xs [] rest ok (record { storage = refl; small = small; inside = omega arith })
      (record { count = refl; few = omega arith; holds = λ h. absurd (omega arith) }) refl

-- Writing a script into an array and reading the packet it made gives the script back: for every sequence
-- of bytes, words, longs, texts and booleans in range whose layout fits in the array, the length returned
-- is at most the array's, and the reads of that many bytes return every value written, in order.
pub parse-build :
    (xs : List Item) (out : List ℕ) (size : ℕ)
    → All InRange xs
    → length out ≡ size
    → size < 2 ^ 63
    → length (layout 0 xs) ≤ size
    → (n : ℕ) × ((build (write_items xs) out size).0 ≡ some n)
      × (n ≤ size)
      × (parse (read_items xs) (take n (build (write_items xs) out size).1) ≡ some xs)
parse-build xs out size ok e small fits = (
  length (layout 0 xs),
  ap (λ p. p.0) built,
  fits,
  ap (λ p. parse (read_items xs) (take (length (layout 0 xs)) p.1)) built
      ∙ ap (parse (read_items xs))
          (take_of_append (layout 0 xs) _ _ refl ∙ sym (append-nil (layout 0 xs)))
      ∙ parse-layout xs [] ok (omega (arith, length-append (layout 0 xs) [])),
)
  where
    built :
        build (write_items xs) out size
        ≡ (some (length (layout 0 xs)), layout 0 xs ++ drop (length (layout 0 xs)) out)
    built = build-write_items xs out size ok e small fits
