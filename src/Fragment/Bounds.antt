-- ===== src/Fragment/Bounds.antt =====
-- The bounds of the reassembly buffer.
use open_bc.Base.{ℕ, ◌+◌, ◌-◌, ◌≤◌, ◌≡◌, refl, ◌∙◌, arith, Bool, false, ◌⊎◌, inl, inr}
use open_bc.Base.{List, length, length-copy_at, get_or, ltb, by_branch}
use open_bc.Fragment.{
  Fragment, fragment_buf_size, fragment_reset, receive_first, receive_next, fragment_receive,
}

-- The data lies in the buffer, and a message that is being put together has two fragments or more, of
-- which one has come.
pub record IsValid (f : Fragment) : Type 0 where
  pub storage : length f.buf ≡ fragment_buf_size
  pub inside : f.buf_len ≤ fragment_buf_size
  pub several : (f.active ≡ false) ⊎ (2 ≤ f.frags_expected)

reset-IsValid : (f : Fragment) → length f.buf ≡ fragment_buf_size → IsValid (fragment_reset f)
unfolding fragment_reset
reset-IsValid f e = record { storage = e; inside = omega arith; several = inl refl }

-- Any fragment, of any length and content, leaves the buffer valid: the data stays within its 4096
-- bytes.
pub fragment_receive-IsValid :
    (payload : List ℕ) (payload_len : ℕ) (f : Fragment)
    → IsValid f
    → IsValid (fragment_receive payload payload_len f).1
unfolding fragment_receive receive_first receive_next fragment_reset
fragment_receive-IsValid payload payload_len f h =
    by_branch Keeps (ltb payload_len 1) (λ t. h)
      (λ t.
        by_branch Keeps f.active
          (λ on.
            by_branch Keeps (ltb fragment_buf_size (f.buf_len + (payload_len - 1)))
              (λ u. reset-IsValid f h.storage)
              (λ u. record {
                storage = length-copy_at f.buf f.buf_len _ ∙ h.storage;
                inside = ground arith;
                several = h.several;
              }))
          (λ off.
            by_branch Keeps (ltb payload_len 2) (λ u. h)
              (λ u.
                by_branch Keeps (ltb (get_or payload 1 0) 2)
                  (λ v. record { storage = h.storage; inside = omega arith; several = inl refl })
                  (λ v.
                    by_branch Keeps (ltb fragment_buf_size (payload_len - 2))
                      (λ w. record {
                        storage = h.storage;
                        inside = omega arith;
                        several = inl refl;
                      })
                      (λ w. record {
                        storage = length-copy_at f.buf 0 _ ∙ h.storage;
                        inside = ground arith;
                        several = inr (ground arith);
                      })))))
  where
    Keeps : Bool × Fragment → Type 0
    Keeps r = IsValid r.1
