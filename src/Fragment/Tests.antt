-- ===== src/Fragment/Tests.antt =====
-- A message in three fragments.
use open_bc.Base.{◌≡◌, refl, arith, false, [], ◌∷◌, ◌++◌, take, replicate, inl}
use open_bc.Fragment.{Fragment, fragment_receive}
use open_bc.Fragment.Bounds.{IsValid, fragment_receive-IsValid}
use open_bc.Fragment.Reassembly.{receive_all, fragments, only_last, joined, receive_all-fragments}

abbrev idle : Fragment
idle = record {
  buf = replicate 4096 0;
  buf_len = 0;
  frags_expected = 0;
  frags_received = 0;
  active = false;
}

idle-IsValid : IsValid idle
idle-IsValid = record { storage = refl; inside = omega arith; several = inl refl }

fragment_receive-IsValid_example : IsValid (fragment_receive (0 ∷ 2 ∷ 7 ∷ []) 3 idle).1
fragment_receive-IsValid_example = fragment_receive-IsValid (0 ∷ 2 ∷ 7 ∷ []) 3 idle idle-IsValid

receive_all-fragments_example :
    (f' : Fragment) × (receive_all (fragments (1 ∷ 2 ∷ []) ((3 ∷ []) ∷ (4 ∷ 5 ∷ []) ∷ [])) idle
      ≡ (false ∷ only_last ((3 ∷ []) ∷ (4 ∷ 5 ∷ []) ∷ []), f'))
    × (take f'.buf_len f'.buf ≡ (1 ∷ 2 ∷ []) ++ joined ((3 ∷ []) ∷ (4 ∷ 5 ∷ []) ∷ []))
receive_all-fragments_example =
    receive_all-fragments idle (1 ∷ 2 ∷ []) (3 ∷ []) ((4 ∷ 5 ∷ []) ∷ []) refl refl (omega arith)
      (omega arith)
