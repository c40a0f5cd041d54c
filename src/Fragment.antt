-- ===== src/Fragment.antt =====
-- Reassembly of fragmented messages, the second half of src/server/network/transport.c.
pub mod Bounds
pub mod Reassembly
mod Tests
use open_bc.Base.{
  ℕ, ◌+◌, ◌-◌, Bool, true, false, List, ltb, leb, if◌then◌else◌, u8, get_or, take, drop, copy_at,
}

-- `bc_fragment_buf_t`
pub record Fragment : Type 0 where
  pub buf : List ℕ
  pub buf_len : ℕ
  pub frags_expected : ℕ
  pub frags_received : ℕ
  pub active : Bool

-- `BC_FRAGMENT_BUF_SIZE`
abbrev pub fragment_buf_size : ℕ
fragment_buf_size = 4096

pub fragment_reset : Fragment → Fragment
fragment_reset f = record f { active = false; buf_len = 0; frags_expected = 0; frags_received = 0 }

-- The test at the end: are all fragments there?
abbrev pub completed : Fragment → Bool × Fragment
completed f = (leb f.frags_expected f.frags_received, f)

-- `[frag_idx][total_frags][data...]`; `f` is the state before it.
pub receive_first : List ℕ → ℕ → Fragment → Bool × Fragment
unfolding fragment_reset
receive_first payload payload_len f =
    let f' = record f {
      active = true;
      frags_expected = get_or payload 1 0;
      frags_received = 1;
      buf_len = 0;
    } in
    let data_len = payload_len - 2 in
    if ltb payload_len 2
    then (false, f)
    else if ltb f'.frags_expected 2
    then (false, fragment_reset f')
    else if ltb fragment_buf_size data_len
    then (false, fragment_reset f')
    else completed
        (record f' { buf = copy_at f.buf 0 (take data_len (drop 2 payload)); buf_len = data_len })

-- `[frag_idx][data...]`; the index is not looked at.
pub receive_next : List ℕ → ℕ → Fragment → Bool × Fragment
unfolding fragment_reset
receive_next payload payload_len f =
    let data_len = payload_len - 1 in
    if ltb fragment_buf_size (f.buf_len + data_len)
    then (false, fragment_reset f)
    else completed (record f {
      buf = copy_at f.buf f.buf_len (take data_len (drop 1 payload));
      buf_len = f.buf_len + data_len;
      frags_received = u8 (f.frags_received + 1);
    })

-- `bc_fragment_receive`
pub fragment_receive : List ℕ → ℕ → Fragment → Bool × Fragment
unfolding receive_first receive_next
fragment_receive payload payload_len f =
    if ltb payload_len 1
    then (false, f)
    else if f.active
    then receive_next payload payload_len f
    else receive_first payload payload_len f
