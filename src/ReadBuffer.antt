-- ===== src/ReadBuffer.antt =====
-- include/kesrv/util/readbuffer.hxx: the two buffers of a socket. What was read is in one while the next
-- read, which is under way, writes to the other.
pub mod Handed
use Prim.Native.Nat.{bit_xor}
use kexplorer_server.Prelude.{
  ℕ, List, [], ◌∷◌, ◌++◌, length, take, drop, replicate, if◌then◌else◌, ◌==◌,
}
use kexplorer_server.Buffer.{overwrite}

-- `m_buffers[0]`, `m_buffers[1]`, `m_size` and `m_active`.
pub record ReadBuffer : Type 0 where
  pub first : List ℕ
  pub second : List ℕ
  pub size : ℕ
  pub active : ℕ

unfoldable pub create_buffers : ℕ → ReadBuffer
create_buffers size = record {
  first = replicate size 0;
  second = replicate size 0;
  size = size;
  active = 0;
}

-- `data`; the index is 0 or 1.
unfoldable pub data_at : ℕ → ReadBuffer → List ℕ
data_at index b = if index == 0 then b.first else b.second

unfoldable pub w_index : ReadBuffer → ℕ
w_index b = b.active

unfoldable pub r_index : ReadBuffer → ℕ
r_index b = bit_xor b.active 1

unfoldable pub swap : ReadBuffer → ReadBuffer
swap b = record b { active = bit_xor b.active 1 }

-- What a socket reads goes to `data(w_index())`, where `size()` bytes are free for it.
unfoldable pub fill : List ℕ → ReadBuffer → ReadBuffer
unfolding w_index
fill xs b =
    if w_index b == 0
    then record b { first = overwrite 0 xs b.first }
    else record b { second = overwrite 0 xs b.second }

-- The bytes that `onRead` hands over behind `swap`: as many as were transferred, at `data(r_index())`.
unfoldable pub handed : ℕ → ReadBuffer → List ℕ
unfolding data_at r_index
handed transferred b = take transferred (data_at (r_index b) b)

-- What waits to be read first.
abbrev pub upcoming : List (List ℕ) → List ℕ
upcoming [] = []
upcoming (xs ∷ xss) = xs

-- `onRead` for one read after the other, the bytes of the first being there: swap, start the next read,
-- all of whose bytes may come at once, and hand over what the last one brought.
unfoldable pub deliver : List (List ℕ) → ReadBuffer → List (List ℕ)
unfolding swap fill handed
deliver [] b = []
deliver (xs ∷ xss) b =
    let next = fill (upcoming xss) (swap b) in handed (length xs) next ∷ deliver xss next
