-- ===== src/Buffer.antt =====
-- include/kesrv/util/continuousbuffer.hxx: the growing receive buffer of a connection. The children
-- prove its representation invariant and its refinement of a bounded byte queue.
pub mod Inv
pub mod Push
pub mod Refine
use kexplorer_server.Prelude.{
  ℕ, ◌+◌, ◌-◌, ◌%◌, ◌^◌, Bool, true, false, List, ◌++◌, length, take, drop, replicate, ltb, leb,
  if◌then◌else◌, ◌==◌, Option, none, some,
}

-- `size_t` addition.
abbrev pub add_size : ℕ → ℕ → ℕ
add_size a b = (a + b) % 2 ^ 64

-- `size_t` subtraction.
abbrev pub sub_size : ℕ → ℕ → ℕ
sub_size a b = (a + 2 ^ 64 - b) % 2 ^ 64

pub record ContinuousBuffer : Type 0 where
  pub buffer : List ℕ
  pub limit : ℕ
  pub start : ℕ
  pub used : ℕ

-- The constructor: `std::vector<char>(size)` is zero-filled.
unfoldable pub create : ℕ → ℕ → ContinuousBuffer
create size limit = record { buffer = replicate size 0; limit = limit; start = 0; used = 0 }

pub capacity : ContinuousBuffer → ℕ
capacity b = length b.buffer

pub space : ContinuousBuffer → ℕ
space b = sub_size (length b.buffer) (add_size b.start b.used)

-- `std::memcpy(buffer + pos, xs, length xs)`, and `std::memmove` likewise.
abbrev pub overwrite : ℕ → List ℕ → List ℕ → List ℕ
overwrite pos xs m = take pos m ++ (xs ++ drop (pos + length xs) m)

-- `std::vector::resize`.
abbrev pub resize : ℕ → List ℕ → List ℕ
resize n m = take n m ++ replicate (n - length m) 0

-- `m_start + m_used + size`.
abbrev pub needed : ContinuousBuffer → ℕ → ℕ
needed b size = add_size (add_size b.start b.used) size

-- The inner `if (m_start > 0)`: move the live bytes to the front.
unfoldable pub shift : ContinuousBuffer → ContinuousBuffer
shift b =
    if ltb 0 b.start
    then record b { buffer = overwrite 0 (take b.used (drop b.start b.buffer)) b.buffer; start = 0 }
    else b

-- The two final statements of `push`.
unfoldable pub append : ContinuousBuffer → List ℕ → ContinuousBuffer
append b xs = record b {
  buffer = overwrite (add_size b.start b.used) xs b.buffer;
  used = add_size b.used (length xs);
}

-- The second test of `push`, on the shifted buffer.
unfoldable pub enlarge : ContinuousBuffer → List ℕ → Bool × ContinuousBuffer
enlarge b xs =
    if ltb (length b.buffer) (needed b (length xs))
    then (if ltb b.limit (needed b (length xs))
        then (false, b)
        else (true, append (record b { buffer = resize (needed b (length xs)) b.buffer }) xs))
    else (true, append b xs)

-- `push`; the list holds the `size` bytes at `data`.
unfoldable pub push : ContinuousBuffer → List ℕ → Bool × ContinuousBuffer
push b xs =
    if ltb (length b.buffer) (needed b (length xs))
    then enlarge (shift b) xs
    else (true, append b xs)

-- `pop` returns how many bytes it removed. `m_used -= size` runs at `size ≤ m_used`.
unfoldable pub pop : ContinuousBuffer → ℕ → ℕ × ContinuousBuffer
pop b n =
    let size = if ltb b.used n then b.used else n in
    (size, record b { start = add_size b.start size; used = b.used - size })

unfoldable pub reset : ContinuousBuffer → ContinuousBuffer
reset b = record b { start = 0; used = 0 }

-- What the pointer of `data()` can reach, up to the end of the vector; `none` is the null pointer.
unfoldable pub data_ptr : ContinuousBuffer → Option (List ℕ)
data_ptr b = if b.used == 0 then none else some (drop b.start b.buffer)
