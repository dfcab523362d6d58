-- ===== src/Crc32.antt =====
-- include/kesrv/util/crc32.hxx: the checksum that numbers the properties, computed by a table.
pub mod Table
pub mod Bitwise
use Prim.Native.Nat.{bit_xor}
use kexplorer_server.Prelude.{ℕ, ◌/◌, ◌%◌, ◌^◌, List, [], ◌∷◌, get_or}
use kexplorer_server.Prelude.Text.{Str}
use Table.{crc32_table}

-- The assignment in the loop, for one character's byte: `(c ^ *str) & 0xFF` drops what the sign of a
-- `char` extends, so a character enters as its byte.
unfoldable pub crc32_step : ℕ → ℕ → ℕ
crc32_step c b = bit_xor (get_or crc32_table (bit_xor c b % 256) 0) (c / 2 ^ 8)

-- `while (*str)`.
unfoldable pub crc32_loop : ℕ → Str → ℕ
unfolding crc32_step
crc32_loop c [] = c
crc32_loop c (b ∷ s) = crc32_loop (crc32_step c b) s

unfoldable pub crc32 : Str → ℕ
unfolding crc32_loop
crc32 s = bit_xor (crc32_loop 0xFFFFFFFF s) 0xFFFFFFFF
