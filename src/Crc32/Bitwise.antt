-- ===== src/Crc32/Bitwise.antt =====
-- The table against the division of polynomials over two elements, lowest bit first.
use Prim.Native.Nat.{bit_xor}
use native.Mathlib.Nat.{pow-suc}
use kexplorer_server.Prelude.{
  ℕ, zero, suc, ◌+◌, ◌*◌, ◌/◌, ◌%◌, ◌^◌, ◌<◌, ◌≡◌, refl, ap, ap₂, sym, ◌∙◌, true, [], ◌∷◌, get_or,
  ◌==◌, ==_iff, arith,
}
use kexplorer_server.Prelude.Bits.{
  all_below, all_below_sound, bit_xor_half, bit_xor_odd, bit_xor-zero, bit_xor_swap, zero-bit_xor,
  bit_xor_step,
}
use kexplorer_server.Prelude.Text.{Str}
use kexplorer_server.Crc32.{crc32_step, crc32_loop, crc32}
use kexplorer_server.Crc32.Table.{crc32_table}

-- x^32 + x^26 + x^23 + x^22 + x^16 + x^12 + x^11 + x^10 + x^8 + x^7 + x^5 + x^4 + x^2 + x + 1 without its
-- first term, the lowest power in the highest bit.
abbrev pub polynomial : ℕ
polynomial = 0xEDB88320

-- The remainder that is subtracted for the bit that is shifted out.
abbrev pub subtracted : ℕ → ℕ
subtracted zero = 0
subtracted (suc n) = polynomial

-- One bit of the division.
unfoldable pub divide_bit : ℕ → ℕ
divide_bit c = bit_xor (c / 2) (subtracted (c % 2))

unfoldable pub divide_bits : ℕ → ℕ → ℕ
divide_bits zero c = c
divide_bits (suc n) c = divide_bits n (divide_bit c)

-- The checksum, bit by bit.
unfoldable pub divide : ℕ → Str → ℕ
divide c [] = c
divide c (b ∷ s) = divide (divide_bits 8 (bit_xor c b)) s

subtracted_sum :
    (x y : ℕ) → x < 2 → y < 2 → subtracted ((x + y) % 2) ≡ bit_xor (subtracted x) (subtracted y)
subtracted_sum zero zero h k = refl
subtracted_sum zero (suc zero) h k = refl
subtracted_sum (suc zero) zero h k = refl
subtracted_sum (suc zero) (suc zero) h k = refl
subtracted_sum zero (suc (suc y)) h k = absurd (omega arith)
subtracted_sum (suc zero) (suc (suc y)) h k = absurd (omega arith)
subtracted_sum (suc (suc x)) y h k = absurd (omega arith)

-- The division is linear.
divide_bit-bit_xor : (a b : ℕ) → divide_bit (bit_xor a b) ≡ bit_xor (divide_bit a) (divide_bit b)
unfolding divide_bit
divide_bit-bit_xor a b =
    ap₂ bit_xor (bit_xor_half a b)
      (ap subtracted (bit_xor_odd a b) ∙ subtracted_sum (a % 2) (b % 2) (omega arith) (omega arith))
    ∙ bit_xor_swap (a / 2) (b / 2) (subtracted (a % 2)) (subtracted (b % 2))

divide_bits-bit_xor :
    (n a b : ℕ) → divide_bits n (bit_xor a b) ≡ bit_xor (divide_bits n a) (divide_bits n b)
unfolding divide_bits
divide_bits-bit_xor zero a b = refl
divide_bits-bit_xor (suc n) a b =
    ap (divide_bits n) (divide_bit-bit_xor a b)
    ∙ divide_bits-bit_xor n (divide_bit a) (divide_bit b)

-- An even number is only shifted.
divide_bit_even : (k : ℕ) → divide_bit (k * 2) ≡ k
unfolding divide_bit
divide_bit_even k =
    let half : k * 2 / 2 ≡ k = omega arith in
    let even : k * 2 % 2 ≡ 0 = omega arith in rw (half, even) (bit_xor-zero k)

doubled_shift : (k n : ℕ) → k * 2 ^ suc n ≡ k * 2 ^ n * 2
doubled_shift k n = omega (arith, ap (λ (t : ℕ). k * t) (pow-suc 2 n))

divide_bits_high : (n k : ℕ) → divide_bits n (k * 2 ^ n) ≡ k
unfolding divide_bits
divide_bits_high zero k = omega arith
divide_bits_high (suc n) k =
    ap (λ c. divide_bits n (divide_bit c)) (doubled_shift k n)
    ∙ ap (divide_bits n) (divide_bit_even (k * 2 ^ n))
    ∙ divide_bits_high n k

-- Low bits and high bits, put together.
bit_xor_parts : (n q r : ℕ) → r < 2 ^ n → bit_xor r (q * 2 ^ n) ≡ r + q * 2 ^ n
bit_xor_parts zero q r h = let e : r ≡ 0 = omega arith in rw e (zero-bit_xor (q * 1) ∙ omega arith)
bit_xor_parts (suc n) q r h =
    let small : r / 2 < 2 ^ n = omega (arith, pow-suc 2 n) in
    let half : q * 2 ^ suc n / 2 ≡ q * 2 ^ n = omega (arith, doubled_shift q n) in
    omega (
      arith,
      bit_xor_step r (q * 2 ^ suc n),
      ap (bit_xor (r / 2)) half,
      doubled_shift q n,
      bit_xor_parts n q (r / 2) small,
    )

table_checked : all_below 256 (λ x. get_or crc32_table x 0 == divide_bits 8 x) ≡ true
unfolding divide_bits divide_bit
table_checked = refl

table_lem : (x : ℕ) → x < 256 → get_or crc32_table x 0 ≡ divide_bits 8 x
table_lem x h =
    (==_iff _ _).0
      (all_below_sound 256 (λ x. get_or crc32_table x 0 == divide_bits 8 x) x table_checked h)

-- Eight bits of the division by one look at the table.
eight_bits : (x : ℕ) → divide_bits 8 x ≡ bit_xor (get_or crc32_table (x % 256) 0) (x / 256)
eight_bits x =
    let whole : x ≡ bit_xor (x % 256) (x / 256 * 2 ^ 8) =
      omega (arith, bit_xor_parts 8 (x / 256) (x % 256) (omega arith)) in
    ap (divide_bits 8) whole
    ∙ divide_bits-bit_xor 8 (x % 256) (x / 256 * 2 ^ 8)
    ∙ ap₂ bit_xor (sym (table_lem (x % 256) (omega arith))) (divide_bits_high 8 (x / 256))

-- A byte changes the low bits only.
high_bits : (c b : ℕ) → b < 256 → bit_xor c b / 256 ≡ c / 256
high_bits c b h =
    let gone : b / 2 / 2 / 2 / 2 / 2 / 2 / 2 / 2 ≡ 0 = omega arith in
    let last : bit_xor (c / 2 / 2 / 2 / 2 / 2 / 2 / 2 / 2) (b / 2 / 2 / 2 / 2 / 2 / 2 / 2 / 2)
        ≡ c / 2 / 2 / 2 / 2 / 2 / 2 / 2 / 2 =
      ap (bit_xor (c / 2 / 2 / 2 / 2 / 2 / 2 / 2 / 2)) gone ∙ bit_xor-zero _ in
    omega (
      arith,
      bit_xor_half c b,
      bit_xor_half (c / 2) (b / 2),
      bit_xor_half (c / 2 / 2) (b / 2 / 2),
      bit_xor_half (c / 2 / 2 / 2) (b / 2 / 2 / 2),
      bit_xor_half (c / 2 / 2 / 2 / 2) (b / 2 / 2 / 2 / 2),
      bit_xor_half (c / 2 / 2 / 2 / 2 / 2) (b / 2 / 2 / 2 / 2 / 2),
      bit_xor_half (c / 2 / 2 / 2 / 2 / 2 / 2) (b / 2 / 2 / 2 / 2 / 2 / 2),
      bit_xor_half (c / 2 / 2 / 2 / 2 / 2 / 2 / 2) (b / 2 / 2 / 2 / 2 / 2 / 2 / 2),
      last,
    )

crc32_step-divide_bits : (c b : ℕ) → b < 256 → crc32_step c b ≡ divide_bits 8 (bit_xor c b)
unfolding crc32_step
crc32_step-divide_bits c b h =
    ap (bit_xor (get_or crc32_table (bit_xor c b % 256) 0)) (sym (high_bits c b h))
    ∙ sym (eight_bits (bit_xor c b))

-- A C string.
pub data AreBytes : Str → Type 0 where
  nil : AreBytes []
  cons : {b : ℕ} {s : Str} → 0 < b → b < 256 → AreBytes s → AreBytes (b ∷ s)

crc32_loop-divide : (c : ℕ) (s : Str) → AreBytes s → crc32_loop c s ≡ divide c s
unfolding crc32_loop divide
crc32_loop-divide c [] h = refl
crc32_loop-divide c (b ∷ s) (AreBytes.cons z p h) =
    ap (λ t. crc32_loop t s) (crc32_step-divide_bits c b p)
    ∙ crc32_loop-divide (divide_bits 8 (bit_xor c b)) s h

-- For every text of bytes that holds no NUL, the checksum by the table is the remainder of the
-- bitwise division by the CRC-32 polynomial, lowest bit first, that starts with all bits set and
-- ends with all bits inverted.
pub crc32_bitwise : (s : Str) → AreBytes s → crc32 s ≡ bit_xor (divide 0xFFFFFFFF s) 0xFFFFFFFF
unfolding crc32
crc32_bitwise s h = ap (λ c. bit_xor c 0xFFFFFFFF) (crc32_loop-divide 0xFFFFFFFF s h)
