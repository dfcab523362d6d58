-- ===== src/FixedString.antt =====
-- include/kesrv/fixedstring.hxx: an immutable text of at most `N` characters, of type `char`.
pub mod Order
use kexplorer_server.Prelude.{
  ℕ, ◌+◌, ◌-◌, ◌%◌, ◌^◌, Bool, true, false, List, [], ◌∷◌, ◌++◌, take, length, ltb, ◌==◌,
  if◌then◌else◌, min,
}
use kexplorer_server.Prelude.Int.{ℤ, pos, negsuc}
use kexplorer_server.Prelude.Text.{Str}

-- The characters that were written, the terminator included.
pub record FixedString : Type 0 where
  pub str : List ℕ
  pub len : ℕ

unfoldable pub empty_string : FixedString
empty_string = record { str = 0 ∷ []; len = 0 }

-- The constructor from a `std::basic_string_view`.
unfoldable pub make : ℕ → Str → FixedString
make n src =
    let count = min (length src) n in record { str = take count src ++ (0 ∷ []); len = count }

-- `string_view(data(), length())`.
unfoldable pub text_of : FixedString → Str
text_of s = take s.len s.str

-- The constructor from a string of another size.
unfoldable pub convert : ℕ → FixedString → FixedString
unfolding make text_of
convert n o = make n (text_of o)

-- What the sign of an `int` says, which is all that is asked of a comparison, and
-- `std::strong_ordering`.
pub data Ordering : Type 0 where
  less equal greater : Ordering

abbrev pub sign : ℤ → Ordering
sign (pos n) = if n == 0 then Ordering.equal else Ordering.greater
sign (negsuc n) = Ordering.less

-- `char_traits<char>::compare`: characters are compared as unsigned bytes.
unfoldable pub compare_chars : List ℕ → List ℕ → Ordering
compare_chars (a ∷ xs) (b ∷ ys) =
    let rest = compare_chars xs ys in
    if ltb a b then Ordering.less else (if ltb b a then Ordering.greater else rest)
compare_chars xs ys = Ordering.equal

-- The difference of two `size_t` as a `ptrdiff_t`.
unfoldable pub difference : ℕ → ℕ → ℤ
difference n1 n2 =
    let d = (n1 + 2 ^ 64 - n2) % 2 ^ 64 in if ltb d (2 ^ 63) then pos d else negsuc (2 ^ 64 - 1 - d)

abbrev pub clamp_int : ℤ → ℤ
clamp_int (pos n) = if ltb (2 ^ 31 - 1) n then pos (2 ^ 31 - 1) else pos n
clamp_int (negsuc n) = if ltb (2 ^ 31 - 1) n then negsuc (2 ^ 31 - 1) else negsuc n

-- The private `compare`.
unfoldable pub compare_lengths : ℕ → ℕ → ℤ
unfolding difference
compare_lengths n1 n2 = clamp_int (difference n1 n2)

abbrev pub then_by : Ordering → Ordering → Ordering
then_by Ordering.equal o = o
then_by Ordering.less o = Ordering.less
then_by Ordering.greater o = Ordering.greater

-- `compare`, and so `operator<=>`.
unfoldable pub compare : FixedString → Str → Ordering
unfolding compare_chars compare_lengths
compare s o =
    let l = min s.len (length o) in
    then_by (compare_chars (take l s.str) (take l o)) (sign (compare_lengths s.len (length o)))

abbrev pub is_equal : Ordering → Bool
is_equal Ordering.equal = true
is_equal o = false

-- `operator==`.
unfoldable pub equals : FixedString → Str → Bool
unfolding compare
equals s o = is_equal (compare s o)
