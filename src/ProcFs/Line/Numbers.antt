-- ===== src/ProcFs/Line/Numbers.antt =====
-- The numbers of a line: how they are printed, and how they are read.
use kexplorer_server.Prelude.{
  ℕ, zero, suc, ◌+◌, ◌/◌, ◌%◌, ◌^◌, ◌<◌, ◌≡◌, refl, ap, ◌∙◌, Bool, true, false, none, [], ◌∷◌, ◌++◌,
  ◌==◌, ltb, ◌||◌, Bool-cases, inl, inr, arith,
}
use kexplorer_server.Prelude.Int.{ℤ, pos, negsuc}
use kexplorer_server.Prelude.Text.{Str}
use kexplorer_server.Prelude.Numerals.{
  strtol, decimal, digits_onto, int_text, Ends, IsLong, strtol-int_text, is_digit,
}
use kexplorer_server.ProcFs.Stat.{to_int}
use kexplorer_server.ProcFs.Line.{last_paren}
use kexplorer_server.ProcFs.Line.Fields.{Plain, Stopped, Unbroken}

-- Digits and minus signs.
abbrev pub numeral_byte : ℕ → Bool
numeral_byte c = is_digit c || c == b'-'

abbrev pub Numeral : Str → Type 0
Numeral [] = Unit {0}
Numeral (c ∷ s) = (numeral_byte c ≡ true) × Numeral s

digits_onto-Numeral : (f n : ℕ) (s : Str) → Numeral s → Numeral (digits_onto f n s)
unfolding digits_onto
digits_onto-Numeral zero n s h = h
digits_onto-Numeral (suc f) n s h = elim (Bool-cases (ltb n 10)) [
  | inl small ↦ rw small (ground arith, h)
  | inr large ↦ rw large (digits_onto-Numeral f (n / 10) ((48 + n % 10) ∷ s) (ground arith, h))
]

pub int_text-Numeral : (z : ℤ) → Numeral (int_text z)
unfolding int_text decimal
int_text-Numeral (pos n) = digits_onto-Numeral (suc n) n [] tt
int_text-Numeral (negsuc n) = (refl, digits_onto-Numeral (suc (suc n)) (suc n) [] tt)

pub Numeral-Plain : (s : Str) → Numeral s → Plain s
Numeral-Plain [] h = tt
Numeral-Plain (c ∷ s) (a, h) = (ground arith, ground arith, Numeral-Plain s h)

pub Numeral-Unbroken : (s : Str) → Numeral s → Unbroken s
Numeral-Unbroken [] h = tt
Numeral-Unbroken (c ∷ s) (a, h) = (ground arith, Numeral-Unbroken s h)

pub last_paren-Numeral : (s r : Str) → Numeral s → last_paren r ≡ none → last_paren (s ++ r) ≡ none
unfolding last_paren
last_paren-Numeral [] r h e = e
last_paren-Numeral (c ∷ s) r (a, h) e =
    let other : (c == b')') ≡ false = ground arith in
    rw (last_paren-Numeral s r h e, last_paren, other) (ground arith)

pub Stopped-Ends : (r : Str) → Stopped r → Ends r
Stopped-Ends [] h = tt
Stopped-Ends (c ∷ s) h = ground arith

abbrev pub IsInt : ℤ → Type 0
IsInt (pos n) = n < 2 ^ 31
IsInt (negsuc n) = n < 2 ^ 31

to_int_lem : (z : ℤ) → IsInt z → to_int z ≡ z
unfolding to_int
to_int_lem (pos n) h = ground arith
to_int_lem (negsuc n) h = ground arith

IsInt-IsLong : (z : ℤ) → IsInt z → IsLong z
IsInt-IsLong (pos n) h = omega arith
IsInt-IsLong (negsuc n) h = omega arith

-- The reader of floating-point numbers reads each integer of 32 bits exactly, if nothing, a NUL or a
-- blank follows.
abbrev pub ReadsInts : (Str → ℤ) → Type 0
ReadsInts strtod = (z : ℤ) (r : Str) → IsInt z → Stopped r → strtod (int_text z ++ r) ≡ z

pub to_int-strtol : (z : ℤ) (r : Str) → IsInt z → Ends r → to_int (strtol (int_text z ++ r)) ≡ z
to_int-strtol z r h e = ap to_int (strtol-int_text z r (IsInt-IsLong z h) e) ∙ to_int_lem z h
