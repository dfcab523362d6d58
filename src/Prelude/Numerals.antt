-- ===== src/Prelude/Numerals.antt =====
-- The number readers of the C library, in the "C" locale and with 64-bit `long`: `strtol`, `strtoul`.
use Prim.Native.Nat.{ℕ, zero, suc, ◌+◌, ◌-◌, ◌*◌, ◌/◌, ◌%◌, ◌^◌, ◌<◌}
use mathlib.Core.Path.{◌≡◌, refl, ap, sym, ◌∙◌}
use mathlib.Core.Logic.{inl, inr}
use mathlib.Core.Bool.{Bool, true, false, ◌&&◌, ◌||◌}
use mathlib.Core.List.{[], ◌∷◌, ◌++◌}
use native.Mathlib.Omega.{arith}
use kexplorer_server.Prelude.Tests.{◌==◌, leb, ltb, if◌then◌else◌, Bool-cases, ltb→lt, not_lt}
use kexplorer_server.Prelude.Int.{ℤ, pos, negsuc}
use kexplorer_server.Prelude.Text.{Str}

abbrev pub is_digit : ℕ → Bool
is_digit c = leb 48 c && leb c 57

-- `std::isspace`.
abbrev pub is_space : ℕ → Bool
is_space c = c == 32 || (leb 9 c && leb c 13)

-- The digits at the head of a text, after those that made `acc`.
unfoldable pub read_digits : ℕ → Str → ℕ
read_digits acc [] = acc
read_digits acc (c ∷ s) =
    let rest = read_digits (acc * 10 + (c - 48)) s in if is_digit c then rest else acc

unfoldable pub skip_spaces : Str → Str
skip_spaces [] = []
skip_spaces (c ∷ s) = if is_space c then skip_spaces s else c ∷ s

-- 0 - n.
abbrev pub negate : ℕ → ℤ
negate zero = pos 0
negate (suc n) = negsuc n

-- A sign, and the digits behind it.
unfoldable pub signed : {A : Type 0} → (ℕ → A) → (ℕ → A) → Str → A
signed positive negative [] = positive 0
signed positive negative (c ∷ s) =
    if c == b'-'
    then negative (read_digits 0 s)
    else (if c == b'+' then positive (read_digits 0 s) else positive (read_digits 0 (c ∷ s)))

abbrev clamp : ℕ → ℕ → ℕ
clamp n limit = if ltb limit n then limit else n

abbrev positive_long : ℕ → ℤ
positive_long n = pos (clamp n (2 ^ 63 - 1))

abbrev negative_long : ℕ → ℤ
negative_long n = negate (clamp n (2 ^ 63))

-- `std::strtol(s, &end, 10)`; a value out of range is the nearest `long`.
unfoldable pub strtol : Str → ℤ
unfolding signed skip_spaces read_digits
strtol s = signed positive_long negative_long (skip_spaces s)

abbrev positive_ulong : ℕ → ℕ
positive_ulong n = clamp n (2 ^ 64 - 1)

abbrev negative_ulong : ℕ → ℕ
negative_ulong n = if ltb (2 ^ 64 - 1) n then 2 ^ 64 - 1 else (2 ^ 64 - n) % 2 ^ 64

-- `std::strtoul(s, &end, 10)`; a value out of range is the largest `unsigned long`, and a minus sign
-- negates modulo 2^64.
unfoldable pub strtoul : Str → ℕ
unfolding signed skip_spaces read_digits
strtoul s = signed positive_ulong negative_ulong (skip_spaces s)

-- The decimal digits of a number, before a text.
unfoldable pub digits_onto : ℕ → ℕ → Str → Str
digits_onto zero n s = s
digits_onto (suc f) n s =
    let more = digits_onto f (n / 10) ((48 + n % 10) ∷ s) in if ltb n 10 then (48 + n) ∷ s else more

-- A number in decimal, as it is printed.
unfoldable pub decimal : ℕ → Str
unfolding digits_onto
decimal n = digits_onto (suc n) n []

unfoldable pub int_text : ℤ → Str
int_text (pos n) = decimal n
int_text (negsuc n) = b'-' ∷ decimal (suc n)

-- A text that continues no number.
abbrev pub Ends : Str → Type 0
Ends [] = Unit {0}
Ends (c ∷ s) = is_digit c ≡ false

read_digits-Ends : (n : ℕ) (r : Str) → Ends r → read_digits n r ≡ n
unfolding read_digits
read_digits-Ends n [] e = refl
read_digits-Ends n (c ∷ s) e = ground arith

read_digits-cons :
    (acc d : ℕ) (r : Str) → d < 10 → read_digits acc ((48 + d) ∷ r) ≡ read_digits (acc * 10 + d) r
unfolding read_digits
read_digits-cons acc d r h =
    let digit : is_digit (48 + d) ≡ true = ground arith in
    rw digit (ap (λ (k : ℕ). read_digits (acc * 10 + k) r) (omega arith))

read_digits-digits_onto :
    (f n : ℕ) (r : Str) → n < f → read_digits 0 (digits_onto f n r) ≡ read_digits n r
unfolding read_digits digits_onto
read_digits-digits_onto zero n r h = absurd (omega arith)
read_digits-digits_onto (suc f) n r h = elim (Bool-cases (ltb n 10)) [
  | inl small ↦
      rw small
        (read_digits-cons 0 n r (ltb→lt _ _ small) ∙ ap (λ (k : ℕ). read_digits k r) (omega arith))
  | inr large ↦ rw large (
      read_digits-digits_onto f (n / 10) ((48 + n % 10) ∷ r) (omega (arith, not_lt _ _ large))
      ∙ read_digits-cons (n / 10) (n % 10) r (omega arith)
      ∙ ap (λ (k : ℕ). read_digits k r) (omega arith))
]

digits_onto-append : (f n : ℕ) (s r : Str) → digits_onto f n s ++ r ≡ digits_onto f n (s ++ r)
unfolding digits_onto
digits_onto-append zero n s r = refl
digits_onto-append (suc f) n s r = elim (Bool-cases (ltb n 10)) [
  | inl small ↦ rw small
  | inr large ↦ rw large (digits_onto-append f (n / 10) ((48 + n % 10) ∷ s) r)
]

digits_onto-head :
    (f n : ℕ) (s : Str)
    → n < f
    → (c : ℕ) × (t : Str) × (digits_onto f n s ≡ c ∷ t) × (is_digit c ≡ true)
unfolding digits_onto
digits_onto-head zero n s h = absurd (omega arith)
digits_onto-head (suc f) n s h = elim (Bool-cases (ltb n 10)) [
  | inl small ↦ (48 + n, s, rw small, ground arith)
  | inr large ↦
      let (c, t, e, d) =
        digits_onto-head f (n / 10) ((48 + n % 10) ∷ s) (omega (arith, not_lt _ _ large)) in
      (c, t, rw large e, d)
]

-- A text that starts with a digit is read as a number without a sign.
signed-digit :
    {A : Type 0} (positive negative : ℕ → A) (c : ℕ) (t : Str)
    → is_digit c ≡ true
    → signed positive negative (skip_spaces (c ∷ t)) ≡ positive (read_digits 0 (c ∷ t))
unfolding signed skip_spaces
signed-digit positive negative c t d =
    let a : is_space c ≡ false = ground arith in
    let b : (c == b'-') ≡ false = ground arith in
    let e : (c == b'+') ≡ false = ground arith in rw (a, b, e)

pub read_digits-decimal : (n : ℕ) (r : Str) → Ends r → read_digits 0 (decimal n ++ r) ≡ n
unfolding decimal
read_digits-decimal n r e =
    ap (read_digits 0) (digits_onto-append (suc n) n [] r)
    ∙ read_digits-digits_onto (suc n) n r (omega arith)
    ∙ read_digits-Ends n r e

pub decimal-head :
    (n : ℕ) (r : Str) → (c : ℕ) × (t : Str) × (decimal n ++ r ≡ c ∷ t) × (is_digit c ≡ true)
unfolding decimal
decimal-head n r =
    let (c, t, printed, d) = digits_onto-head (suc n) n r (omega arith) in
    (c, t, digits_onto-append (suc n) n [] r ∙ printed, d)

-- A number in decimal is read back, with what follows it unread.
signed-decimal :
    {A : Type 0} (positive negative : ℕ → A) (n : ℕ) (r : Str)
    → Ends r
    → signed positive negative (skip_spaces (decimal n ++ r)) ≡ positive n
signed-decimal positive negative n r e =
    let (c, t, printed, d) = decimal-head n r in
    rw printed (
      signed-digit positive negative c t d
      ∙ ap positive (ap (read_digits 0) (sym printed) ∙ read_digits-decimal n r e))

pub strtoul-decimal : (n : ℕ) (r : Str) → n < 2 ^ 64 → Ends r → strtoul (decimal n ++ r) ≡ n
unfolding strtoul
strtoul-decimal n r h e =
    let fits : positive_ulong n ≡ n = ground arith in
    signed-decimal positive_ulong negative_ulong n r e ∙ fits

abbrev pub IsLong : ℤ → Type 0
IsLong (pos n) = n < 2 ^ 63
IsLong (negsuc n) = n < 2 ^ 63

pub strtol-int_text : (z : ℤ) (r : Str) → IsLong z → Ends r → strtol (int_text z ++ r) ≡ z
unfolding strtol int_text signed skip_spaces
strtol-int_text (pos n) r h e =
    let fits : positive_long n ≡ pos n = ground arith in
    signed-decimal positive_long negative_long n r e ∙ fits
strtol-int_text (negsuc n) r h e =
    let fits : negative_long (suc n) ≡ negsuc n = ground arith in
    ap negative_long (read_digits-decimal (suc n) r e) ∙ fits
