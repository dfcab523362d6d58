-- ===== src/Prelude/Text.antt =====
-- Texts as byte lists: literals, equality, C strings.
use Prim.Native.Char.{code}
use Prim.Native.Nat.{ℕ, ◌<◌}
use Prim.Native.String.{String}
use mathlib.Core.Path.{◌≡◌, refl}
use mathlib.Core.Logic.{◌↔◌, ◌≢◌, inl, inr}
use mathlib.Core.Bool.{Bool, true, false, ◌&&◌}
use mathlib.Core.List.{List, [], ◌∷◌, ◌++◌}
use native.Mathlib.Omega.{arith}
use kexplorer_server.Prelude.Tests.{==_ne, ◌==◌, if◌then◌else◌, Bool-cases}

-- A `std::string`, or the bytes of a C string before its terminator.
abbrev pub Str : Type 0
Str = List ℕ

-- The bytes of an ASCII literal.
abbrev pub codes : String → Str
codes String.[] = []
codes (String.◌∷◌ c s) = code c ∷ codes s

unfoldable pub str_eq : Str → Str → Bool
str_eq [] [] = true
str_eq (a ∷ s) (b ∷ t) = (a == b) && str_eq s t
str_eq s t = false

pub str_eq_refl : (s : Str) → str_eq s s ≡ true
unfolding str_eq
str_eq_refl [] = refl
str_eq_refl (a ∷ s) = ground (arith, str_eq_refl s)

pub str_eq→eq : (s t : Str) → str_eq s t ≡ true → s ≡ t
unfolding str_eq
str_eq→eq [] [] h = refl
str_eq→eq [] (b ∷ t) h = cc
str_eq→eq (a ∷ s) [] h = cc
str_eq→eq (a ∷ s) (b ∷ t) h = ground (arith, str_eq→eq s t)

pub str_eq_iff : (s t : Str) → (str_eq s t ≡ true) ↔ (s ≡ t)
str_eq_iff s t = (str_eq→eq s t, λ e. rw e (str_eq_refl t))

pub str_eq_ne : (s t : Str) → s ≢ t → str_eq s t ≡ false
str_eq_ne s t h = elim (Bool-cases (str_eq s t)) [
  | inl e ↦ absurd (h (str_eq→eq s t e))
  | inr e ↦ e
]

-- What a pointer to the head of a memory region gives a reader of C strings: the bytes before the first
-- NUL, or bytes with no NUL, behind which the region ends.
pub data TextAt : Type 0 where
  terminated unterminated : Str → TextAt

abbrev pub before_text : ℕ → TextAt → TextAt
before_text c (terminated s) = terminated (c ∷ s)
before_text c (unterminated s) = unterminated (c ∷ s)

unfoldable pub text_at : List ℕ → TextAt
text_at [] = unterminated []
text_at (c ∷ m) = if c == 0 then terminated [] else before_text c (text_at m)

-- `s.c_str()`, as a text: it ends at the first NUL.
unfoldable pub c_str : Str → Str
c_str [] = []
c_str (c ∷ s) = if c == 0 then [] else c ∷ c_str s

pub data NoNul : Str → Type 0 where
  nil : NoNul []
  cons : {c : ℕ} {s : Str} → 0 < c → NoNul s → NoNul (c ∷ s)

-- A text without NUL bytes that a NUL follows is read back whole.
pub text_at-append : (s m : Str) → NoNul s → text_at (s ++ (0 ∷ m)) ≡ terminated s
unfolding text_at
text_at-append [] m h = refl
text_at-append (c ∷ s) m (NoNul.cons p h) =
    rw (==_ne c 0 (omega arith), text_at, text_at-append s m h)

pub text_at-NoNul : (s : Str) → NoNul s → text_at s ≡ unterminated s
unfolding text_at
text_at-NoNul [] h = refl
text_at-NoNul (c ∷ s) (NoNul.cons p h) = rw (==_ne c 0 (omega arith), text_at, text_at-NoNul s h)

-- Bytes behind a NUL are not read.
pub text_at_junk : (q junk : Str) → text_at (q ++ (0 ∷ junk)) ≡ text_at (q ++ (0 ∷ []))
unfolding text_at
text_at_junk [] junk = refl
text_at_junk (c ∷ q) junk = rw (text_at_junk q junk, text_at)
