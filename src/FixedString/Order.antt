-- ===== src/FixedString/Order.antt =====
-- Comparison of fixed strings against the order of texts.
use kexplorer_server.Prelude.{
  ℕ, suc, ◌<◌, ◌^◌, ◌≡◌, ◌↔◌, refl, ap, sym, ◌∙◌, true, [], ◌∷◌, ◌++◌, take, length, ltb,
  if◌then◌else◌, min, arith, ltb→lt, not_lt, take-all, length-take, take-append_left, inl, inr,
  Bool-cases,
}
use kexplorer_server.Prelude.Int.{ℤ, pos, negsuc}
use kexplorer_server.Prelude.Text.{Str}
use kexplorer_server.FixedString.{
  make, Ordering, sign, compare_chars, difference, compare_lengths, then_by, compare, is_equal,
  equals,
}

-- The order of numbers, and the order of texts by their first difference.
abbrev pub compare_nat : ℕ → ℕ → Ordering
compare_nat a b =
    if ltb a b then Ordering.less else (if ltb b a then Ordering.greater else Ordering.equal)

unfoldable pub lexicographic : Str → Str → Ordering
lexicographic [] [] = Ordering.equal
lexicographic [] (b ∷ t) = Ordering.less
lexicographic (a ∷ s) [] = Ordering.greater
lexicographic (a ∷ s) (b ∷ t) =
    let rest = lexicographic s t in
    if ltb a b then Ordering.less else (if ltb b a then Ordering.greater else rest)

abbrev pub FitsInt : ℤ → Type 0
FitsInt (pos n) = n < 2 ^ 31
FitsInt (negsuc n) = n < 2 ^ 31

pub compare_lengths_lem :
    (a b : ℕ)
    → a < 2 ^ 63
    → b < 2 ^ 63
    → FitsInt (compare_lengths a b) × (sign (compare_lengths a b) ≡ compare_nat a b)
unfolding compare_lengths difference
compare_lengths_lem a b h k = ground arith

by_length : (s o : Str) → Ordering
by_length s o =
    let l = min (length s) (length o) in
    then_by (compare_chars (take l s) (take l o)) (compare_nat (length s) (length o))

by_length_lem : (s o : Str) → by_length s o ≡ lexicographic s o
unfolding compare_chars lexicographic by_length
by_length_lem [] [] = refl
by_length_lem [] (b ∷ t) = ground arith
by_length_lem (a ∷ s) [] = ground arith
by_length_lem (a ∷ s) (b ∷ t) =
    let shorter : min (length (a ∷ s)) (length (b ∷ t)) ≡ suc (min (length s) (length t)) =
      omega arith in
    let further : compare_nat (length (a ∷ s)) (length (b ∷ t))
        ≡ compare_nat (length s) (length t) =
      ground arith in
    rw (shorter, further)
      (elim (Bool-cases (ltb a b)) [
        | inl below ↦ rw below
        | inr beyond ↦ elim (Bool-cases (ltb b a)) [
          | inl above ↦ rw (beyond, above)
          | inr same ↦ rw (beyond, same) (by_length_lem s t)
        ]
      ])

take-min : (n : ℕ) (s : Str) → take (min (length s) n) s ≡ take n s
take-min n s = elim (Bool-cases (ltb n (length s))) [
  | inl short ↦ ap (λ k. take k s) (omega (arith, ltb→lt _ _ short))
  | inr long ↦ take-all _ s (omega (arith, not_lt _ _ long)) ∙ sym (take-all n s (not_lt _ _ long))
]

-- A fixed string of less than 2^63 characters compares with a text shorter than 2^63 as its first
-- N characters do in lexicographic order.
pub compare-make :
    (n : ℕ) (src o : Str)
    → n < 2 ^ 63
    → length o < 2 ^ 63
    → compare (make n src) o ≡ lexicographic (take n src) o
unfolding compare make by_length lexicographic
compare-make n src o h k =
    let count = min (length src) n in
    let kept : length (take count src) ≡ count = omega (arith, length-take count src) in
    let l = min count (length o) in
    let head : take l (take count src ++ (0 ∷ [])) ≡ take l (take count src) =
      take-append_left l (take count src) (0 ∷ []) (omega (arith, kept)) in
    rw (head, (compare_lengths_lem count (length o) (omega arith) k).1)
      (ap ordered (sym kept)
        ∙ by_length_lem (take count src) o
        ∙ ap (λ t. lexicographic t o) (take-min n src))
  where
    ordered : ℕ → Ordering
    ordered m =
        let t = take (min (length src) n) src in
        then_by (compare_chars (take (min m (length o)) t) (take (min m (length o)) o))
          (compare_nat m (length o))

lexicographic_refl : (s : Str) → lexicographic s s ≡ Ordering.equal
unfolding lexicographic
lexicographic_refl [] = refl
lexicographic_refl (a ∷ s) = ground (arith, lexicographic_refl s)

lexicographic_equal : (s t : Str) → lexicographic s t ≡ Ordering.equal → s ≡ t
unfolding lexicographic
lexicographic_equal [] [] h = refl
lexicographic_equal [] (b ∷ t) h = cc
lexicographic_equal (a ∷ s) [] h = cc
lexicographic_equal (a ∷ s) (b ∷ t) h = ground (arith, lexicographic_equal s t)

is_equal_iff : (o : Ordering) → (is_equal o ≡ true) ↔ (o ≡ Ordering.equal)
is_equal_iff Ordering.equal = (λ h. refl, λ h. refl)
is_equal_iff Ordering.less = (λ h. cc, λ h. cc)
is_equal_iff Ordering.greater = (λ h. cc, λ h. cc)

pub equals-make :
    (n : ℕ) (src o : Str)
    → n < 2 ^ 63
    → length o < 2 ^ 63
    → (equals (make n src) o ≡ true) ↔ (take n src ≡ o)
unfolding equals
equals-make n src o h k =
    let same = compare-make n src o h k in
    let iff = is_equal_iff (compare (make n src) o) in
    (
      λ e. lexicographic_equal _ _ (sym same ∙ iff.0 e),
      λ e. iff.1 (same ∙ ap (λ t. lexicographic t o) e ∙ lexicographic_refl o),
    )
