-- ===== src/Prelude/Lists.antt =====
-- Lists measured and indexed by native numbers, under the library's names.
use Prim.Native.Nat.{ℕ, zero, suc, ◌+◌, ◌-◌, ◌≤◌, min}
use mathlib.Core.Path.{◌≡◌, refl, ap, sym, ◌∙◌}
use mathlib.Core.List.{List, [], ◌∷◌, ◌++◌}
use mathlib.Core.Bool.{Bool, true, false}
use native.Mathlib.Omega.{arith}

module _ {ℓ} {A : Type ℓ} where
  abbrev pub length : List A → ℕ
  length [] = 0
  length (x ∷ xs) = suc (length xs)

  abbrev pub get_or : List A → ℕ → A → A
  get_or [] i d = d
  get_or (x ∷ xs) zero d = x
  get_or (x ∷ xs) (suc i) d = get_or xs i d

  abbrev pub take : ℕ → List A → List A
  take zero xs = []
  take (suc n) [] = []
  take (suc n) (x ∷ xs) = x ∷ take n xs

  abbrev pub drop : ℕ → List A → List A
  drop zero xs = xs
  drop (suc n) [] = []
  drop (suc n) (x ∷ xs) = drop n xs

  abbrev pub replicate : ℕ → A → List A
  replicate zero a = []
  replicate (suc n) a = a ∷ replicate n a

  abbrev pub null : List A → Bool
  null [] = true
  null (x ∷ xs) = false

  pub length-append : (xs ys : List A) → length (xs ++ ys) ≡ length xs + length ys
  length-append [] ys = omega arith
  length-append (x ∷ xs) ys = omega (arith, length-append xs ys)

  pub length-take : (n : ℕ) (xs : List A) → length (take n xs) ≡ min n (length xs)
  length-take zero xs = omega arith
  length-take (suc n) [] = omega arith
  length-take (suc n) (x ∷ xs) = omega (arith, length-take n xs)

  pub length-drop : (n : ℕ) (xs : List A) → length (drop n xs) ≡ length xs - n
  length-drop zero xs = omega arith
  length-drop (suc n) [] = omega arith
  length-drop (suc n) (x ∷ xs) = omega (arith, length-drop n xs)

  pub length-replicate : (n : ℕ) (a : A) → length (replicate n a) ≡ n
  length-replicate zero a = refl
  length-replicate (suc n) a = ap suc (length-replicate n a)

  pub take-append_left : (n : ℕ) (xs ys : List A) → n ≤ length xs → take n (xs ++ ys) ≡ take n xs
  take-append_left zero xs ys h = refl
  take-append_left (suc n) [] ys h = absurd (omega arith)
  take-append_left (suc n) (x ∷ xs) ys h = ap (◌∷◌ x) (take-append_left n xs ys (omega arith))

  pub drop-append_left :
      (n : ℕ) (xs ys : List A) → n ≤ length xs → drop n (xs ++ ys) ≡ drop n xs ++ ys
  drop-append_left zero xs ys h = refl
  drop-append_left (suc n) [] ys h = absurd (omega arith)
  drop-append_left (suc n) (x ∷ xs) ys h = drop-append_left n xs ys (omega arith)

  pub take-all : (n : ℕ) (xs : List A) → length xs ≤ n → take n xs ≡ xs
  take-all zero [] h = refl
  take-all zero (x ∷ xs) h = absurd (omega arith)
  take-all (suc n) [] h = refl
  take-all (suc n) (x ∷ xs) h = ap (◌∷◌ x) (take-all n xs (omega arith))

  pub take-length : (n : ℕ) (xs : List A) → n ≡ length xs → take n xs ≡ xs
  take-length n xs h = take-all n xs (omega arith)

  pub drop-length : (n : ℕ) (xs : List A) → length xs ≤ n → drop n xs ≡ []
  drop-length zero [] h = refl
  drop-length zero (x ∷ xs) h = absurd (omega arith)
  drop-length (suc n) [] h = refl
  drop-length (suc n) (x ∷ xs) h = drop-length n xs (omega arith)

  -- The first `length xs + k` entries of an append.
  pub take-append :
      (n k : ℕ) (xs ys : List A) → n ≡ length xs + k → take n (xs ++ ys) ≡ xs ++ take k ys
  take-append n k [] ys h = ap (λ (m : ℕ). take m ys) (omega arith)
  take-append zero k (x ∷ xs) ys h = absurd (omega arith)
  take-append (suc n) k (x ∷ xs) ys h = ap (◌∷◌ x) (take-append n k xs ys (omega arith))

  pub drop-append : (n k : ℕ) (xs ys : List A) → n ≡ length xs + k → drop n (xs ++ ys) ≡ drop k ys
  drop-append n k [] ys h = ap (λ (m : ℕ). drop m ys) (omega arith)
  drop-append zero k (x ∷ xs) ys h = absurd (omega arith)
  drop-append (suc n) k (x ∷ xs) ys h = drop-append n k xs ys (omega arith)

  pub drop-nil : (m : ℕ) → drop m [] ≡ []
  drop-nil zero = refl
  drop-nil (suc m) = refl

  pub take-nil : (m : ℕ) → take m [] ≡ []
  take-nil zero = refl
  take-nil (suc m) = refl

  pub drop-drop : (n k m : ℕ) (xs : List A) → m ≡ k + n → drop n (drop k xs) ≡ drop m xs
  drop-drop n zero m xs h = ap (λ (i : ℕ). drop i xs) (omega arith)
  drop-drop n (suc k) m [] h = drop-nil n ∙ sym (drop-nil m)
  drop-drop n (suc k) zero (x ∷ xs) h = absurd (omega arith)
  drop-drop n (suc k) (suc m) (x ∷ xs) h = drop-drop n k m xs (omega arith)

  pub drop-take : (n m k : ℕ) (xs : List A) → k ≡ m - n → drop n (take m xs) ≡ take k (drop n xs)
  drop-take zero m k xs h = ap (λ (i : ℕ). take i xs) (omega arith)
  drop-take (suc n) zero zero xs h = drop-nil (suc n)
  drop-take (suc n) zero (suc k) xs h = absurd (omega arith)
  drop-take (suc n) (suc m) k [] h = sym (take-nil k)
  drop-take (suc n) (suc m) k (x ∷ xs) h = drop-take n m k xs (omega arith)

  pub take-append-drop : (n : ℕ) (xs : List A) → take n xs ++ drop n xs ≡ xs
  take-append-drop zero xs = refl
  take-append-drop (suc n) [] = refl
  take-append-drop (suc n) (x ∷ xs) = ap (◌∷◌ x) (take-append-drop n xs)
