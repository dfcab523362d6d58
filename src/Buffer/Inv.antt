-- ===== src/Buffer/Inv.antt =====
-- The representation invariant of `ContinuousBuffer`.
use kexplorer_server.Prelude.{
  refl, ℕ, ◌+◌, ◌-◌, ◌≤◌, ◌<◌, ◌^◌, ◌≡◌, refl, ◌∙◌, sym, List, ◌++◌, length, take, drop, replicate,
  ltb, length-append, length-take, length-drop, length-replicate, Bool-cases, inl, inr, arith,
  take-append, drop-append_left, take-append_left, take-length, take-all, drop-take,
}
use kexplorer_server.Buffer.{ContinuousBuffer, shift, append, overwrite, resize}

-- Vectors and limits stay below 2^62 bytes, so that no sum of three sizes wraps.
pub record IsValid (b : ContinuousBuffer) : Type 0 where
  pub inside : b.start + b.used ≤ length b.buffer
  pub small : length b.buffer < 2 ^ 62
  pub small_limit : b.limit < 2 ^ 62

-- The live bytes, in order of arrival.
abbrev pub contents : ContinuousBuffer → List ℕ
contents b = take b.used (drop b.start b.buffer)

pub length-contents : {b : ContinuousBuffer} → IsValid b → length (contents b) ≡ b.used
length-contents {b} v =
    omega (arith, length-take b.used (drop b.start b.buffer), length-drop b.start b.buffer)

pub length-overwrite :
    (pos : ℕ) (xs m : List ℕ) → pos + length xs ≤ length m → length (overwrite pos xs m) ≡ length m
length-overwrite pos xs m h = omega (
  arith,
  length-append (take pos m) (xs ++ drop (pos + length xs) m),
  length-append xs (drop (pos + length xs) m),
  length-take pos m,
  length-drop (pos + length xs) m,
)

pub length-resize : (n : ℕ) (m : List ℕ) → length (resize n m) ≡ n
length-resize n m = omega (
  arith,
  length-append (take n m) (replicate (n - length m) 0),
  length-take n m,
  length-replicate {A = ℕ} (n - length m) 0,
)

-- What a write just behind the live bytes makes of them.
window-overwrite :
    (s u : ℕ) (xs m : List ℕ)
    → s + u + length xs ≤ length m
    → take (u + length xs) (drop s (overwrite (s + u) xs m)) ≡ take u (drop s m) ++ xs
window-overwrite s u xs m h = rw (
  drop-append_left s (take (s + u) m) (xs ++ rest) (omega (arith, length-take (s + u) m)),
  drop-take s (s + u) u m (omega arith),
  take-append (u + length xs) (length xs) (take u (drop s m)) (xs ++ rest)
      (omega (arith, length-take u (drop s m), length-drop s m)),
  take-append_left (length xs) xs rest (omega arith),
  take-length (length xs) xs refl,
)
  where
    rest : List ℕ
    rest = drop (s + u + length xs) m

-- Enlarging the vector keeps the live bytes.
pub window-resize :
    (s u n : ℕ) (m : List ℕ)
    → s + u ≤ length m
    → length m ≤ n
    → take u (drop s (resize n m)) ≡ take u (drop s m)
window-resize s u n m h k = rw (
  take_all,
  drop-append_left s m zeros (omega arith),
  take-append_left u (drop s m) zeros (omega (arith, length-drop s m)),
)
  where
    zeros : List ℕ
    zeros = replicate (n - length m) 0

    take_all : take n m ≡ m
    take_all = take-all n m k

pub shift-contents : {b : ContinuousBuffer} → IsValid b → contents (shift b) ≡ contents b
unfolding shift
shift-contents {b} v = elim (Bool-cases (ltb 0 b.start)) [
  | inl h ↦ rw h (
      take-append_left b.used (contents b) _ (omega (arith, length-contents v))
      ∙ take-length b.used (contents b) (sym (length-contents v)))
  | inr h ↦ rw h
]

pub shift-start : (b : ContinuousBuffer) → (shift b).start ≡ 0
unfolding shift
shift-start b = ground arith

pub shift-frame :
    {b : ContinuousBuffer}
    → IsValid b
    → ((shift b).used ≡ b.used)
      × ((shift b).limit ≡ b.limit)
      × (length (shift b).buffer ≡ length b.buffer)
unfolding shift
shift-frame {b} v = ground (arith, length-overwrite 0 (contents b) b.buffer, length-contents v)

-- No size that `append` computes wraps.
append_exact :
    {b : ContinuousBuffer} (xs : List ℕ)
    → IsValid b
    → b.start + b.used + length xs ≤ length b.buffer
    → append b xs
      ≡ record b { buffer = overwrite (b.start + b.used) xs b.buffer; used = b.used + length xs }
unfolding append
append_exact {b} xs v h = ground arith

-- The live bytes grow by exactly the new ones, at the end.
pub append_frame :
    {b : ContinuousBuffer} (xs : List ℕ)
    → IsValid b
    → b.start + b.used + length xs ≤ length b.buffer
    → IsValid (append b xs)
      × (contents (append b xs) ≡ contents b ++ xs)
      × (length (append b xs).buffer ≡ length b.buffer)
      × ((append b xs).limit ≡ b.limit)
append_frame {b} xs v h = rw (append_exact xs v h) (
  omega (arith, length-overwrite (b.start + b.used) xs b.buffer h),
  window-overwrite b.start b.used xs b.buffer h,
  length-overwrite (b.start + b.used) xs b.buffer h,
  refl,
)
