-- ===== src/Session/Scan.antt =====
-- The brace counter of `SessionHandler::process` against the number of braces in the text.
use kexplorer_server.Prelude.{
  ℕ, zero, suc, ◌+◌, ◌≤◌, ◌<◌, ◌^◌, ◌≡◌, ◌↔◌, refl, ap, true, List, [], ◌∷◌, ◌++◌, length, take,
  if◌then◌else◌, ◌==◌, arith, max,
}
use kexplorer_server.Session.{scan_byte, scan}

pub scan-nil : (d m : ℕ) → scan [] d m ≡ record { valid = true; depth = d; depth_max = m }
unfolding scan
scan-nil d m = refl

-- Two loops over adjacent ranges are one.
pub scan-append :
    (xs ys : List ℕ) (d m : ℕ)
    → let r = scan xs d m in
      scan (xs ++ ys) d m ≡ (if r.valid then scan ys r.depth r.depth_max else r)
unfolding scan
scan-append [] ys d m = refl
scan-append (c ∷ xs) ys d m =
    let r = scan_byte c d m in ground (arith, scan-append xs ys r.depth r.depth_max)

abbrev pub opens : List ℕ → ℕ
opens [] = 0
opens (c ∷ cs) = if c == b'{' then suc (opens cs) else opens cs

abbrev pub closes : List ℕ → ℕ
closes [] = 0
closes (c ∷ cs) = if c == b'}' then suc (closes cs) else closes cs

byte_bounds :
    (c d m : ℕ)
    → d ≤ m
    → d + 1 < 2 ^ 64
    → let r = scan_byte c d m in
      (r.depth ≤ r.depth_max)
      × (m ≤ r.depth_max)
      × (r.depth ≤ d + 1)
      × (r.depth_max ≤ max m (d + 1))
unfolding scan_byte
byte_bounds c d m h k = ground arith

-- The counters stay in order, and grow by no more than the bytes read.
pub scan_bounds :
    (xs : List ℕ) (d m n : ℕ)
    → d ≤ m
    → m ≤ n
    → d + length xs ≤ n
    → n < 2 ^ 64
    → let r = scan xs d m in (r.depth ≤ r.depth_max) × (m ≤ r.depth_max) × (r.depth_max ≤ n)
unfolding scan
scan_bounds [] d m n h k l s = omega arith
scan_bounds (c ∷ xs) d m n h k l s =
    let r = scan_byte c d m in
    ground (arith, byte_bounds c d m h (omega arith), scan_bounds xs r.depth r.depth_max n)

byte_counts :
    (c d m : ℕ)
    → d + 1 < 2 ^ 64
    → let r = scan_byte c d m in r.valid ≡ true → r.depth + closes (c ∷ []) ≡ d + opens (c ∷ [])
unfolding scan_byte
byte_counts c d m k = ground arith

opens-cons : (c : ℕ) (xs : List ℕ) → opens (c ∷ xs) ≡ opens (c ∷ []) + opens xs
opens-cons c xs = ground arith

closes-cons : (c : ℕ) (xs : List ℕ) → closes (c ∷ xs) ≡ closes (c ∷ []) + closes xs
closes-cons c xs = ground arith

byte_grows : (c d m : ℕ) → d + 1 < 2 ^ 64 → (scan_byte c d m).depth ≤ d + 1
unfolding scan_byte
byte_grows c d m k = ground arith

scan_head :
    (c : ℕ) (xs : List ℕ) (d m : ℕ)
    → (scan (c ∷ xs) d m).valid ≡ true
    → let r = scan_byte c d m in
      (r.valid ≡ true)
      × (scan (c ∷ xs) d m ≡ scan xs r.depth r.depth_max)
      × ((scan xs r.depth r.depth_max).valid ≡ true)
unfolding scan
scan_head c xs d m e = ground arith

-- If the depth and the number of bytes stay under 2^64 and the loop accepts the bytes, the depth
-- that it leaves and the closing braces are as many as the depth before and the opening ones.
pub scan_counts :
    (xs : List ℕ) (d m : ℕ)
    → d + length xs < 2 ^ 64
    → (scan xs d m).valid ≡ true
    → (scan xs d m).depth + closes xs ≡ d + opens xs
scan_counts [] d m h e = unfold scan in refl
scan_counts (c ∷ xs) d m h e =
    let (ok, same, rest) = scan_head c xs d m e in
    let r = scan_byte c d m in
    omega (
      arith,
      ap (λ t. t.depth) same,
      byte_counts c d m (omega arith) ok,
      byte_grows c d m (omega arith),
      opens-cons c xs,
      closes-cons c xs,
      scan_counts xs r.depth r.depth_max (omega (arith, byte_grows c d m (omega arith))) rest,
    )

-- No prefix closes more braces than are open.
abbrev pub NeverUnderflows : ℕ → List ℕ → Type 0
NeverUnderflows d xs = (n : ℕ) → closes (take n xs) ≤ d + opens (take n xs)

scan-NeverUnderflows :
    (xs : List ℕ) (d m : ℕ)
    → d + length xs < 2 ^ 64
    → (scan xs d m).valid ≡ true
    → NeverUnderflows d xs
scan-NeverUnderflows xs d m h e zero = omega arith
scan-NeverUnderflows [] d m h e (suc n) = omega arith
scan-NeverUnderflows (c ∷ xs) d m h e (suc n) =
    let (ok, same, rest) = scan_head c xs d m e in
    let r = scan_byte c d m in
    omega (
      arith,
      byte_counts c d m (omega arith) ok,
      opens-cons c (take n xs),
      closes-cons c (take n xs),
      scan-NeverUnderflows xs r.depth r.depth_max (omega (arith, byte_grows c d m (omega arith)))
          rest n,
    )

byte-valid : (c d m : ℕ) → closes (c ∷ []) ≤ d + opens (c ∷ []) → (scan_byte c d m).valid ≡ true
unfolding scan_byte
byte-valid c d m h = ground arith

scan_of_NeverUnderflows :
    (xs : List ℕ) (d m : ℕ)
    → d + length xs < 2 ^ 64
    → NeverUnderflows d xs
    → (scan xs d m).valid ≡ true
unfolding scan
scan_of_NeverUnderflows [] d m h never = refl
scan_of_NeverUnderflows (c ∷ xs) d m h never =
    let ok : (scan_byte c d m).valid ≡ true = byte-valid c d m (never 1) in
    let r = scan_byte c d m in
    rw ok (
      scan_of_NeverUnderflows xs r.depth r.depth_max (omega (arith, byte_grows c d m (omega arith)))
        λ n. omega (
          arith,
          never (suc n),
          byte_counts c d m (omega arith) ok,
          opens-cons c (take n xs),
          closes-cons c (take n xs),
        ))

-- If the depth and the number of bytes stay under 2^64, the loop over the bytes accepts them
-- exactly if no prefix closes more braces than are open.
pub scan_iff :
    (xs : List ℕ) (d m : ℕ)
    → d + length xs < 2 ^ 64
    → ((scan xs d m).valid ≡ true) ↔ NeverUnderflows d xs
scan_iff xs d m h = (scan-NeverUnderflows xs d m h, scan_of_NeverUnderflows xs d m h)
