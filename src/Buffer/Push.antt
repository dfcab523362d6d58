-- ===== src/Buffer/Push.antt =====
-- `ContinuousBuffer::push` against a bounded byte queue.
use kexplorer_server.Prelude.{
  ℕ, ◌+◌, ◌≤◌, ◌<◌, ◌^◌, ◌≡◌, refl, ◌∙◌, List, ◌++◌, length, ltb, leb, max, Bool, true, false,
  if◌then◌else◌, inl, inr, Bool-cases, arith, le→leb, lt→leb, ltb→lt, ap₂,
}
use kexplorer_server.Buffer.{ContinuousBuffer, shift, append, enlarge, push, resize, needed}
use kexplorer_server.Buffer.Inv.{
  IsValid, contents, length-contents, append_frame, shift-contents, shift-start, shift-frame,
  window-resize, length-resize,
}

-- The most bytes that the buffer can ever hold.
abbrev pub bound : ContinuousBuffer → ℕ
bound b = max (length b.buffer) b.limit

-- What a push is to do: append, or refuse and change nothing, by the bound alone.
abbrev pub push_bounded : ℕ → List ℕ → List ℕ → Bool × List ℕ
push_bounded n q xs = if leb (length q + length xs) n then (true, q ++ xs) else (false, q)

-- What `push` leaves behind.
pub record Pushed (b : ContinuousBuffer) (xs : List ℕ) (r : Bool × ContinuousBuffer) : Type 0 where
  pub valid : IsValid r.1
  pub same_bound : bound r.1 ≡ bound b
  pub result : (r.0, contents r.1) ≡ push_bounded (bound b) (contents b) xs

append-Pushed :
    {b : ContinuousBuffer} (xs : List ℕ)
    → IsValid b
    → b.start + b.used + length xs ≤ length b.buffer
    → Pushed b xs (true, append b xs)
append-Pushed {b} xs v h =
    let (v', c, l, m) = append_frame xs v h in
    record { valid = v'; same_bound = omega (arith, l, m); result = rw (c, fits) refl }
  where
    fits : leb (length (contents b) + length xs) (bound b) ≡ true
    fits = le→leb _ _ (omega (arith, length-contents v))

-- The vector after `resize`.
abbrev grown : ContinuousBuffer → ℕ → ContinuousBuffer
grown b n = record b { buffer = resize n b.buffer }

grown_frame :
    {b : ContinuousBuffer} (n : ℕ)
    → IsValid b
    → length b.buffer ≤ n
    → n ≤ b.limit
    → IsValid (grown b n) × (contents (grown b n) ≡ contents b)
grown_frame {b} n v h k =
    (omega (arith, length-resize n b.buffer), window-resize b.start b.used n b.buffer v.inside h)

grown-Pushed :
    {b : ContinuousBuffer} (xs : List ℕ) (n : ℕ)
    → IsValid b
    → b.start ≡ 0
    → n ≡ b.used + length xs
    → length b.buffer < n
    → n ≤ b.limit
    → Pushed b xs (true, append (grown b n) xs)
grown-Pushed {b} xs n v z e h k =
    let (vg, cg) = grown_frame n v (omega arith) k in
    let (v', c, l, m) = append_frame xs vg (omega (arith, length-resize n b.buffer)) in
    record {
      valid = v';
      same_bound = omega (arith, l, m, length-resize n b.buffer);
      result = rw (c, cg, fits) refl;
    }
  where
    fits : leb (length (contents b) + length xs) (bound b) ≡ true
    fits = le→leb _ _ (omega (arith, length-contents v))

refused-Pushed :
    {b : ContinuousBuffer} (xs : List ℕ)
    → IsValid b
    → bound b < b.used + length xs
    → Pushed b xs (false, b)
refused-Pushed {b} xs v h = record {
  valid = v;
  same_bound = refl;
  result =
      rw (lt→leb (length (contents b) + length xs) (bound b) (omega (arith, length-contents v)));
}

needed_exact :
    {b : ContinuousBuffer} (n : ℕ) → IsValid b → n < 2 ^ 62 → needed b n ≡ b.start + b.used + n
needed_exact n v h = omega arith

enlarge-Pushed :
    {b : ContinuousBuffer} (xs : List ℕ)
    → IsValid b
    → length xs < 2 ^ 62
    → b.start ≡ 0
    → Pushed b xs (enlarge b xs)
unfolding enlarge
enlarge-Pushed {b} xs v small z =
    rw (needed_exact (length xs) v small)
      (elim (Bool-cases (ltb (length b.buffer) (b.start + b.used + length xs))) [
        | inr fits ↦ rw fits (append-Pushed xs v (ground arith))
        | inl full ↦ rw full (elim (Bool-cases (ltb b.limit (b.start + b.used + length xs))) [
          | inl over ↦
              rw over (refused-Pushed xs v (omega (arith, ltb→lt _ _ over, ltb→lt _ _ full)))
          | inr below ↦
              rw below (grown-Pushed xs _ v z (omega arith) (ltb→lt _ _ full) (ground arith))
        ])
      ])

shift-IsValid : {b : ContinuousBuffer} → IsValid b → IsValid (shift b)
shift-IsValid {b} v = omega (arith, shift-frame v, shift-start b)

-- On a valid buffer `push` appends all of less than 2^62 bytes exactly if they fit the bound, else
-- it refuses and keeps the bytes that it holds; either way the buffer stays valid and its bound
-- the same.
pub push-Pushed :
    {b : ContinuousBuffer} (xs : List ℕ) → IsValid b → length xs < 2 ^ 62 → Pushed b xs (push b xs)
unfolding push
push-Pushed {b} xs v small =
    rw (needed_exact (length xs) v small)
      (elim (Bool-cases (ltb (length b.buffer) (b.start + b.used + length xs))) [
        | inr fits ↦ rw fits (append-Pushed xs v (ground arith))
        | inl full ↦ rw full (moved (enlarge-Pushed xs (shift-IsValid v) small (shift-start b)))
      ])
  where
    shift-bound : bound (shift b) ≡ bound b
    shift-bound = omega (arith, shift-frame v)

    moved : {r : Bool × ContinuousBuffer} → Pushed (shift b) xs r → Pushed b xs r
    moved p = record {
      valid = p.valid;
      same_bound = omega (arith, p.same_bound, shift-frame v);
      result = p.result ∙ ap₂ (λ n q. push_bounded n q xs) shift-bound (shift-contents v);
    }
