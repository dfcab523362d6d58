-- ===== src/Buffer/Refine.antt =====
-- Any history of calls of a `ContinuousBuffer` against a bounded byte queue.
use kexplorer_server.Prelude.{
  ℕ, ◌-◌, ◌≤◌, ◌<◌, ◌^◌, ◌≡◌, refl, ◌∙◌, sym, List, [], ◌∷◌, length, take, drop, ltb, min, Bool,
  inl, inr, Bool-cases, arith, ap, drop-take, drop-drop, length-replicate, ltb→lt, not_lt,
  drop-length,
}
use kexplorer_server.Buffer.{ContinuousBuffer, create, push, pop, reset, add_size}
use kexplorer_server.Buffer.Inv.{IsValid, contents, length-contents}
use kexplorer_server.Buffer.Push.{bound, push_bounded, push-Pushed}

-- The calls that a client makes, and what it sees of each.
pub data Op : Type 0 where
  pushes : List ℕ → Op
  pops : ℕ → Op
  resets : Op

pub data Reply : Type 0 where
  pushed : Bool → Reply
  popped : ℕ → Reply
  done : Reply

-- After each call its reply and the bytes that the buffer holds.
abbrev pub Trace : Type 0
Trace = List (Reply × List ℕ)

unfoldable pub run : ContinuousBuffer → List Op → Trace
run b [] = []
run b (pushes xs ∷ ops) = let (r, b') = push b xs in (pushed r, contents b') ∷ run b' ops
run b (pops n ∷ ops) = let (k, b') = pop b n in (popped k, contents b') ∷ run b' ops
run b (resets ∷ ops) = let b' = reset b in (done, contents b') ∷ run b' ops

-- The same calls on a queue that holds at most `n` bytes.
unfoldable pub run_queue : ℕ → List ℕ → List Op → Trace
run_queue n q [] = []
run_queue n q (pushes xs ∷ ops) =
    let (r, q') = push_bounded n q xs in (pushed r, q') ∷ run_queue n q' ops
run_queue n q (pops k ∷ ops) = (popped (min k (length q)), drop k q) ∷ run_queue n (drop k q) ops
run_queue n q (resets ∷ ops) = (done, []) ∷ run_queue n [] ops

-- No single call hands over more than 2^62 bytes.
abbrev pub SmallOps : List Op → Type 0
SmallOps [] = Unit {0}
SmallOps (pushes xs ∷ ops) = (length xs < 2 ^ 62) × SmallOps ops
SmallOps (pops n ∷ ops) = SmallOps ops
SmallOps (resets ∷ ops) = SmallOps ops

pub create-IsValid : (size limit : ℕ) → size < 2 ^ 62 → limit < 2 ^ 62 → IsValid (create size limit)
unfolding create
create-IsValid size limit h k = omega (arith, length-replicate {A = ℕ} size 0)

-- `m_start += size; m_used -= size`.
abbrev advance : ContinuousBuffer → ℕ → ContinuousBuffer
advance b k = record b { start = add_size b.start k; used = b.used - k }

advance-contents :
    {b : ContinuousBuffer} (k : ℕ)
    → IsValid b
    → k ≤ b.used
    → contents (advance b k) ≡ drop k (contents b)
advance-contents {b} k v h = sym (
    drop-take k b.used (b.used - k) (drop b.start b.buffer) refl
    ∙ ap (take (b.used - k)) (drop-drop k b.start (add_size b.start k) b.buffer (omega arith)))

-- On a valid buffer `pop` removes up to the given number of bytes from the front and returns their
-- number; the buffer stays valid and its bound the same.
pub pop_lem :
    {b : ContinuousBuffer} (n : ℕ)
    → IsValid b
    → ((pop b n).0 ≡ min n (length (contents b)))
      × (contents (pop b n).1 ≡ drop n (contents b))
      × IsValid (pop b n).1
      × (bound (pop b n).1 ≡ bound b)
unfolding pop
pop_lem {b} n v = elim (Bool-cases (ltb b.used n)) [
  | inl h ↦ rw h (
    omega (arith, length-contents v, ltb→lt _ _ h),
    advance-contents b.used v (omega arith)
        ∙ drop-length b.used (contents b) (omega (arith, length-contents v))
        ∙ sym (drop-length n (contents b) (omega (arith, length-contents v, ltb→lt _ _ h))),
    omega arith,
    refl,
  )
  | inr h ↦ rw h (
    omega (arith, length-contents v, not_lt b.used n h),
    advance-contents n v (not_lt b.used n h),
    omega (arith, not_lt b.used n h),
    refl,
  )
]

-- `reset` empties a buffer, and leaves its vector and limit.
pub reset_lem :
    {b : ContinuousBuffer}
    → IsValid b
    → (contents (reset b) ≡ []) × IsValid (reset b) × (bound (reset b) ≡ bound b)
unfolding reset
reset_lem v = (refl, omega arith, refl)

-- Two histories that agree on a call and on what follows agree.
step_congr :
    {r r' : Reply} {q q' : List ℕ} {n n' : ℕ} (ops : List Op) (rest : Trace)
    → r ≡ r'
    → q ≡ q'
    → n ≡ n'
    → rest ≡ run_queue n q ops
    → ◌≡◌ {A = Trace} ((r, q) ∷ rest) ((r', q') ∷ run_queue n' q' ops)
step_congr ops rest a b c e = rw (e, a, b, c) refl

run_queue-pushes :
    (n : ℕ) (q : List ℕ) (xs : List ℕ) (ops : List Op) (r : Bool) (q' : List ℕ)
    → (r, q') ≡ push_bounded n q xs
    → run_queue n q (pushes xs ∷ ops) ≡ (pushed r, q') ∷ run_queue n q' ops
unfolding run_queue
run_queue-pushes n q xs ops r q' e = rw (← e)

-- From a valid buffer, every history of pushes of less than 2^62 bytes, pops and resets gives the
-- replies and the contents that a bounded byte queue gives.
pub run_refines :
    (ops : List Op) {b : ContinuousBuffer}
    → IsValid b
    → SmallOps ops
    → run b ops ≡ run_queue (bound b) (contents b) ops
unfolding run run_queue
run_refines [] v s = refl
run_refines (pushes xs ∷ ops) {b} v s =
    let p = push-Pushed xs v s.0 in
    step_congr ops _ refl refl p.same_bound (run_refines ops p.valid s.1)
    ∙ sym (run_queue-pushes (bound b) (contents b) xs ops _ _ p.result)
run_refines (pops n ∷ ops) {b} v s =
    let (count, left, valid, same) = pop_lem n v in
    step_congr ops _ (ap popped count) left same (run_refines ops valid s)
run_refines (resets ∷ ops) {b} v s =
    let (left, valid, same) = reset_lem v in
    step_congr ops _ refl left same (run_refines ops valid s)
