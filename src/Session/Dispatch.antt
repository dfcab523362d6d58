-- ===== src/Session/Dispatch.antt =====
-- A complete request of `SessionHandler::process`: its terminator, the call, and what is left.
use kexplorer_server.Prelude.{
  ℕ, ◌+◌, ◌≤◌, ◌<◌, ◌^◌, ◌≡◌, refl, ap, ◌∙◌, sym, List, [], ◌∷◌, ◌++◌, length, drop, leb, inl, inr,
  Bool-cases, arith, some, take-append-drop, append_assoc, append-nil, length-append, leb→lt,
  drop-length, length-drop, ==_ne,
}
use kexplorer_server.Prelude.Outcome.{Outcome, returns, terminates, undefined, map_outcome}
use kexplorer_server.Prelude.Text.{Str, text_at, text_at_junk}
use kexplorer_server.Buffer.{ContinuousBuffer, push, pop, data_ptr, add_size}
use kexplorer_server.Buffer.Inv.{IsValid, contents, length-contents}
use kexplorer_server.Buffer.Push.{bound, push-Pushed}
use kexplorer_server.Buffer.Refine.{pop_lem}
use kexplorer_server.Session.{SessionHandler, continues, Processor, dispatch, conclude}
use kexplorer_server.Session.Spec.{
  IsOpen, fresh, terminator, length-terminator, hand_over, Implements,
}

-- What the pointer of `data()` reaches in a buffer that holds something.
pub data_ptr_lem :
    {b : ContinuousBuffer}
    → IsValid b
    → 0 < b.used
    → data_ptr b ≡ some (contents b ++ drop b.used (drop b.start b.buffer))
unfolding data_ptr
data_ptr_lem {b} v h =
    rw (==_ne b.used 0 (omega arith), take-append-drop b.used (drop b.start b.buffer)) refl

-- A buffer that is full holds nothing behind its bytes.
nothing_behind :
    {b : ContinuousBuffer} → IsValid b → bound b ≤ b.used → drop b.used (drop b.start b.buffer) ≡ []
nothing_behind {b} v h =
    drop-length b.used (drop b.start b.buffer) (omega (arith, length-drop b.start b.buffer))

-- The text that the request processor is given.
pub handed_text :
    {b : ContinuousBuffer}
    → IsValid b
    → 0 < b.used
    → let q = contents b in
      let b' = (push b (0 ∷ [])).1 in
      (m : List ℕ) × (data_ptr b' ≡ some m)
      × (text_at m ≡ text_at (q ++ terminator (bound b) q))
      × (contents b' ≡ q ++ terminator (bound b) q)
      × IsValid b'
      × (bound b' ≡ bound b)
handed_text {b} v h =
    let p = push-Pushed (0 ∷ []) v (omega arith) in
    let b' = (push b (0 ∷ [])).1 in
    elim (Bool-cases (leb (length (contents b) + 1) (bound b))) [
      | inl room ↦
          let same : contents b' ≡ contents b ++ (0 ∷ []) = ap (λ r. r.1) p.result ∙ rw room refl in
          let grown : 0 < b'.used =
            omega (
              arith,
              ap length same,
              length-append (contents b) (0 ∷ []),
              length-contents p.valid,
            ) in
          (
            _,
            data_ptr_lem p.valid grown,
            rw (room, same, append_assoc) (text_at_junk (contents b) _),
            rw room same,
            p.valid,
            p.same_bound,
          )
      | inr full ↦
          let same : contents b' ≡ contents b = ap (λ r. r.1) p.result ∙ rw full refl in
          let as_many : b'.used ≡ b.used =
            omega (arith, ap length same, length-contents v, length-contents p.valid) in
          (
            _,
            data_ptr_lem p.valid (omega (arith, as_many)),
            rw
                (
                  full,
                  nothing_behind p.valid
                      (omega (arith, as_many, p.same_bound, length-contents v, leb→lt _ _ full)),
                  same,
                )
                refl,
            rw (full, append-nil) same,
            p.valid,
            p.same_bound,
          )
    ]

module _ {ℓ} {S : Type ℓ} where
  conclude-Implements :
      (h : SessionHandler) (n id : ℕ) (pos : ℕ) (o : Outcome (S × Str))
      → IsValid h.buffer
      → bound h.buffer ≡ n
      → h.id ≡ id
      → h.json_depth ≡ 0
      → h.buffer.used ≤ pos + 1
      → pos < 2 ^ 62
      → Implements n id
          (map_outcome (conclude h pos) o)
          (map_outcome (λ r. (r.0, fresh, continues, r.1)) o)
  unfolding conclude
  conclude-Implements h n id pos terminates v b i z l k = (refl, tt)
  conclude-Implements h n id pos undefined v b i z l k = (refl, tt)
  conclude-Implements h n id pos (returns (s, response)) v b i z l k =
      let (_, left, valid, same) = pop_lem (add_size pos 1) v in
      let empty : contents (pop h.buffer (add_size pos 1)).1 ≡ [] =
        left ∙ drop-length _ (contents h.buffer) (omega (arith, length-contents v)) in
      (
        rw (empty, z) refl,
        (record { valid = valid; ordered = omega arith; counted = omega arith }, same ∙ b, i),
      )

module _ {ℓ} {S : Type ℓ} (processor : Processor S) where
  dispatch_at :
      (s : S) (h : SessionHandler) (pos : ℕ) {memory : List ℕ}
      → data_ptr (push h.buffer (0 ∷ [])).1 ≡ some memory
      → dispatch processor s h pos
        ≡ map_outcome
            (conclude (record h { buffer = (push h.buffer (0 ∷ [])).1 }) pos)
            (processor s h.id (text_at memory) pos)
  unfolding dispatch
  dispatch_at s h pos at = rw (at, dispatch)

  pub dispatch-Implements :
      (s : S) {h : SessionHandler}
      → IsOpen h
      → h.json_depth ≡ 0
      → 0 < h.buffer.used
      → Implements
          (bound h.buffer)
          h.id
          (dispatch processor s h h.buffer.used)
          (hand_over processor (bound h.buffer) h.id s (contents h.buffer))
  dispatch-Implements s {h} o z pos =
      let (memory, at, read, holds, valid, same) = handed_text o.valid pos in
      rw (dispatch_at s h h.buffer.used at, sym read, length-contents o.valid, hand_over)
        (conclude-Implements _ (bound h.buffer) h.id h.buffer.used _ valid same refl z
          (omega (
            arith,
            ap length holds,
            length-append (contents h.buffer) (terminator (bound h.buffer) (contents h.buffer)),
            length-terminator (bound h.buffer) (contents h.buffer),
            length-contents valid,
            length-contents o.valid,
          ))
          (omega (arith, o.valid)))
