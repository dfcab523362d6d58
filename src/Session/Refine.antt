-- ===== src/Session/Refine.antt =====
-- `SessionHandler::process` implements the abstract session.
use kexplorer_server.Prelude.{
  suc, ◌+◌, ◌<◌, ◌^◌, ◌≡◌, refl, ap, subst, subst₂, ==_iff, ◌∙◌, true, false, [], ◌∷◌, ◌++◌, length,
  drop, leb, null, if◌then◌else◌, ◌==◌, inl, inr, Bool-cases, arith, append-nil, length-append,
  drop-append, ==_ne,
}
use kexplorer_server.Prelude.Outcome.{returns}
use kexplorer_server.Prelude.Text.{Str}
use kexplorer_server.Buffer.{ContinuousBuffer, push}
use kexplorer_server.Buffer.Inv.{IsValid, contents, length-contents}
use kexplorer_server.Buffer.Push.{bound, push-Pushed}
use kexplorer_server.Buffer.Refine.{reset_lem}
use kexplorer_server.Session.{
  SessionHandler, continues, aborts, scan, fail, Processor, finish, examine, process,
}
use kexplorer_server.Session.Scan.{scan_bounds}
use kexplorer_server.Session.Dispatch.{dispatch-Implements}
use kexplorer_server.Session.Spec.{IsOpen, view, fresh, settle, react, Implements}

module _ {ℓ} {S : Type ℓ} (processor : Processor S) where
  finish-Implements :
      (s : S) {h : SessionHandler}
      → IsOpen h
      → Implements (bound h.buffer) h.id (finish processor s h) (
          settle processor
            (bound h.buffer)
            h.id
            s
            (contents h.buffer)
            h.json_depth
            h.json_depth_max)
  unfolding finish
  finish-Implements s {h} o = elim (Bool-cases (h.json_depth == 0)) [
    | inr more ↦ rw more (refl, (o, refl, refl))
    | inl closed ↦ rw closed (elim (Bool-cases (h.json_depth_max == 0)) [
      | inl none_yet ↦ rw none_yet (refl, (o, refl, refl))
      | inr some_yet ↦ rw some_yet (dispatch-Implements processor s o (ground arith) (ground arith))
    ])
  ]

  fail-Implements :
      (s : S) (h : SessionHandler)
      → IsValid h.buffer
      → Implements
          (bound h.buffer)
          h.id
          (returns (s, fail h, aborts, []))
          (returns (s, fresh, aborts, []))
  unfolding fail
  fail-Implements s h v =
      let (empty, valid, same) = reset_lem v in
      (
        rw empty refl,
        (record { valid = valid; ordered = omega arith; counted = omega arith }, same, refl),
      )

  -- `b` holds `xs` behind the text that the session had.
  examine-Implements :
      (s : S) {h : SessionHandler} (b : ContinuousBuffer) (xs : Str)
      → IsOpen h
      → IsValid b
      → contents b ≡ contents h.buffer ++ xs
      → bound b ≡ bound h.buffer
      → Implements
          (bound h.buffer)
          h.id
          (examine processor s (record h { buffer = b }) h.buffer.used)
          (if null xs
            then returns (s, view h, continues, [])
            else (let r = scan xs h.json_depth h.json_depth_max in
                if r.valid
                then settle processor
                    (bound h.buffer)
                    h.id
                    s
                    (contents h.buffer ++ xs)
                    r.depth
                    r.depth_max
                else returns (s, fresh, aborts, [])))
  unfolding examine
  examine-Implements s {h} b [] o v same bd = rw ((==_iff b.used h.buffer.used).1 as_many) (
    rw (same, append-nil) refl,
    (record { valid = v; ordered = o.ordered; counted = omega (arith, as_many) }, bd, refl),
  )
    where
      as_many : b.used ≡ h.buffer.used
      as_many = omega (
        arith,
        ap length same,
        ap length (append-nil (contents h.buffer)),
        length-contents v,
        length-contents o.valid,
      )
  examine-Implements s {h} b (x ∷ xs) o v same bd =
      let r = scan (x ∷ xs) h.json_depth h.json_depth_max in
      rw (==_ne b.used h.buffer.used (omega (arith, more)), new)
        (elim (Bool-cases r.valid) [
          | inl ok ↦ rw ok (
              subst₂
                (λ n q.
                  Implements n h.id
                    (finish processor s
                      (record h { buffer = b; json_depth = r.depth; json_depth_max = r.depth_max }))
                    (settle processor n h.id s q r.depth r.depth_max))
                bd same
                (finish-Implements s (
                  let bounds =
                    scan_bounds (x ∷ xs) h.json_depth h.json_depth_max b.used o.ordered
                      (omega (arith, more)) (omega (arith, more)) (omega arith) in
                  record { valid = v; ordered = bounds.0; counted = bounds.2 })))
          | inr bad ↦ rw bad (
              subst
                (λ n.
                  Implements n h.id (returns (s, fail (record h { buffer = b }), aborts, []))
                    (returns (s, fresh, aborts, [])))
                bd (fail-Implements s (record h { buffer = b }) v))
        ])
    where
      more : b.used ≡ h.buffer.used + suc (length xs)
      more = omega (
        arith,
        ap length same,
        length-append (contents h.buffer) (x ∷ xs),
        length-contents v,
        length-contents o.valid,
      )

      new : drop h.buffer.used (contents b) ≡ x ∷ xs
      new =
          ap (drop h.buffer.used) same
          ∙ drop-append h.buffer.used 0 (contents h.buffer) (x ∷ xs)
              (omega (arith, length-contents o.valid))

  -- For an open session, `process` does what the abstract session `react` does with the text
  -- received so far and the two brace counters, on every branch, and the session that it leaves is
  -- open again, with the same bound and id.
  pub process-Implements :
      (s : S) {h : SessionHandler} (xs : Str)
      → IsOpen h
      → length xs < 2 ^ 62
      → Implements
          (bound h.buffer)
          h.id
          (process processor s h xs)
          (react processor (bound h.buffer) h.id s (view h) xs)
  unfolding process
  process-Implements s {h} xs o small =
      let p = push-Pushed xs o.valid small in
      let b = (push h.buffer xs).1 in
      elim (Bool-cases (leb (length (contents h.buffer) + length xs) (bound h.buffer))) [
        | inl room ↦
            let pushed : (push h.buffer xs).0 ≡ true = ap (λ r. r.0) p.result ∙ rw room refl in
            let same : contents b ≡ contents h.buffer ++ xs =
              ap (λ r. r.1) p.result ∙ rw room refl in
            rw (room, pushed) (examine-Implements s b xs o p.valid same p.same_bound)
        | inr full ↦
            let refused : (push h.buffer xs).0 ≡ false = ap (λ r. r.0) p.result ∙ rw full refl in
            rw (full, refused)
              (subst
                (λ n.
                  Implements n h.id (returns (s, fail (record h { buffer = b }), aborts, []))
                    (returns (s, fresh, aborts, [])))
                p.same_bound (fail-Implements s (record h { buffer = b }) p.valid))
      ]
