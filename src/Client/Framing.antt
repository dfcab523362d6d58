-- ===== src/Client/Framing.antt =====
-- `Client::process` against the abstract receiver of one response.
use kexplorer_server.Prelude.{
  ℕ, suc, ◌+◌, ◌<◌, ◌^◌, ◌≡◌, refl, ap, sym, ◌∙◌, subst₂, true, false, [], ◌∷◌, ◌++◌, length, drop,
  leb, null, if◌then◌else◌, inl, inr, Bool-cases, arith, append-nil, length-append, drop-append,
  ==_ne, ==_iff,
}
use kexplorer_server.Prelude.Text.{Str}
use kexplorer_server.Buffer.{ContinuousBuffer, push}
use kexplorer_server.Buffer.Inv.{IsValid, contents, length-contents}
use kexplorer_server.Buffer.Push.{bound, push-Pushed}
use kexplorer_server.Session.{scan}
use kexplorer_server.Session.Scan.{scan_bounds}
use kexplorer_server.Session.Spec.{View}
use kexplorer_server.Client.{Client, Output, say, finish_response, examine_response, process}
use kexplorer_server.Client.Spec.{IsOpen, view, settle, react, Receives}
use kexplorer_server.Client.Completion.{complains, finish_response-Receives}

-- `b` holds `xs` behind the text that the client had.
examine_response-Receives :
    (c : Client) (b : ContinuousBuffer) (x : ℕ) (xs : Str)
    → IsOpen c
    → IsValid b
    → contents b ≡ contents c.buffer ++ (x ∷ xs)
    → bound b ≡ bound c.buffer
    → Receives (bound c.buffer) c.out (examine_response (record c { buffer = b }) c.buffer.used) (
        let r = scan (x ∷ xs) c.json_depth c.json_depth_max in
        let v' : View = record {
          text = contents c.buffer ++ (x ∷ xs);
          depth = r.depth;
          depth_max = r.depth_max;
        } in
        if r.valid then settle v' else (v', Output.response_failed ∷ [], true))
unfolding examine_response
examine_response-Receives c b x xs o v same bd =
    let r = scan (x ∷ xs) c.json_depth c.json_depth_max in
    let c' : Client = record c { buffer = b; json_depth = r.depth; json_depth_max = r.depth_max } in
    let bounds =
      scan_bounds (x ∷ xs) c.json_depth c.json_depth_max b.used o.ordered (omega (arith, more))
        (omega (arith, more)) (omega arith) in
    let o' : IsOpen c' = record { valid = v; ordered = bounds.0; counted = bounds.2 } in
    rw (==_ne b.used c.buffer.used (omega (arith, more)), new)
      (elim (Bool-cases r.valid) [
        | inl ok ↦ rw ok (
            subst₂
              (λ n q.
                Receives n c.out (finish_response c' b.used)
                  (settle (record { text = q; depth = r.depth; depth_max = r.depth_max })))
              bd same (finish_response-Receives c' o'))
        | inr bad ↦ rw bad (
            subst₂
              (λ n q.
                Receives n c.out (say Output.response_failed c', true)
                  (
                    record { text = q; depth = r.depth; depth_max = r.depth_max },
                    Output.response_failed ∷ [],
                    true,
                  ))
              bd same (complains c' o'))
      ])
  where
    more : b.used ≡ c.buffer.used + suc (length xs)
    more = omega (
      arith,
      ap length same,
      length-append (contents c.buffer) (x ∷ xs),
      length-contents v,
      length-contents o.valid,
    )

    new : drop c.buffer.used (contents b) ≡ x ∷ xs
    new =
        ap (drop c.buffer.used) same
        ∙ drop-append c.buffer.used 0 (contents c.buffer) (x ∷ xs)
            (omega (arith, length-contents o.valid))

examine_nothing :
    (c : Client) (b : ContinuousBuffer)
    → IsOpen c
    → IsValid b
    → contents b ≡ contents c.buffer
    → bound b ≡ bound c.buffer
    → Receives
        (bound c.buffer)
        c.out
        (examine_response (record c { buffer = b }) c.buffer.used)
        (view c, [], false)
unfolding examine_response
examine_nothing c b o v same bd =
    let as_many : b.used ≡ c.buffer.used =
      omega (arith, ap length same, length-contents v, length-contents o.valid) in
    rw ((==_iff b.used c.buffer.used).1 as_many) (record {
      left = rw same refl;
      said = sym (append-nil c.out);
      over = refl;
      stays = record { valid = v; ordered = o.ordered; counted = omega (arith, as_many) };
      same = bd;
    })

examined :
    (c : Client) (xs : Str) (b : ContinuousBuffer)
    → IsOpen c
    → IsValid b
    → contents b ≡ contents c.buffer ++ xs
    → bound b ≡ bound c.buffer
    → Receives (bound c.buffer) c.out (examine_response (record c { buffer = b }) c.buffer.used) (
        if null xs
        then (view c, [], false)
        else (let r = scan xs c.json_depth c.json_depth_max in
            let v' : View = record {
              text = contents c.buffer ++ xs;
              depth = r.depth;
              depth_max = r.depth_max;
            } in
            if r.valid then settle v' else (v', Output.response_failed ∷ [], true)))
examined c [] b o v same bd = examine_nothing c b o v (same ∙ append-nil (contents c.buffer)) bd
examined c (x ∷ xs) b o v same bd = examine_response-Receives c b x xs o v same bd

-- For a client whose buffer is valid and whose counters stay within the bytes held, a chunk has
-- the effect that the abstract receiver has with the text received so far: what is left, what is
-- said and whether the response is over, on every branch; the client stays so, with the same
-- bound.
pub process-Receives :
    (c : Client) (xs : Str)
    → IsOpen c
    → length xs < 2 ^ 62
    → Receives (bound c.buffer) c.out (process c xs) (react (bound c.buffer) (view c) xs)
unfolding process
process-Receives c xs o small =
    let p = push-Pushed xs o.valid small in
    let b = (push c.buffer xs).1 in
    elim (Bool-cases (leb (length (contents c.buffer) + length xs) (bound c.buffer))) [
      | inl room ↦
          let pushed : (push c.buffer xs).0 ≡ true = ap (λ r. r.0) p.result ∙ rw room refl in
          let same : contents b ≡ contents c.buffer ++ xs = ap (λ r. r.1) p.result ∙ rw room refl in
          rw (room, pushed) (examined c xs b o p.valid same p.same_bound)
      | inr full ↦
          let refused : (push c.buffer xs).0 ≡ false = ap (λ r. r.0) p.result ∙ rw full refl in
          let same : contents b ≡ contents c.buffer = ap (λ r. r.1) p.result ∙ rw full refl in
          let as_many : b.used ≡ c.buffer.used =
            omega (arith, ap length same, length-contents p.valid, length-contents o.valid) in
          let c' : Client = record c { buffer = b } in
          let o' : IsOpen c' = record {
            valid = p.valid;
            ordered = o.ordered;
            counted = omega (arith, as_many, o.counted);
          } in
          rw (full, refused)
            (subst₂
              (λ n q.
                Receives n c.out (say Output.response_failed c', true)
                  (
                    record { text = q; depth = c.json_depth; depth_max = c.json_depth_max },
                    Output.response_failed ∷ [],
                    true,
                  ))
              p.same_bound same (complains c' o'))
    ]
