-- ===== src/Session/Chunks.antt =====
-- What a client of `SessionHandler` may rely on: requests arrive whole, however they are cut.
use kexplorer_server.Prelude.{
  ℕ, ◌+◌, ◌≤◌, ◌<◌, ◌^◌, ◌≡◌, refl, ap, subst, ◌∙◌, sym, Bool, true, false, ◌&&◌, not, [], ◌∷◌,
  ◌++◌, length, leb, ◌==◌, arith, append_assoc, append-nil, length-append, le→leb, lt→leb,
}
use kexplorer_server.Prelude.Outcome.{returns, map_outcome, ◌>>=◌, map_outcome-returns}
use kexplorer_server.Prelude.Text.{
  Str, NoNul, terminated, unterminated, text_at-append, text_at-NoNul,
}
use kexplorer_server.Buffer.Inv.{contents}
use kexplorer_server.Buffer.Push.{bound}
use kexplorer_server.Session.{SessionHandler, continues, Depths, scan, Processor, process}
use kexplorer_server.Session.Scan.{scan-append, scan-nil}
use kexplorer_server.Session.Spec.{
  IsOpen, View, view, fresh, hand_over, settle, react, viewed, StaysOpen,
}
use kexplorer_server.Session.Refine.{process-Implements}

-- The braces seen so far form a complete request.
abbrev pub is_complete : Depths → Bool
is_complete r = r.depth == 0 && not (r.depth_max == 0)

module _ {ℓ} {S : Type ℓ} (processor : Processor S) (n id : ℕ) where
  settle_complete :
      (s : S) (q : Str) (r : Depths)
      → is_complete r ≡ true
      → settle processor n id s q r.depth r.depth_max ≡ hand_over processor n id s q
  settle_complete s q r c = ground arith

  settle-incomplete :
      (s : S) (q : Str) (r : Depths)
      → is_complete r ≡ false
      → settle processor n id s q r.depth r.depth_max
        ≡ returns (s, record { text = q; depth = r.depth; depth_max = r.depth_max }, continues, [])
  settle-incomplete s q r c = ground arith

  hand_over-fits :
      (s : S) (q : Str)
      → NoNul q
      → length q < n
      → hand_over processor n id s q
        ≡ map_outcome (λ r. (r.0, fresh, continues, r.1)) (processor s id (terminated q) (length q))
  hand_over-fits s q clean h =
      rw (hand_over, le→leb (length q + 1) n (omega arith), text_at-append q [] clean)

  hand_over-full :
      (s : S) (q : Str)
      → NoNul q
      → length q ≡ n
      → hand_over processor n id s q
        ≡ map_outcome
            (λ r. (r.0, fresh, continues, r.1))
            (processor s id (unterminated q) (length q))
  hand_over-full s q clean h =
      rw (hand_over, lt→leb (length q + 1) n (omega arith), append-nil, text_at-NoNul q clean)

  -- Bytes that fit and are accepted.
  react-fits :
      (s : S) (v : View) (x : ℕ) (xs : Str)
      → length v.text + length (x ∷ xs) ≤ n
      → let r = scan (x ∷ xs) v.depth v.depth_max in
        r.valid ≡ true
        → react processor n id s v (x ∷ xs)
          ≡ settle processor n id s (v.text ++ (x ∷ xs)) r.depth r.depth_max
  react-fits s v x xs fits ok = rw (le→leb _ _ fits, ok)

  -- Bytes that complete nothing are kept.
  pub react-quiet :
      (s : S) (v : View) (xs : Str)
      → length v.text + length xs ≤ n
      → let r = scan xs v.depth v.depth_max in
        r.valid ≡ true
        → is_complete r ≡ false
        → react processor n id s v xs
          ≡ returns (
            s,
            record { text = v.text ++ xs; depth = r.depth; depth_max = r.depth_max },
            continues,
            [],
          )
  react-quiet s v [] fits ok part =
      rw (append-nil, scan-nil v.depth v.depth_max, react, le→leb _ _ fits) refl
  react-quiet s v (x ∷ xs) fits ok part =
      react-fits s v x xs fits ok
      ∙ settle-incomplete s (v.text ++ (x ∷ xs)) (scan (x ∷ xs) v.depth v.depth_max) part

  -- An incomplete chunk and the next one are as good as both at once.
  react-append :
      (s : S) (v : View) (xs ys : Str)
      → length v.text + length xs ≤ n
      → let r = scan xs v.depth v.depth_max in
        r.valid ≡ true
        → is_complete r ≡ false
        → react processor n id s v (xs ++ ys)
          ≡ react processor n id s
              (record { text = v.text ++ xs; depth = r.depth; depth_max = r.depth_max })
              ys
  react-append s v [] ys fits ok part = rw (append-nil, scan-nil v.depth v.depth_max) refl
  react-append s v (x ∷ xs) [] fits ok part =
      let q = v.text ++ (x ∷ xs) in
      let room : leb (length q + 0) n ≡ true =
        le→leb _ _ (omega (arith, length-append v.text (x ∷ xs))) in
      ap (λ zs. react processor n id s v (x ∷ zs)) (append-nil xs)
      ∙ react-quiet s v (x ∷ xs) fits ok part
      ∙ rw (react, room) refl
  react-append s v (x ∷ xs) (y ∷ ys) fits ok part =
      let r = scan (x ∷ xs) v.depth v.depth_max in
      let as_long : length v.text + length (x ∷ (xs ++ (y ∷ ys)))
          ≡ length (v.text ++ (x ∷ xs)) + length (y ∷ ys) =
        omega (arith, length-append v.text (x ∷ xs), length-append xs (y ∷ ys)) in
      let further : scan (x ∷ (xs ++ (y ∷ ys))) v.depth v.depth_max
          ≡ scan (y ∷ ys) r.depth r.depth_max =
        scan-append (x ∷ xs) (y ∷ ys) v.depth v.depth_max ∙ rw ok refl in
      let regroup : (v.text ++ (x ∷ xs)) ++ (y ∷ ys) ≡ v.text ++ (x ∷ (xs ++ (y ∷ ys))) =
        append_assoc v.text (x ∷ xs) (y ∷ ys) in
      rw (react, as_long, further, regroup) refl

module _ {ℓ} {S : Type ℓ} (processor : Processor S) where
  -- What a call does with bytes that complete a request.
  completes :
      (s : S) {h : SessionHandler} (x : ℕ) (xs : Str)
      → IsOpen h
      → length (contents h.buffer) + length (x ∷ xs) ≤ bound h.buffer
      → length (x ∷ xs) < 2 ^ 62
      → (scan (x ∷ xs) h.json_depth h.json_depth_max).valid ≡ true
      → is_complete (scan (x ∷ xs) h.json_depth h.json_depth_max) ≡ true
      → map_outcome viewed (process processor s h (x ∷ xs))
        ≡ hand_over processor (bound h.buffer) h.id s (contents h.buffer ++ (x ∷ xs))
  completes s {h} x xs o fits small ok full =
      (process-Implements processor s (x ∷ xs) o small).0
      ∙ react-fits processor (bound h.buffer) h.id s (view h) x xs fits ok
      ∙ settle_complete processor (bound h.buffer) h.id s _
          (scan (x ∷ xs) h.json_depth h.json_depth_max) full

  -- The bytes that complete a request in an open session have it processed once, with the text of
  -- all bytes since the last request, if one more byte fits the buffer and the text holds no NUL;
  -- the response is returned and the session is empty again.
  pub process_request :
      (s : S) {h : SessionHandler} (x : ℕ) (xs : Str)
      → IsOpen h
      → length (contents h.buffer) + length (x ∷ xs) < bound h.buffer
      → length (x ∷ xs) < 2 ^ 62
      → NoNul (contents h.buffer ++ (x ∷ xs))
      → (scan (x ∷ xs) h.json_depth h.json_depth_max).valid ≡ true
      → is_complete (scan (x ∷ xs) h.json_depth h.json_depth_max) ≡ true
      → let text = contents h.buffer ++ (x ∷ xs) in
        map_outcome viewed (process processor s h (x ∷ xs))
        ≡ map_outcome
            (λ r. (r.0, fresh, continues, r.1))
            (processor s h.id (terminated text) (length text))
  process_request s {h} x xs o fits small clean ok full =
      completes s x xs o (omega arith) small ok full
      ∙ hand_over-fits processor (bound h.buffer) h.id s _ clean
          (omega (arith, length-append (contents h.buffer) (x ∷ xs)))

  -- A request that fills the buffer is handed over without a terminator.
  pub process_full :
      (s : S) {h : SessionHandler} (x : ℕ) (xs : Str)
      → IsOpen h
      → length (contents h.buffer) + length (x ∷ xs) ≡ bound h.buffer
      → length (x ∷ xs) < 2 ^ 62
      → NoNul (contents h.buffer ++ (x ∷ xs))
      → (scan (x ∷ xs) h.json_depth h.json_depth_max).valid ≡ true
      → is_complete (scan (x ∷ xs) h.json_depth h.json_depth_max) ≡ true
      → let text = contents h.buffer ++ (x ∷ xs) in
        map_outcome viewed (process processor s h (x ∷ xs))
        ≡ map_outcome
            (λ r. (r.0, fresh, continues, r.1))
            (processor s h.id (unterminated text) (length text))
  process_full s {h} x xs o fills small clean ok full =
      completes s x xs o (omega arith) small ok full
      ∙ hand_over-full processor (bound h.buffer) h.id s _ clean
          (omega (arith, length-append (contents h.buffer) (x ∷ xs)))

  -- If a chunk fits an open session, is accepted and completes no request, then receiving it and
  -- next another one gives what receiving both at once gives.
  pub process-append :
      (s : S) {h : SessionHandler} (xs ys : Str)
      → IsOpen h
      → length (contents h.buffer) + length xs ≤ bound h.buffer
      → length (xs ++ ys) < 2 ^ 62
      → (scan xs h.json_depth h.json_depth_max).valid ≡ true
      → is_complete (scan xs h.json_depth h.json_depth_max) ≡ false
      → (process processor s h xs >>= λ a. map_outcome viewed (process processor a.0 a.1 ys))
        ≡ map_outcome viewed (process processor s h (xs ++ ys))
  process-append s {h} xs ys o fits small ok part =
      let short : length xs < 2 ^ 62 = omega (arith, length-append xs ys) in
      let first = process-Implements processor s xs o short in
      let (a, e, va) =
        map_outcome-returns viewed _
          (first.0 ∙ react-quiet processor (bound h.buffer) h.id s (view h) xs fits ok part) in
      let (o', same, id) = subst (StaysOpen (bound h.buffer) h.id) e first.1 in
      rw e (
        (process-Implements processor a.0 ys o' (omega (arith, length-append xs ys))).0
        ∙ (λ i. react processor (same i) (id i) (va i).0 (va i).1 ys)
        ∙ sym (react-append processor (bound h.buffer) h.id s (view h) xs ys fits ok part)
        ∙ sym (process-Implements processor s (xs ++ ys) o small).0)
