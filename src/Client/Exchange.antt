-- ===== src/Client/Exchange.antt =====
-- What a user of the tool may rely on: the response is printed once, however it is cut.
use kexplorer_server.Prelude.{
  ℕ, ◌+◌, ◌≤◌, ◌<◌, ◌^◌, ◌≡◌, refl, ap, sym, ◌∙◌, subst, Bool, true, false, [], ◌∷◌, ◌++◌, List,
  length, take, if◌then◌else◌, inl, inr, Bool-cases, arith, append-nil, append_assoc, length-append,
  take-append_left, take-length, some, le→leb, ltb, ltb→lt, not_lt,
}
use kexplorer_server.Prelude.Text.{Str}
use kexplorer_server.Buffer.{reset}
use kexplorer_server.Buffer.Inv.{IsValid}
use kexplorer_server.Buffer.Push.{bound}
use kexplorer_server.Buffer.Refine.{reset_lem}
use kexplorer_server.Session.{scan}
use kexplorer_server.Session.Scan.{scan-append, scan-nil}
use kexplorer_server.Session.Spec.{View, fresh}
use kexplorer_server.Session.Chunks.{is_complete}
use kexplorer_server.Client.{
  Client, Output, Phase, is_reading, on_read, on_write, receive, command, reset_response,
}
use kexplorer_server.Client.Spec.{IsOpen, view, settle, react}
use kexplorer_server.Client.Framing.{process-Receives}

abbrev pub joined : List Str → Str
joined [] = []
joined (xs ∷ chunks) = xs ++ joined chunks

-- One response: its braces match, and not before its end.
pub record Response (text : Str) : Type 0 where
  pub valid : (scan text 0 0).valid ≡ true
  pub complete : is_complete (scan text 0 0) ≡ true
  pub single : (k : ℕ) → k < length text → is_complete (scan (take k text) 0 0) ≡ false

-- The view of a client that holds the first bytes of a response.
abbrev so_far : Str → View
so_far p = let r = scan p 0 0 in record { text = p; depth = r.depth; depth_max = r.depth_max }

prefix-valid : (p s : Str) → (scan (p ++ s) 0 0).valid ≡ true → (scan p 0 0).valid ≡ true
prefix-valid p s h = elim (Bool-cases (scan p 0 0).valid) [
  | inl ok ↦ ok
  | inr bad ↦
      let stuck : scan (p ++ s) 0 0 ≡ scan p 0 0 = scan-append p s 0 0 ∙ rw bad refl in
      sym (ap (λ r. r.valid) stuck) ∙ h
]

-- What the abstract receiver makes of the bytes behind a prefix.
react-so_far :
    (n : ℕ) (p : Str) (x : ℕ) (xs : Str)
    → length p + length (x ∷ xs) ≤ n
    → (scan p 0 0).valid ≡ true
    → (scan (p ++ (x ∷ xs)) 0 0).valid ≡ true
    → react n (so_far p) (x ∷ xs) ≡ settle (so_far (p ++ (x ∷ xs)))
react-so_far n p x xs fits ok both =
    let r = scan p 0 0 in
    let on : scan (x ∷ xs) r.depth r.depth_max ≡ scan (p ++ (x ∷ xs)) 0 0 =
      sym (scan-append p (x ∷ xs) 0 0 ∙ rw ok refl) in
    rw (le→leb _ _ fits, on, both) refl

settle_complete :
    (p : Str)
    → is_complete (scan p 0 0) ≡ true
    → settle (so_far p) ≡ (fresh, Output.printed p ∷ [], true)
settle_complete p h = ground arith

settle-incomplete :
    (p : Str) → is_complete (scan p 0 0) ≡ false → settle (so_far p) ≡ (so_far p, [], false)
settle-incomplete p h = ground arith

-- What a client is like when the response is over.
pub record Done (out : List Output) (text : Str) (c : Client) : Type 0 where
  pub printed_once : c.out ≡ out ++ (Output.printed text ∷ [])
  pub over : c.phase ≡ Phase.stopped
  pub empty : view c ≡ fresh

receive-stopped : (c : Client) (chunks : List Str) → c.phase ≡ Phase.stopped → receive c chunks ≡ c
unfolding receive
receive-stopped c [] h = refl
receive-stopped c (xs ∷ chunks) h =
    let ends : is_reading c.phase ≡ false = ap is_reading h in rw ends

receive-cons :
    (c : Client) (xs : Str) (chunks : List Str)
    → c.phase ≡ Phase.reading
    → receive c (xs ∷ chunks) ≡ receive (on_read (some xs) c) chunks
unfolding receive
receive-cons c xs chunks h = let goes : is_reading c.phase ≡ true = ap is_reading h in rw goes

-- A client after one chunk, by what the abstract receiver makes of it.
record After (n : ℕ) (out : List Output) (v : View) (said : List Output) (over : Bool) (c : Client)
    : Type 0 where
  stays : IsOpen c
  same : bound c.buffer ≡ n
  left : view c ≡ v
  output : c.out ≡ out ++ said
  phase : c.phase ≡ (if over then Phase.stopped else Phase.reading)

on_read-After :
    (c : Client) (xs : Str) (v : View) (said : List Output) (over : Bool)
    → IsOpen c
    → length xs < 2 ^ 62
    → react (bound c.buffer) (view c) xs ≡ (v, said, over)
    → After (bound c.buffer) c.out v said over (on_read (some xs) c)
unfolding on_read
on_read-After c xs v said over o small r =
    let i = process-Receives c xs o small in
    let s = i.stays in
    record {
      stays = record { valid = s.valid; ordered = s.ordered; counted = s.counted };
      same = i.same;
      left = i.left ∙ ap (λ t. t.0) r;
      output = i.said ∙ ap (λ t. c.out ++ t.1) r;
      phase = ap (λ t. if t then Phase.stopped else Phase.reading) (i.over ∙ ap (λ t. t.2) r);
    }

react-nil : (n : ℕ) (p : Str) → length p ≤ n → react n (so_far p) [] ≡ (so_far p, [], false)
react-nil n p h = rw (le→leb (length p + 0) n (omega (arith, h))) refl

length-zero : (s : Str) → length s ≡ 0 → s ≡ []
length-zero [] h = refl
length-zero (c ∷ s) h = absurd (omega arith)

Done-quiet :
    {out said : List Output} (text : Str) {c : Client}
    → said ≡ out ++ []
    → Done said text c
    → Done out text c
Done-quiet {out} {said} text {c} e d = subst (λ o. Done o text c) (e ∙ append-nil out) d

receive-prefix :
    (text : Str) (p : Str) (chunks : List Str) (c : Client)
    → Response text
    → IsOpen c
    → length text ≤ bound c.buffer
    → c.phase ≡ Phase.reading
    → view c ≡ so_far p
    → p ++ joined chunks ≡ text
    → length p < length text
    → Done c.out text (receive c chunks)
receive-prefix text p [] c ok o fits reading v e short =
    absurd (omega (arith, ap length e, ap length (append-nil p)))
receive-prefix text p ([] ∷ chunks) c ok o fits reading v e short =
    let a =
      on_read-After c [] (so_far p) [] false o (omega arith)
        (ap (λ w. react (bound c.buffer) w []) v ∙ react-nil (bound c.buffer) p (omega arith)) in
    rw (receive-cons c [] chunks reading) (
      Done-quiet text a.output (
        receive-prefix text p chunks (on_read (some []) c) ok a.stays (omega (arith, a.same))
          a.phase a.left e short))
receive-prefix text p ((x ∷ xs) ∷ chunks) c ok o fits reading v e short =
    let p' = p ++ (x ∷ xs) in
    let whole : p' ++ joined chunks ≡ text = append_assoc p (x ∷ xs) (joined chunks) ∙ e in
    let long : length p' + length (joined chunks) ≡ length text =
      omega (arith, length-append p' (joined chunks), ap length whole) in
    let split : length p' ≡ length p + length (x ∷ xs) = length-append p (x ∷ xs) in
    let valid' : (scan p' 0 0).valid ≡ true =
      prefix-valid p' (joined chunks) (ap (λ t. (scan t 0 0).valid) whole ∙ ok.valid) in
    let valid : (scan p 0 0).valid ≡ true = prefix-valid p (x ∷ xs) valid' in
    let small : length (x ∷ xs) < 2 ^ 62 = omega (arith, o.valid, long, split, fits) in
    let reacts : react (bound c.buffer) (view c) (x ∷ xs) ≡ settle (so_far p') =
      ap (λ w. react (bound c.buffer) w (x ∷ xs)) v
      ∙ react-so_far (bound c.buffer) p x xs (omega (arith, long, split, fits)) valid valid' in
    rw (receive-cons c (x ∷ xs) chunks reading) (elim (Bool-cases (ltb (length p') (length text))) [
      | inl more ↦
          let cut : take (length p') text ≡ p' =
            ap (take (length p')) (sym whole)
            ∙ take-append_left (length p') p' (joined chunks) (omega arith)
            ∙ take-length (length p') p' refl in
          let part =
            ap (λ t. is_complete (scan t 0 0)) (sym cut)
            ∙ ok.single (length p') (ltb→lt _ _ more) in
          let a =
            on_read-After c (x ∷ xs) (so_far p') [] false o small
              (reacts ∙ settle-incomplete p' part) in
          Done-quiet text a.output (
            receive-prefix text p' chunks (on_read (some (x ∷ xs)) c) ok a.stays
              (omega (arith, a.same, fits)) a.phase a.left whole (ltb→lt _ _ more))
      | inr last ↦
          let none_left = length-zero (joined chunks) (omega (arith, not_lt _ _ last, long)) in
          let all : p' ≡ text = sym (append-nil p') ∙ ap (λ t. p' ++ t) (sym none_left) ∙ whole in
          let full = ap (λ t. is_complete (scan t 0 0)) all ∙ ok.complete in
          let a =
            on_read-After c (x ∷ xs) fresh (Output.printed p' ∷ []) true o small
              (reacts ∙ settle_complete p' full) in
          rw (receive-stopped (on_read (some (x ∷ xs)) c) chunks a.phase) (record {
            printed_once = a.output ∙ ap (λ t. c.out ++ (Output.printed t ∷ [])) all;
            over = a.phase;
            empty = a.left;
          })
    ])

-- If the tool has not been stopped, is connected and has a valid buffer, then after a command that
-- is sent, the chunks of a response that fits the buffer, whose braces match at its end and not
-- before, are printed exactly once and as a whole, however the response is cut; then the event
-- loop is stopped and the buffer is empty.
pub exchange :
    (c : Client) (cmd text : Str) (chunks : List Str)
    → c.stop ≡ false
    → IsValid c.buffer
    → Response text
    → length text ≤ bound c.buffer
    → joined chunks ≡ text
    → (d : Client) × (command true cmd c ≡ some d)
      × Done c.out text (receive (on_write true d) chunks)
unfolding command on_write reset_response
exchange c cmd text chunks go v ok fits e =
    let (empty, valid, same) = reset_lem v in
    let d : Client = record c {
      json_depth = 0;
      json_depth_max = 0;
      buffer = reset c.buffer;
      phase = Phase.writing cmd;
    } in
    let waits : Client = record d { phase = Phase.reading } in
    let o : IsOpen waits = record { valid = valid; ordered = omega arith; counted = omega arith } in
    let starts : view waits ≡ so_far [] = rw (empty, scan-nil 0 0) refl in
    let some_text : 0 < length text = positive text ok.complete in
    let sent : on_write true d ≡ waits =
      ap (λ b. if b then record d { phase = Phase.idle } else waits) go in
    (
      d,
      rw go refl,
      subst (λ w. Done c.out text (receive w chunks)) (sym sent)
          (receive-prefix text [] chunks waits ok o (omega (arith, same, fits)) refl starts e
            some_text),
    )
  where
    positive : (t : Str) → is_complete (scan t 0 0) ≡ true → 0 < length t
    positive [] h = let wrong : is_complete (scan [] 0 0) ≡ false = rw (scan-nil 0 0) refl in cc
    positive (x ∷ t) h = omega arith
