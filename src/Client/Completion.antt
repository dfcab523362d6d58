-- ===== src/Client/Completion.antt =====
-- What the tool does with bytes that complete no response, and with those that complete one.
use kexplorer_server.Prelude.{
  ◌<◌, ◌≡◌, refl, ap, sym, ◌∙◌, true, false, [], ◌∷◌, length, ◌==◌, inl, inr, Bool-cases, arith,
  append-nil, append_assoc, length-append, drop-length, take-append_left, take-length,
}
use kexplorer_server.Buffer.{ContinuousBuffer, push, pop, data_ptr, add_size}
use kexplorer_server.Buffer.Inv.{IsValid, contents, length-contents}
use kexplorer_server.Buffer.Push.{bound}
use kexplorer_server.Buffer.Refine.{pop_lem}
use kexplorer_server.Session.Spec.{fresh, terminator, length-terminator}
use kexplorer_server.Session.Dispatch.{data_ptr_lem, handed_text}
use kexplorer_server.Client.{Client, Output, say, process_json, complete_response, finish_response}
use kexplorer_server.Client.Spec.{IsOpen, view, settle, Receives}

pub quiet : (c : Client) → IsOpen c → Receives (bound c.buffer) c.out (c, false) (view c, [], false)
quiet c o = record {
  left = refl;
  said = sym (append-nil c.out);
  over = refl;
  stays = o;
  same = refl;
}

pub complains :
    (c : Client)
    → IsOpen c
    → Receives
        (bound c.buffer)
        c.out
        (say Output.response_failed c, true)
        (view c, Output.response_failed ∷ [], true)
complains c o = record {
  left = refl;
  said = refl;
  over = refl;
  stays = record { valid = o.valid; ordered = o.ordered; counted = o.counted };
  same = refl;
}

-- The text that is printed.
pub shown_text :
    {b : ContinuousBuffer}
    → IsValid b
    → 0 < b.used
    → (c : Client)
    → process_json (data_ptr (push b (0 ∷ [])).1) b.used c ≡ say (Output.printed (contents b)) c
unfolding process_json
shown_text {b} v h c =
    let (_, _, _, holds, valid, _) = handed_text v h in
    let b' = (push b (0 ∷ [])).1 in
    let more : 0 < b'.used = omega (
      arith,
      ap length holds,
      length-append (contents b) (terminator (bound b) (contents b)),
      length-contents valid,
      length-contents v,
    ) in
    rw (data_ptr_lem valid more, holds, append_assoc)
      (ap (λ t. say (Output.printed t) c)
        (take-append_left b.used (contents b) _ (omega (arith, length-contents v))
          ∙ take-length b.used (contents b) (sym (length-contents v))))

pub complete_response-Receives :
    (c : Client)
    → IsOpen c
    → c.json_depth ≡ 0
    → 0 < c.buffer.used
    → Receives
        (bound c.buffer)
        c.out
        (complete_response c c.buffer.used, true)
        (fresh, Output.printed (contents c.buffer) ∷ [], true)
unfolding complete_response
complete_response-Receives c o z h =
    let b' = (push c.buffer (0 ∷ [])).1 in
    let (_, _, _, holds, valid, same) = handed_text o.valid h in
    let (_, left, popped, kept) = pop_lem (add_size c.buffer.used 1) valid in
    let empty : contents (pop b' (add_size c.buffer.used 1)).1 ≡ [] =
      left
      ∙ drop-length _ (contents b') (
          omega (
            arith,
            ap length holds,
            length-append (contents c.buffer) (terminator (bound c.buffer) (contents c.buffer)),
            length-terminator (bound c.buffer) (contents c.buffer),
            length-contents o.valid,
            o.valid,
          )) in
    rw (shown_text o.valid h (record c { buffer = b' })) (record {
      left = rw (empty, z) refl;
      said = refl;
      over = refl;
      stays = record { valid = popped; ordered = omega arith; counted = omega arith };
      same = kept ∙ same;
    })

pub finish_response-Receives :
    (c : Client)
    → IsOpen c
    → Receives (bound c.buffer) c.out (finish_response c c.buffer.used) (settle (view c))
unfolding finish_response
finish_response-Receives c o = elim (Bool-cases (c.json_depth == 0)) [
  | inr more ↦ rw more (quiet c o)
  | inl closed ↦ rw closed (elim (Bool-cases (c.json_depth_max == 0)) [
    | inl none_yet ↦ rw none_yet (quiet c o)
    | inr some_yet ↦ rw some_yet (complete_response-Receives c o (ground arith) (ground arith))
  ])
]
