-- ===== src/Server/Reads.antt =====
-- What a completed read does, from the bytes on the socket to the response that is written.
use kexplorer_server.Prelude.{
  ℕ, ◌≤◌, ◌≡◌, refl, ◌∙◌, ap, Bool, true, false, some, List, [], ◌∷◌, take-all, drop-length, ◌==◌,
  ==_iff, length,
}
use kexplorer_server.Prelude.Map.{nat_eq, find, replace}
use kexplorer_server.Prelude.Outcome.{
  returns, terminates, ◌>>=◌, map_outcome, map_outcome-returns, map_outcome-terminates,
}
use kexplorer_server.Prelude.Text.{Str, str_eq}
use kexplorer_server.Session.{SessionHandler, continues, aborts, Answer, process}
use kexplorer_server.Session.Spec.{View, view, viewed}
use kexplorer_server.TcpServer.{
  Link, Pending, Completion, TcpServer, has_session, Handlers, on_write, through, run_handler,
  take_op, taken, unsent, begin_write, answer_read, fire,
}
use kexplorer_server.TcpServer.Lifetime.{fire_read}
use kexplorer_server.Server.{
  IRequestProcessor, SessionHandlerOptions, Live, store, session_handlers,
}
use kexplorer_server.Server.Sessions.{process_bytes-found, find_stored}

-- A session has answered a read: the writing of a text to the peer was started and the next read is under
-- way, the processor and the session have moved on, and nothing else has changed.
pub record Answered {ℓ} {P : Type ℓ} (id : ℕ) (link : Link) (s t : TcpServer (Live P))
    (processor : P) (v : View) (text : Str) : Type ℓ where
  pub rest : List Pending
  pub was_pending : take_op (Pending.reading id) s.pending ≡ some rest
  pub pending : t.pending ≡ Pending.writing id (unsent link.takes text) ∷ Pending.reading id ∷ rest
  pub output : t.output ≡ (id, taken link.takes text) ∷ s.output
  pub sessions : t.sessions ≡ s.sessions
  pub processor_moved : t.handlers.processor ≡ processor
  pub handler : SessionHandler
  pub found : find id t.handlers.sessions ≡ some handler
  pub handler_view : view handler ≡ v
  pub others : (k : ℕ) → (id == k) ≡ false → find k t.handlers.sessions ≡ find k s.handlers.sessions

module _ {ℓ} {P : Type ℓ} (rp : IRequestProcessor P) (options : SessionHandlerOptions) where
  -- The server behind a call of `process` that goes on.
  abbrev behind : ℕ → Link → TcpServer (Live P) → Answer P → TcpServer (Live P)
  behind id link s a = record s {
    pending = Pending.writing id (unsent link.takes a.3) ∷ s.pending;
    output = (id, taken link.takes a.3) ∷ s.output;
    handlers = record { processor = a.0; sessions = replace id a.1 s.handlers.sessions };
  }

  answer_stored :
      (id : ℕ) (link : Link) (s : TcpServer (Live P)) (a : Answer P)
      → a.2 ≡ continues
      → answer_read (session_handlers rp options) id link s (store s.handlers id a)
        ≡ returns (behind id link s a)
  unfolding answer_read begin_write store
  answer_stored id link s (p, h, continues, text) e = refl
  answer_stored id link s (p, h, aborts, text) e = let wrong : aborts ≡ continues = e in cc

  fire_found :
      (id : ℕ) (link : Link) (xs : Str) (s : TcpServer (Live P)) {h : SessionHandler}
      {rest : List Pending}
      → take_op (Pending.reading id) s.pending ≡ some rest
      → has_session id s.sessions ≡ true
      → length xs ≤ s.in_buffer_size
      → find id s.handlers.sessions ≡ some h
      → fire (session_handlers rp options) (Completion.was_read id link (some xs)) s
        ≡ some (
            map_outcome (store s.handlers id) (process rp.process s.handlers.processor h xs)
            >>= answer_read
                (session_handlers rp options)
                id
                link
                (record s { pending = Pending.reading id ∷ rest }))
  unfolding session_handlers
  fire_found id link xs s {rest} under_way there short found =
      fire_read (session_handlers rp options) id link xs s under_way there short
      ∙ ap
          (λ o. some (
            o
            >>= answer_read (session_handlers rp options) id link
                (record s { pending = Pending.reading id ∷ rest })))
          (process_bytes-found rp options s.handlers id xs found)

  pub fire_answers :
      (id : ℕ) (link : Link) (xs : Str) (s : TcpServer (Live P)) {h : SessionHandler}
      {rest : List Pending} {p' : P} {v' : View} {text : Str}
      → take_op (Pending.reading id) s.pending ≡ some rest
      → has_session id s.sessions ≡ true
      → length xs ≤ s.in_buffer_size
      → find id s.handlers.sessions ≡ some h
      → map_outcome viewed (process rp.process s.handlers.processor h xs)
        ≡ returns (p', v', continues, text)
      → (t : TcpServer (Live P)) × (fire
            (session_handlers rp options)
            (Completion.was_read id link (some xs))
            s
          ≡ some (returns t))
        × Answered id link s t p' v' text
  fire_answers id link xs s {rest} under_way there short found e =
      let again : TcpServer (Live P) = record s { pending = Pending.reading id ∷ rest } in
      let (a, done, seen) = map_outcome-returns viewed _ e in
      (
        behind id link again a,
        fire_found id link xs s under_way there short found
            ∙ ap
                (λ o. some (
                  map_outcome (store s.handlers id) o
                  >>= answer_read (session_handlers rp options) id link again))
                done
            ∙ ap some (answer_stored id link again a (ap (λ r. r.2) seen)),
        record {
          rest = rest;
          was_pending = under_way;
          pending =
              ap (λ r. Pending.writing id (unsent link.takes r.3) ∷ Pending.reading id ∷ rest) seen;
          output = ap (λ r. (id, taken link.takes r.3) ∷ s.output) seen;
          sessions = refl;
          processor_moved = ap (λ r. r.0) seen;
          handler = a.1;
          found =
              find_stored rp options s.handlers id id a.1 found ∙ rw ((==_iff id id).1 refl) refl;
          handler_view = ap (λ r. r.1) seen;
          others = λ k other. find_stored rp options s.handlers id k a.1 found ∙ rw other refl;
        },
      )

  pub fire_terminates :
      (id : ℕ) (link : Link) (xs : Str) (s : TcpServer (Live P)) {h : SessionHandler}
      {rest : List Pending}
      → take_op (Pending.reading id) s.pending ≡ some rest
      → has_session id s.sessions ≡ true
      → length xs ≤ s.in_buffer_size
      → find id s.handlers.sessions ≡ some h
      → map_outcome viewed (process rp.process s.handlers.processor h xs) ≡ terminates
      → fire (session_handlers rp options) (Completion.was_read id link (some xs)) s
        ≡ some terminates
  fire_terminates id link xs s {rest} under_way there short found e =
      let again : TcpServer (Live P) = record s { pending = Pending.reading id ∷ rest } in
      fire_found id link xs s under_way there short found
      ∙ ap
          (λ o. some (
            map_outcome (store s.handlers id) o
            >>= answer_read (session_handlers rp options) id link again))
          (map_outcome-terminates viewed _ e)

-- A text has gone to the peer as a whole: the socket has taken it, and the completion of the write, which
-- has nothing left to take, changes nothing else.
pub record Sent {ℓ} {S : Type ℓ} (h : Handlers S) (id : ℕ) (s t : TcpServer S) (text : Str)
    : Type ℓ where
  pub output : t.output ≡ (id, text) ∷ s.output
  pub rest : List Pending
  pub pending : t.pending ≡ Pending.writing id [] ∷ rest
  pub done :
      (connected : Bool)
      → fire h (Completion.written id [] connected true) t
        ≡ some (returns (record t { pending = rest }))

module _ {ℓ} {S : Type ℓ} (h : Handlers S) where
  write_done :
      (id : ℕ) (rest : List Pending) (t : TcpServer S) (connected : Bool)
      → has_session id t.sessions ≡ true
      → t.pending ≡ Pending.writing id [] ∷ rest
      → fire h (Completion.written id [] connected true) t
        ≡ some (returns (record t { pending = rest }))
  unfolding fire run_handler through on_write take_op str_eq
  write_done id rest t connected there e = rw (e, fire, (==_iff id id).1 refl, take_op, there)

-- What the socket has taken at once is not left to the write.
pub Answered-Sent {ℓ} :
    {P : Type ℓ} (h : Handlers (Live P)) (id : ℕ) (link : Link) (s t : TcpServer (Live P))
    {processor : P} {v : View} {text : Str} (n : ℕ)
    → has_session id s.sessions ≡ true
    → link.takes ≡ some n
    → length text ≤ n
    → Answered id link s t processor v text
    → Sent h id s t text
Answered-Sent h id link s t {text = text} n there takes enough a =
    let whole : taken link.takes text ≡ text =
      ap (λ o. taken o text) takes ∙ take-all n text enough in
    let nothing : unsent link.takes text ≡ [] =
      ap (λ o. unsent o text) takes ∙ drop-length n text enough in
    let now : t.pending ≡ Pending.writing id [] ∷ Pending.reading id ∷ a.rest =
      a.pending ∙ ap (λ u. Pending.writing id u ∷ Pending.reading id ∷ a.rest) nothing in
    record {
      output = a.output ∙ ap (λ u. (id, u) ∷ s.output) whole;
      rest = Pending.reading id ∷ a.rest;
      pending = now;
      done =
          λ connected. write_done h id _ t connected (ap (has_session id) a.sessions ∙ there) now;
    }
