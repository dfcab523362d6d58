-- ===== src/Server/Held.antt =====
-- What a completed read does to a session that the server holds.
use kexplorer_server.Prelude.{
  ℕ, ◌+◌, ◌^◌, ◌≤◌, ◌<◌, ◌≡◌, sym, ◌∙◌, ap, true, some, ◌∷◌, ◌++◌, max, subst, length, arith,
}
use kexplorer_server.Prelude.Map.{nat_eq, find}
use kexplorer_server.Prelude.Outcome.{returns, map_outcome}
use kexplorer_server.Prelude.Text.{Str, NoNul, terminated}
use kexplorer_server.Buffer.Inv.{contents}
use kexplorer_server.Buffer.Push.{bound}
use kexplorer_server.Session.{SessionHandler, continues, scan, process}
use kexplorer_server.Session.Spec.{IsOpen, View, view, viewed, fresh, react}
use kexplorer_server.Session.Refine.{process-Implements}
use kexplorer_server.Session.Chunks.{is_complete, process_request}
use kexplorer_server.TcpServer.{Link, Completion, TcpServer, has_session, fire, Reach}
use kexplorer_server.TcpServer.Lifetime.{read_pending}
use kexplorer_server.Server.{IRequestProcessor, SessionHandlerOptions, Live, session_handlers}
use kexplorer_server.Server.Sessions.{Reach-Ready}
use kexplorer_server.Server.Reads.{Answered, fire_answers}

module _ {ℓ} {P : Type ℓ} (rp : IRequestProcessor P) (options : SessionHandlerOptions) where
  module _ (small : options.buffer_size < 2 ^ 62) (limited : options.buffer_limit < 2 ^ 62) where
    handler-Ready :
        (size : ℕ) (live : Live P) (n id : ℕ) (s : TcpServer (Live P)) {h : SessionHandler}
        → size < 2 ^ 62
        → n < 2 ^ 32
        → Reach (session_handlers rp options) size live n s
        → has_session id s.sessions ≡ true
        → find id s.handlers.sessions ≡ some h
        → IsOpen h
          × (bound h.buffer ≡ max options.buffer_size options.buffer_limit)
          × (h.id ≡ id)
          × (s.in_buffer_size ≡ size)
    handler-Ready size live n id s {h} below few r there found =
        let held = Reach-Ready rp options small limited size live n s below few r in
        let ready = held.held id there in
        let e : ready.handler ≡ h =
          let both : some ready.handler ≡ some h = sym ready.found ∙ found in cc in
        (
          subst IsOpen e ready.is_open,
          sym (ap (λ k. bound k.buffer) e) ∙ ready.bounded,
          sym (ap (λ k. k.id) e) ∙ ready.same,
          held.sized,
        )

    pub replies :
        (size : ℕ) (live : Live P) (n id : ℕ) (link : Link) (xs : Str) (s : TcpServer (Live P))
        {h : SessionHandler} {p' : P} {v' : View} {text : Str}
        → size < 2 ^ 62
        → n < 2 ^ 32
        → Reach (session_handlers rp options) size live n s
        → has_session id s.sessions ≡ true
        → length xs ≤ size
        → find id s.handlers.sessions ≡ some h
        → react rp.process
            (max options.buffer_size options.buffer_limit)
            id
            s.handlers.processor
            (view h)
            xs
          ≡ returns (p', v', continues, text)
        → (t : TcpServer (Live P)) × (fire
              (session_handlers rp options)
              (Completion.was_read id link (some xs))
              s
            ≡ some (returns t))
          × Answered id link s t p' v' text
    replies size live n id link xs s {h} below few r there short found e =
        let (opened, bounded, same, sized) =
          handler-Ready size live n id s below few r there found in
        let (rest, taken) =
          read_pending (session_handlers rp options) size live n id s few r there in
        fire_answers rp options id link xs s taken there (omega arith) found (
          (process-Implements rp.process s.handlers.processor xs opened (omega arith)).0
          ∙ (λ i. react rp.process (bounded i) (same i) s.handlers.processor (view h) xs)
          ∙ e)

    -- What the bytes that complete a request make of a session.
    pub request_processed :
        (size : ℕ) (live : Live P) (n id : ℕ) (x : ℕ) (xs : Str) (s : TcpServer (Live P))
        {h : SessionHandler}
        → size < 2 ^ 62
        → n < 2 ^ 32
        → Reach (session_handlers rp options) size live n s
        → has_session id s.sessions ≡ true
        → length (x ∷ xs) ≤ size
        → find id s.handlers.sessions ≡ some h
        → length (contents h.buffer) + length (x ∷ xs)
          < max options.buffer_size options.buffer_limit
        → NoNul (contents h.buffer ++ (x ∷ xs))
        → (scan (x ∷ xs) h.json_depth h.json_depth_max).valid ≡ true
        → is_complete (scan (x ∷ xs) h.json_depth h.json_depth_max) ≡ true
        → let text = contents h.buffer ++ (x ∷ xs) in
          map_outcome viewed (process rp.process s.handlers.processor h (x ∷ xs))
          ≡ map_outcome
              (λ r. (r.0, fresh, continues, r.1))
              (rp.process s.handlers.processor id (terminated text) (length text))
    request_processed size live n id x xs s {h} below few r there short found fits clean ok full =
        let (opened, bounded, same, sized) =
          handler-Ready size live n id s below few r there found in
        let text : Str = contents h.buffer ++ (x ∷ xs) in
        process_request rp.process s.handlers.processor x xs opened (omega arith) (omega arith)
          clean ok full
        ∙ ap
            (λ i.
              map_outcome (λ r. (r.0, fresh, continues, r.1))
                (rp.process s.handlers.processor i (terminated text) (length text)))
            same

    pub reached_fits :
        (size : ℕ) (live : Live P) (n : ℕ) (s : TcpServer (Live P))
        → size < 2 ^ 62
        → n < 2 ^ 32
        → Reach (session_handlers rp options) size live n s
        → s.in_buffer_size ≡ size
    reached_fits size live n s below few r =
        (Reach-Ready rp options small limited size live n s below few r).sized
