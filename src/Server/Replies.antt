-- ===== src/Server/Replies.antt =====
-- What the last piece of a request brings about.
use kexplorer_server.Prelude.{
  ℕ, ◌^◌, ◌≤◌, ◌<◌, ◌≡◌, sym, ◌∙◌, ap, subst, true, some, ◌∷◌, ◌++◌, max, length, arith,
  length-append,
}
use kexplorer_server.Prelude.Map.{nat_eq, find}
use kexplorer_server.Prelude.Outcome.{returns, terminates, map_outcome}
use kexplorer_server.Prelude.Text.{Str, NoNul, terminated}
use kexplorer_server.Buffer.Inv.{contents}
use kexplorer_server.Session.{SessionHandler, continues, scan, process}
use kexplorer_server.Session.Spec.{viewed, fresh}
use kexplorer_server.Session.Chunks.{is_complete}
use kexplorer_server.TcpServer.{Link, Completion, TcpServer, fire}
use kexplorer_server.TcpServer.Lifetime.{read_pending}
use kexplorer_server.Server.{IRequestProcessor, SessionHandlerOptions, Live, session_handlers}
use kexplorer_server.Server.Pieces.{IsPartial, scan_on, Stream, Stream-Reach, gathers}
use kexplorer_server.Server.Reads.{Answered, fire_answers, fire_terminates}
use kexplorer_server.Server.Held.{request_processed, reached_fits}

module _ {ℓ} {P : Type ℓ} (rp : IRequestProcessor P) (options : SessionHandlerOptions) where
  module _ (small : options.buffer_size < 2 ^ 62) (limited : options.buffer_limit < 2 ^ 62) where
    -- The last piece of a request.
    pub record LastPiece (size : ℕ) (q xs : Str) : Type 0 where
      pub partial : IsPartial q
      pub short : length xs ≤ size
      pub fits : length (q ++ xs) < max options.buffer_size options.buffer_limit
      pub clean : NoNul (q ++ xs)
      pub valid : (scan (q ++ xs) 0 0).valid ≡ true
      pub complete : is_complete (scan (q ++ xs) 0 0) ≡ true

    pub last_processed :
        (size : ℕ) (live : Live P) (n id : ℕ) (q : Str) (x : ℕ) (xs : Str) (s : TcpServer (Live P))
        → size < 2 ^ 62
        → n < 2 ^ 32
        → Stream rp options size live id n s q
        → LastPiece size q (x ∷ xs)
        → let text = q ++ (x ∷ xs) in
          (h : SessionHandler) × (find id s.handlers.sessions ≡ some h)
          × (map_outcome viewed (process rp.process s.handlers.processor h (x ∷ xs))
              ≡ map_outcome
                  (λ r. (r.0, fresh, continues, r.1))
                  (rp.process s.handlers.processor id (terminated text) (length text)))
    last_processed size live n id q x xs s below few stream l =
        let (r, there) = Stream-Reach rp options stream in
        let (h, found, e) =
          gathers rp options small limited size live id n s q below few stream l.partial
            (omega (arith, length-append q (x ∷ xs), l.fits)) in
        let onward : scan (q ++ (x ∷ xs)) 0 0 ≡ scan (x ∷ xs) h.json_depth h.json_depth_max =
          scan_on q (x ∷ xs) l.partial ∙ (λ i. scan (x ∷ xs) (sym e i).depth (sym e i).depth_max) in
        let texts : contents h.buffer ++ (x ∷ xs) ≡ q ++ (x ∷ xs) =
          ap (λ v. v.text ++ (x ∷ xs)) e in
        (
          h,
          found,
          request_processed rp options small limited size live n id x xs s below few r there l.short
                found (omega (arith, l.fits, length-append q (x ∷ xs), ap (λ v. length v.text) e))
                (subst NoNul (sym texts) l.clean) (sym (ap (λ d. d.valid) onward) ∙ l.valid)
                (sym (ap is_complete onward) ∙ l.complete)
              ∙ ap
                  (λ t.
                    map_outcome (λ r. (r.0, fresh, continues, r.1))
                      (rp.process s.handlers.processor id (terminated t) (length t)))
                  texts,
        )

    pub answers_pieces :
        (size : ℕ) (live : Live P) (n id : ℕ) (link : Link) (q : Str) (x : ℕ) (xs : Str)
        (s : TcpServer (Live P)) {p' : P} {response : Str}
        → size < 2 ^ 62
        → n < 2 ^ 32
        → Stream rp options size live id n s q
        → LastPiece size q (x ∷ xs)
        → let text = q ++ (x ∷ xs) in
          rp.process s.handlers.processor id (terminated text) (length text)
            ≡ returns (p', response)
          → (t : TcpServer (Live P)) × (fire
                (session_handlers rp options)
                (Completion.was_read id link (some (x ∷ xs)))
                s
              ≡ some (returns t))
            × Answered id link s t p' fresh response
    answers_pieces size live n id link q x xs s below few stream l done =
        let (r, there) = Stream-Reach rp options stream in
        let (rest, taken) =
          read_pending (session_handlers rp options) size live n id s few r there in
        let (h, found, e) = last_processed size live n id q x xs s below few stream l in
        let sized = reached_fits rp options small limited size live n s below few r in
        fire_answers rp options id link (x ∷ xs) s taken there (omega (arith, l.short)) found
          (e ∙ ap (map_outcome (λ r. (r.0, fresh, continues, r.1))) done)

    pub terminates_pieces :
        (size : ℕ) (live : Live P) (n id : ℕ) (link : Link) (q : Str) (x : ℕ) (xs : Str)
        (s : TcpServer (Live P))
        → size < 2 ^ 62
        → n < 2 ^ 32
        → Stream rp options size live id n s q
        → LastPiece size q (x ∷ xs)
        → let text = q ++ (x ∷ xs) in
          rp.process s.handlers.processor id (terminated text) (length text) ≡ terminates
          → fire (session_handlers rp options) (Completion.was_read id link (some (x ∷ xs))) s
            ≡ some terminates
    terminates_pieces size live n id link q x xs s below few stream l done =
        let (r, there) = Stream-Reach rp options stream in
        let (rest, taken) =
          read_pending (session_handlers rp options) size live n id s few r there in
        let (h, found, e) = last_processed size live n id q x xs s below few stream l in
        let sized = reached_fits rp options small limited size live n s below few r in
        fire_terminates rp options id link (x ∷ xs) s taken there (omega (arith, l.short)) found
          (e ∙ ap (map_outcome (λ r. (r.0, fresh, continues, r.1))) done)
