-- ===== src/Server/Pieces.antt =====
-- A request that comes in pieces, between which the server does other things.
use kexplorer_server.Prelude.{
  ℕ, ◌+◌, ◌^◌, ◌≤◌, ◌<◌, ◌≡◌, refl, sym, ◌∙◌, ap, true, false, some, [], ◌++◌, max, leb, length,
  arith, append_assoc, append-nil, length-append,
}
use kexplorer_server.Prelude.Map.{nat_eq, find, find-erase}
use kexplorer_server.Prelude.Outcome.{returns}
use kexplorer_server.Prelude.Text.{Str}
use kexplorer_server.Session.{SessionHandler, Depths, scan}
use kexplorer_server.Session.Scan.{scan-append, scan-nil}
use kexplorer_server.Session.Spec.{View, view, fresh, react}
use kexplorer_server.Session.Chunks.{is_complete, react-quiet}
use kexplorer_server.TcpServer.{Link, Completion, TcpServer, has_session, fire, Reach}
use kexplorer_server.TcpServer.Inv.{Reach-Inv}
use kexplorer_server.TcpServer.Handling.{fire_fits}
use kexplorer_server.TcpServer.Isolation.{brings, Isolating, fire_keeps}
use kexplorer_server.Server.{
  IRequestProcessor, SessionHandlerOptions, Live, open_handler, destroy_handler, session_handlers,
}
use kexplorer_server.Server.Sessions.{process_bytes-others, Reach-Ready}
use kexplorer_server.Server.Held.{replies}

-- A session that has received a text and no whole request.
abbrev seen : Str → View
seen q = record { text = q; depth = (scan q 0 0).depth; depth_max = (scan q 0 0).depth_max }

-- No request ends within the text, and none is refused.
abbrev pub IsPartial : Str → Type 0
IsPartial q =
    (p r : Str) → q ≡ p ++ r → ((scan p 0 0).valid ≡ true) × (is_complete (scan p 0 0) ≡ false)

seen-nil : seen [] ≡ fresh
seen-nil = ap (λ r. record { text = []; depth = r.depth; depth_max = r.depth_max }) (scan-nil 0 0)

IsPartial-whole :
    (q : Str) → IsPartial q → ((scan q 0 0).valid ≡ true) × (is_complete (scan q 0 0) ≡ false)
IsPartial-whole q part = part q [] (sym (append-nil q))

IsPartial-append : (q xs : Str) → IsPartial (q ++ xs) → IsPartial q
IsPartial-append q xs part = λ p r e. part p (r ++ xs) (ap (λ t. t ++ xs) e ∙ append_assoc p r xs)

-- The loop over a text goes on where it stopped.
pub scan_on :
    (q xs : Str)
    → IsPartial q
    → scan (q ++ xs) 0 0 ≡ scan xs (scan q 0 0).depth (scan q 0 0).depth_max
scan_on q xs part = scan-append q xs 0 0 ∙ rw ((IsPartial-whole q part).0) refl

module _ {ℓ} {P : Type ℓ} (rp : IRequestProcessor P) (options : SessionHandlerOptions) where
  -- `Stream id n s q`: the server has come to `s` with `n` completions, and since some moment when the
  -- session `id` was there and held nothing, it has stayed and received the text `q`.
  pub data Stream (size : ℕ) (live : Live P) (id : ℕ) : ℕ → TcpServer (Live P) → Str → Type ℓ where
    begun :
        {n : ℕ} {s : TcpServer (Live P)} {h : SessionHandler}
        → Reach (session_handlers rp options) size live n s
        → has_session id s.sessions ≡ true
        → find id s.handlers.sessions ≡ some h
        → view h ≡ fresh
        → Stream size live id n s []
    received :
        {n : ℕ} {s t : TcpServer (Live P)} {q : Str} (link : Link) (xs : Str)
        → Stream size live id n s q
        → fire (session_handlers rp options) (Completion.was_read id link (some xs)) s
          ≡ some (returns t)
        → has_session id t.sessions ≡ true
        → Stream size live id (n + 1) t (q ++ xs)
    otherwise :
        {n : ℕ} {s t : TcpServer (Live P)} {q : Str} (e : Completion)
        → Stream size live id n s q
        → brings id e ≡ false
        → fire (session_handlers rp options) e s ≡ some (returns t)
        → has_session id t.sessions ≡ true
        → Stream size live id (n + 1) t q

  pub Stream-Reach :
      {size : ℕ} {live : Live P} {id n : ℕ} {s : TcpServer (Live P)} {q : Str}
      → Stream size live id n s q
      → Reach (session_handlers rp options) size live n s × (has_session id s.sessions ≡ true)
  Stream-Reach (Stream.begun r there found e) = (r, there)
  Stream-Reach (Stream.received link xs before fired there) =
      (Reach.later _ (Stream-Reach before).0 fired, there)
  Stream-Reach (Stream.otherwise e before other fired there) =
      (Reach.later e (Stream-Reach before).0 fired, there)

  abbrev pub Sees : ℕ → View → Live P → Type 0
  Sees id v s = (h : SessionHandler) × (find id s.sessions ≡ some h) × (view h ≡ v)

  Sees-Isolating : (k : ℕ) (v : View) → Isolating (session_handlers rp options) k (Sees k v)
  unfolding session_handlers open_handler destroy_handler find
  Sees-Isolating k v = record {
    opens = λ s id other (h, found, e). (h, rw other found, e);
    processes = λ s id xs other done (h, found, e).
        (h, process_bytes-others rp options s id k xs other done ∙ found, e);
    ends = λ s id other (h, found, e). (h, find-erase id k s.sessions ∙ rw other found, e);
  }

  module _ (small : options.buffer_size < 2 ^ 62) (limited : options.buffer_limit < 2 ^ 62) where
    -- A piece is kept.
    receives :
        (size : ℕ) (live : Live P) (n id : ℕ) (link : Link) (q xs : Str) (s t : TcpServer (Live P))
        → size < 2 ^ 62
        → n < 2 ^ 32
        → Reach (session_handlers rp options) size live n s
        → has_session id s.sessions ≡ true
        → length xs ≤ size
        → IsPartial (q ++ xs)
        → length (q ++ xs) ≤ max options.buffer_size options.buffer_limit
        → fire (session_handlers rp options) (Completion.was_read id link (some xs)) s
          ≡ some (returns t)
        → Sees id (seen q) s.handlers
        → Sees id (seen (q ++ xs)) t.handlers
    receives size live n id link q xs s t below few r there short part fits fired (h, found, e) =
        let whole = IsPartial-whole (q ++ xs) part in
        let onward = scan_on q xs (IsPartial-append q xs part) in
        let quiet =
          react-quiet rp.process (max options.buffer_size options.buffer_limit) id
            s.handlers.processor (seen q) xs (omega (arith, length-append q xs))
            (sym (ap (λ d. d.valid) onward) ∙ whole.0) (sym (ap is_complete onward) ∙ whole.1) in
        let (t', fired', a) =
          replies rp options small limited size live n id link xs s below few r there short found (
            ap
              (λ v.
                react rp.process (max options.buffer_size options.buffer_limit) id
                  s.handlers.processor v xs)
              e
            ∙ quiet) in
        let same : t' ≡ t =
          (let both : some (returns t') ≡ some (returns t) = sym fired' ∙ fired in cc) in
        (
          a.handler,
          sym (ap (λ u. find id u.handlers.sessions) same) ∙ a.found,
          a.handler_view
              ∙ ap
                  (λ (d : Depths). record {
                    text = q ++ xs;
                    depth = d.depth;
                    depth_max = d.depth_max;
                  })
                  (sym onward),
        )

    fired_fits :
        (size : ℕ) (live : Live P) (n id : ℕ) (link : Link) (xs : Str) (s : TcpServer (Live P))
        {t : TcpServer (Live P)}
        → size < 2 ^ 62
        → n < 2 ^ 32
        → Reach (session_handlers rp options) size live n s
        → fire (session_handlers rp options) (Completion.was_read id link (some xs)) s
          ≡ some (returns t)
        → length xs ≤ size
    fired_fits size live n id link xs s below few r fired =
        let held = Reach-Ready rp options small limited size live n s below few r in
        let fits : leb (length xs) s.in_buffer_size ≡ true =
          fire_fits (session_handlers rp options) (Completion.was_read id link (some xs)) s fired in
        ground (arith, fits, held.sized)

    -- What the session holds.
    pub gathers :
        (size : ℕ) (live : Live P) (id n : ℕ) (s : TcpServer (Live P)) (q : Str)
        → size < 2 ^ 62
        → n < 2 ^ 32
        → Stream size live id n s q
        → IsPartial q
        → length q ≤ max options.buffer_size options.buffer_limit
        → Sees id (seen q) s.handlers
    gathers size live id _ s _ below few (Stream.begun {h = h} r there found e) part fits =
        (h, found, e ∙ sym seen-nil)
    gathers size live id _ t _ below few
          (Stream.received {n = n} {s = s} {q = q} link xs before fired there) part fits =
        let (r, was) = Stream-Reach before in
        receives size live n id link q xs s t below (omega arith) r was
          (fired_fits size live n id link xs s below (omega arith) r fired) part fits fired
          (gathers size live id n s q below (omega arith) before (IsPartial-append q xs part)
            (omega (arith, length-append q xs)))
    gathers size live id _ t q below few
          (Stream.otherwise {n = n} {s = s} e before other fired there) part fits =
        let (r, was) = Stream-Reach before in
        fire_keeps (session_handlers rp options) id (Sees id (seen q)) (Sees-Isolating id (seen q))
          n e s t (Reach-Inv (session_handlers rp options) size live n s (omega arith) r) was there
          other fired (gathers size live id n s q below (omega arith) before part fits)
