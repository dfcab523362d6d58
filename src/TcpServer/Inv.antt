-- ===== src/TcpServer/Inv.antt =====
-- What holds of the server in every state that it reaches.
use kexplorer_server.Prelude.{
  ◌∷◌, [], ℕ, ◌+◌, ◌^◌, ◌<◌, ◌≡◌, refl, ap, sym, subst, Bool, true, false, not, Option, none, some,
  if◌then◌else◌, arith, inl, inr, Bool-cases, Option-cases,
}
use kexplorer_server.Prelude.Outcome.{Outcome, returns, terminates, undefined, ◌>>=◌}
use kexplorer_server.Prelude.Text.{Str}
use kexplorer_server.Session.{CallbackResult, continues, aborts}
use kexplorer_server.TcpServer.Ops.{times-append, times_removed, times_same}
use kexplorer_server.TcpServer.{
  Pending, Completion, due, fits_buffer, TcpServer, has_session, take_op, Handlers, start_op, Link,
  accept, open_server, drop_session, admit, on_accept, on_retry, answer_read, on_read, on_write,
  through, run_handler, fire, Reach,
}
use kexplorer_server.TcpServer.Spec.{
  Inv, Between, Inv-Between, Keeps, retry-Inv, again-Inv, write-Inv, handlers-Inv, begin_write-Inv,
  listen-Inv,
}

module _ {ℓ} {S : Type ℓ} (h : Handlers S) where
  admit-Inv :
      (n : ℕ) (peer : Bool) (s : TcpServer S)
      → n + 1 < 2 ^ 32
      → Between n Pending.accepting s
      → Keeps (n + 1) (admit h peer (accept s))
  unfolding admit accept
  admit-Inv n false s small b = tt
  admit-Inv n true s small b = record {
    runs = b.runs;
    listens = omega (arith, b.listens);
    reads = λ id. ground (arith, b.reads id, times-append id s.next_id s.sessions);
    once = λ id. ground (arith, b.once id, b.fresh id);
    fresh = λ id below. ground (arith, b.fresh id, b.ids);
    ids = omega (arith, b.ids);
  }

  accept-Inv :
      (n : ℕ) (ok peer : Bool) (s : TcpServer S)
      → n + 1 < 2 ^ 32
      → Between n Pending.accepting s
      → Keeps (n + 1) (on_accept h ok peer s)
  unfolding on_accept
  accept-Inv n ok peer s small b =
      subst (Keeps (n + 1))
        (ap
          (λ stopped.
            if stopped
            then returns s
            else (if ok then admit h peer (accept s) else returns (start_op Pending.retrying s)))
          (sym b.runs))
        (goes_on ok)
    where
      goes_on :
          (o : Bool)
          → Keeps
              (n + 1)
              (if o then admit h peer (accept s) else returns (start_op Pending.retrying s))
      goes_on true = admit-Inv n peer s small b
      goes_on false = retry-Inv n s b

  drop-Inv :
      (n id : ℕ) (connected : Bool) (s : TcpServer S)
      → Inv n s
      → Keeps n (drop_session h id connected s)
  unfolding drop_session
  drop-Inv n id false s i = tt
  drop-Inv n id true s i = record {
    runs = i.runs;
    listens = i.listens;
    reads = λ k. omega (arith, i.reads k, times_removed id k s.sessions);
    once = i.once;
    fresh = i.fresh;
    ids = i.ids;
  }

  -- The handler of a read that failed.
  drop_reader-Inv :
      (n id : ℕ) (connected : Bool) (s : TcpServer S)
      → has_session id s.sessions ≡ true
      → Between n (Pending.reading id) s
      → Keeps (n + 1) (drop_session h id connected s)
  unfolding drop_session
  drop_reader-Inv n id false s there b = tt
  drop_reader-Inv n id true s there b = record {
    runs = b.runs;
    listens = omega (arith, b.listens);
    reads = λ k.
        ground (arith, b.reads k, times_removed id k s.sessions, times_same id s.sessions there);
    once = λ k. omega (arith, b.once k);
    fresh = λ k below. omega (arith, b.fresh k below);
    ids = omega (arith, b.ids);
  }

  answer_read-Inv :
      (n id : ℕ) (link : Link) (s : TcpServer S) (answer : Outcome (S × CallbackResult × Str))
      → Inv n s
      → Keeps n (answer >>= answer_read h id link s)
  unfolding answer_read
  answer_read-Inv n id link s terminates i = tt
  answer_read-Inv n id link s undefined i = tt
  answer_read-Inv n id link s (returns (handlers, aborts, text)) i =
      drop-Inv n id link.connected (record s { handlers = handlers }) (handlers-Inv n s handlers i)
  answer_read-Inv n id link s (returns (handlers, continues, text)) i =
      begin_write-Inv n id link.takes text (record s { handlers = handlers })
        (handlers-Inv n s handlers i)

  on_read-Inv :
      (n id : ℕ) (link : Link) (result : Option Str) (s : TcpServer S)
      → has_session id s.sessions ≡ true
      → Between n (Pending.reading id) s
      → Keeps (n + 1) (on_read h id link result s)
  unfolding on_read
  on_read-Inv n id link none s there b = drop_reader-Inv n id link.connected s there b
  on_read-Inv n id link (some xs) s there b =
      answer_read-Inv (n + 1) id link (start_op (Pending.reading id) s) _
        (again-Inv n (Pending.reading id) s b)

  on_write-Inv :
      (n id : ℕ) (text : Str) (connected ok : Bool) (s : TcpServer S)
      → Between n (Pending.writing id text) s
      → Keeps (n + 1) (on_write h id connected ok s)
  unfolding on_write
  on_write-Inv n id text connected true s b = write-Inv n id text s b
  on_write-Inv n id text connected false s b =
      drop-Inv (n + 1) id connected s (write-Inv n id text s b)

  through-Inv :
      (n id : ℕ) (f : TcpServer S → Outcome (TcpServer S)) (s : TcpServer S)
      → (has_session id s.sessions ≡ true → Keeps n (f s))
      → Keeps n (through h id f s)
  unfolding through
  through-Inv n id f s k = elim (Bool-cases (has_session id s.sessions)) [
    | inl there ↦ rw there (k there)
    | inr gone ↦ rw gone tt
  ]

  on_retry-Inv :
      (n : ℕ) (s : TcpServer S) → Between n Pending.retrying s → Inv (n + 1) (on_retry h true s)
  unfolding on_retry
  on_retry-Inv n s b =
      subst (Inv (n + 1)) (ap (λ stopped. if not stopped then accept s else s) (sym b.runs))
        (listen-Inv n s b)

  run_handler-Inv :
      (n : ℕ) (e : Completion) (s : TcpServer S)
      → n + 1 < 2 ^ 32
      → Between n (due e) s
      → Keeps (n + 1) (run_handler h e s)
  unfolding run_handler
  run_handler-Inv n (Completion.accepted ok peer) s small b = accept-Inv n ok peer s small b
  run_handler-Inv n Completion.retried s small b = on_retry-Inv n s b
  run_handler-Inv n (Completion.was_read id link result) s small b =
      through-Inv (n + 1) id (on_read h id link result) s
        (λ there. on_read-Inv n id link result s there b)
  run_handler-Inv n (Completion.written id (c ∷ text) connected ok) s small b = tt
  run_handler-Inv n (Completion.written id [] connected ok) s small b =
      through-Inv (n + 1) id (on_write h id connected ok) s
        (λ there. on_write-Inv n id [] connected ok s b)

  abbrev KeepsFired : ℕ → Option (Outcome (TcpServer S)) → Type 0
  KeepsFired n none = Unit {0}
  KeepsFired n (some o) = Keeps n o

  fire-Inv :
      (n : ℕ) (e : Completion) (s : TcpServer S)
      → n + 1 < 2 ^ 32
      → Inv n s
      → KeepsFired (n + 1) (fire h e s)
  unfolding fire
  fire-Inv n e s small i = elim (Option-cases (take_op (due e) s.pending)) [
    | inl nothing ↦ rw (nothing, fire) tt
    | inr (rest, taken) ↦ elim (Bool-cases (fits_buffer s.in_buffer_size e)) [
      | inl fits ↦
          rw (taken, fire, fits)
            (run_handler-Inv n e (record s { pending = rest }) small
              (Inv-Between n (due e) s i taken))
      | inr larger ↦ rw (taken, fire, larger) tt
    ]
  ]

  open-Inv : (size : ℕ) (handlers : S) → Inv 0 (open_server size handlers)
  unfolding open_server accept
  open-Inv size handlers = record {
    runs = refl;
    listens = refl;
    reads = λ id. omega arith;
    once = λ id. omega arith;
    fresh = λ id below. refl;
    ids = omega arith;
  }

  pub Reach-Inv :
      (size : ℕ) (handlers : S) (n : ℕ) (s : TcpServer S)
      → n < 2 ^ 32
      → Reach h size handlers n s
      → Inv n s
  Reach-Inv size handlers _ s small Reach.start = open-Inv size handlers
  Reach-Inv size handlers _ s small (Reach.later {n = m} {s = before} e r f) =
      subst (KeepsFired (m + 1)) f
        (fire-Inv m e before small (Reach-Inv size handlers m before (omega arith) r))
