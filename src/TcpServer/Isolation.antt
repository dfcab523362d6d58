-- ===== src/TcpServer/Isolation.antt =====
-- A session's handler does not notice what happens to the other sessions.
use kexplorer_server.Prelude.{
  ◌∷◌, [], ℕ, ◌≤◌, ◌≡◌, refl, subst, Bool, true, false, not, Option, none, some, if◌then◌else◌,
  ◌==◌, ==_iff, arith, inl, inr, Bool-cases, Option-cases,
}
use kexplorer_server.Prelude.Outcome.{Outcome, returns, terminates, undefined, ◌>>=◌}
use kexplorer_server.Prelude.Text.{Str}
use kexplorer_server.Session.{CallbackResult, continues, aborts}
use kexplorer_server.TcpServer.Ops.{times, has-positive, removed_other}
use kexplorer_server.TcpServer.{
  Pending, Completion, due, fits_buffer, TcpServer, has_session, take_op, Handlers, start_op,
  accept, drop_session, admit, on_accept, on_retry, Link, begin_write, answer_read, on_read,
  on_write, through, run_handler, fire,
}
use kexplorer_server.TcpServer.Spec.{Inv}

-- Bytes for the session.
abbrev pub brings : ℕ → Completion → Bool
brings k (Completion.was_read id link (some xs)) = id == k
brings k e = false

module _ {ℓ κ} {S : Type ℓ} (h : Handlers S) (k : ℕ) (F : S → Type κ) where
  -- What the handlers of other sessions keep.
  pub record Isolating : Type (ℓ ⊔ κ) where
    pub opens : (s : S) (id : ℕ) → (id == k) ≡ false → F s → F (h.opens s id)
    pub processes :
        (s : S) (id : ℕ) (xs : Str) {s' : S} {r : CallbackResult} {text : Str}
        → (id == k) ≡ false
        → h.processes s id xs ≡ returns (s', r, text)
        → F s
        → F s'
    pub ends : (s : S) (id : ℕ) → (id == k) ≡ false → F s → F (h.ends s id)

  abbrev KeptBy : Outcome (TcpServer S) → Type κ
  KeptBy (returns t) = has_session k t.sessions ≡ true → F t.handlers
  KeptBy terminates = Unit
  KeptBy undefined = Unit

  module _ (isolating : Isolating) where
    admit-KeptBy :
        (peer : Bool) (s : TcpServer S)
        → (s.next_id == k) ≡ false
        → F s.handlers
        → KeptBy (admit h peer s)
    unfolding admit
    admit-KeptBy false s new f = tt
    admit-KeptBy true s new f = λ there. isolating.opens s.handlers s.next_id new f

    drop-KeptBy :
        (id : ℕ) (connected : Bool) (s : TcpServer S)
        → times id s.sessions ≤ 1
        → F s.handlers
        → KeptBy (drop_session h id connected s)
    unfolding drop_session
    drop-KeptBy id false s once f = tt
    drop-KeptBy id true s once f =
        λ there. isolating.ends s.handlers id (removed_other k id s.sessions once there) f

    answer_read-KeptBy :
        (id : ℕ) (link : Link) (xs : Str) (s : TcpServer S)
        {answer : Outcome (S × CallbackResult × Str)}
        → h.processes s.handlers id xs ≡ answer
        → (id == k) ≡ false
        → times id s.sessions ≤ 1
        → F s.handlers
        → KeptBy (answer >>= answer_read h id link s)
    unfolding answer_read begin_write
    answer_read-KeptBy id link xs s {answer = terminates} e other once f = tt
    answer_read-KeptBy id link xs s {answer = undefined} e other once f = tt
    answer_read-KeptBy id link xs s {answer = returns (after, aborts, text)} e other once f =
        drop-KeptBy id link.connected (record s { handlers = after }) once
          (isolating.processes s.handlers id xs other e f)
    answer_read-KeptBy id link xs s {answer = returns (after, continues, text)} e other once f =
        λ there. isolating.processes s.handlers id xs other e f

    through-KeptBy :
        (id : ℕ) (f : TcpServer S → Outcome (TcpServer S)) (s : TcpServer S)
        → KeptBy (f s)
        → KeptBy (through h id f s)
    unfolding through
    through-KeptBy id f s kept = elim (Bool-cases (has_session id s.sessions)) [
      | inl there ↦ rw there kept
      | inr gone ↦ rw gone tt
    ]

    on_accept-KeptBy :
        (stops ok peer : Bool) (s : TcpServer S)
        → (s.next_id == k) ≡ false
        → F s.handlers
        → KeptBy (
            if stops
            then returns s
            else (if ok then admit h peer (accept s) else returns (start_op Pending.retrying s)))
    unfolding accept
    on_accept-KeptBy true ok peer s new f = λ there. f
    on_accept-KeptBy false true peer s new f =
        admit-KeptBy peer (start_op Pending.accepting s) new f
    on_accept-KeptBy false false peer s new f = λ there. f

    accept_if-KeptBy :
        (b : Bool) (s : TcpServer S) → F s.handlers → F (if b then accept s else s).handlers
    unfolding accept
    accept_if-KeptBy true s f = f
    accept_if-KeptBy false s f = f

    run_handler-KeptBy :
        (e : Completion) (s : TcpServer S)
        → ((id : ℕ) → times id s.sessions ≤ 1)
        → (s.next_id == k) ≡ false
        → brings k e ≡ false
        → F s.handlers
        → KeptBy (run_handler h e s)
    unfolding run_handler on_accept on_retry on_read on_write
    run_handler-KeptBy (Completion.accepted ok peer) s once new other f =
        on_accept-KeptBy s.stop ok peer s new f
    run_handler-KeptBy Completion.retried s once new other f =
        λ there. accept_if-KeptBy (not s.stop) s f
    run_handler-KeptBy (Completion.was_read id link none) s once new other f =
        through-KeptBy id (on_read h id link none) s (drop-KeptBy id link.connected s (once id) f)
    run_handler-KeptBy (Completion.was_read id link (some xs)) s once new other f =
        through-KeptBy id (on_read h id link (some xs)) s
          (answer_read-KeptBy id link xs (start_op (Pending.reading id) s) refl other (once id) f)
    run_handler-KeptBy (Completion.written id [] connected true) s once new other f =
        through-KeptBy id (on_write h id connected true) s (λ there. f)
    run_handler-KeptBy (Completion.written id [] connected false) s once new other f =
        through-KeptBy id (on_write h id connected false) s (drop-KeptBy id connected s (once id) f)
    run_handler-KeptBy (Completion.written id (c ∷ text) connected ok) s once new other f = tt

    abbrev KeptFired : Option (Outcome (TcpServer S)) → Type κ
    KeptFired none = Unit
    KeptFired (some o) = KeptBy o

    fire-KeptFired :
        (n : ℕ) (e : Completion) (s : TcpServer S)
        → Inv n s
        → has_session k s.sessions ≡ true
        → brings k e ≡ false
        → F s.handlers
        → KeptFired (fire h e s)
    unfolding fire
    fire-KeptFired n e s v there other f = elim (Option-cases (take_op (due e) s.pending)) [
      | inl nothing ↦ rw (nothing, fire) tt
      | inr (rest, taken) ↦ elim (Bool-cases (fits_buffer s.in_buffer_size e)) [
        | inl fits ↦
            rw (taken, fire, fits)
              (run_handler-KeptBy e (record s { pending = rest })
                (λ id. omega (arith, v.reads id, v.once id)) (is_new n s v there) other f)
        | inr larger ↦ rw (taken, fire, larger) tt
      ]
    ]
      where
        is_new :
            (m : ℕ) (u : TcpServer S)
            → Inv m u
            → has_session k u.sessions ≡ true
            → (u.next_id == k) ≡ false
        is_new m u w held = elim (Bool-cases (u.next_id == k)) [
          | inr new ↦ new
          | inl same ↦
              let e : u.next_id ≡ k = (==_iff u.next_id k).0 same in
              absurd
                (omega (arith, has-positive k u.sessions held, w.reads k, w.fresh k (omega arith)))
        ]

    -- A completion that brings no bytes for a session that is there before and after leaves what
    -- depends on that session alone.
    pub fire_keeps :
        (n : ℕ) (e : Completion) (s t : TcpServer S)
        → Inv n s
        → has_session k s.sessions ≡ true
        → has_session k t.sessions ≡ true
        → brings k e ≡ false
        → fire h e s ≡ some (returns t)
        → F s.handlers
        → F t.handlers
    fire_keeps n e s t v before after other fired f =
        subst KeptFired fired (fire-KeptFired n e s v before other f) after
