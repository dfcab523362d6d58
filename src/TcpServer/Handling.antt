-- ===== src/TcpServer/Handling.antt =====
-- What the handlers of the sessions keep true for each session, the server keeps true for each that it
-- holds.
use kexplorer_server.Prelude.{
  ℕ, ◌^◌, ◌≤◌, ◌<◌, ◌≡◌, refl, sym, ◌∙◌, subst, Bool, true, false, not, Option, none, some, List,
  [], ◌∷◌, ◌++◌, if◌then◌else◌, length, arith, inl, inr, Bool-cases, Option-cases,
}
use kexplorer_server.Prelude.Map.{some-ne-none}
use kexplorer_server.Prelude.Outcome.{Outcome, returns, terminates, undefined, ◌>>=◌}
use kexplorer_server.Prelude.Text.{Str}
use kexplorer_server.Session.{CallbackResult, continues, aborts}
use kexplorer_server.TcpServer.Ops.{times}
use kexplorer_server.TcpServer.{
  Pending, Completion, due, fits_buffer, TcpServer, has_session, remove_session, take_op, Handlers,
  start_op, accept, open_server, drop_session, admit, on_accept, on_retry, Link, begin_write,
  answer_read, on_read, on_write, through, run_handler, fire, Reach,
}
use kexplorer_server.TcpServer.Spec.{Inv}
use kexplorer_server.TcpServer.Inv.{Reach-Inv}

module _ {ℓ} {S : Type ℓ} (h : Handlers S) where
  fire_larger :
      (e : Completion) (s : TcpServer S)
      → fits_buffer s.in_buffer_size e ≡ false
      → fire h e s ≡ none
  unfolding fire
  fire_larger e s larger = elim (Option-cases (take_op (due e) s.pending)) [
    | inl nothing ↦ rw (nothing, fire) refl
    | inr (rest, taken) ↦ rw (taken, fire, larger) refl
  ]

  -- What completes fits the buffer that it was to go to.
  pub fire_fits :
      (e : Completion) (s : TcpServer S) {o : Outcome (TcpServer S)}
      → fire h e s ≡ some o
      → fits_buffer s.in_buffer_size e ≡ true
  fire_fits e s fired = elim (Bool-cases (fits_buffer s.in_buffer_size e)) [
    | inl fits ↦ fits
    | inr larger ↦ absurd (some-ne-none (sym fired ∙ fire_larger e s larger))
  ]

module _ {ℓ κ} {S : Type ℓ} (h : Handlers S) (size : ℕ) (J : S → List ℕ → Type κ) where
  -- The handlers keep `J` of themselves and of the sessions.
  pub record Keeping : Type (ℓ ⊔ κ) where
    pub opens :
        (s : S) (ids : List ℕ) (id : ℕ)
        → times id ids ≡ 0
        → J s ids
        → J (h.opens s id) (ids ++ (id ∷ []))
    pub processes :
        (s : S) (ids : List ℕ) (id : ℕ) (xs : Str) {s' : S} {r : CallbackResult} {text : Str}
        → has_session id ids ≡ true
        → length xs ≤ size
        → h.processes s id xs ≡ returns (s', r, text)
        → J s ids
        → J s' ids
    pub ends :
        (s : S) (ids : List ℕ) (id : ℕ)
        → times id ids ≤ 1
        → J s ids
        → J (h.ends s id) (remove_session id ids)

  pub record Holds (s : TcpServer S) : Type κ where
    pub sized : s.in_buffer_size ≡ size
    pub held : J s.handlers s.sessions

  abbrev HoldsAfter : Outcome (TcpServer S) → Type κ
  HoldsAfter (returns t) = Holds t
  HoldsAfter terminates = Unit
  HoldsAfter undefined = Unit

  module _ (keeping : Keeping) where
    admit-Holds :
        (peer : Bool) (s : TcpServer S)
        → times s.next_id s.sessions ≡ 0
        → Holds s
        → HoldsAfter (admit h peer s)
    unfolding admit
    admit-Holds false s new i = tt
    admit-Holds true s new i = record {
      sized = i.sized;
      held = keeping.opens s.handlers s.sessions s.next_id new i.held;
    }

    drop-Holds :
        (id : ℕ) (connected : Bool) (s : TcpServer S)
        → times id s.sessions ≤ 1
        → Holds s
        → HoldsAfter (drop_session h id connected s)
    unfolding drop_session
    drop-Holds id false s once i = tt
    drop-Holds id true s once i = record {
      sized = i.sized;
      held = keeping.ends s.handlers s.sessions id once i.held;
    }

    answer_read-Holds :
        (id : ℕ) (link : Link) (xs : Str) (s : TcpServer S)
        {answer : Outcome (S × CallbackResult × Str)}
        → h.processes s.handlers id xs ≡ answer
        → length xs ≤ size
        → has_session id s.sessions ≡ true
        → times id s.sessions ≤ 1
        → Holds s
        → HoldsAfter (answer >>= answer_read h id link s)
    unfolding answer_read begin_write
    answer_read-Holds id link xs s {answer = terminates} e short there once i = tt
    answer_read-Holds id link xs s {answer = undefined} e short there once i = tt
    answer_read-Holds id link xs s {answer = returns (after, aborts, text)} e short there once i =
        drop-Holds id link.connected (record s { handlers = after }) once
          (record {
            sized = i.sized;
            held = keeping.processes s.handlers s.sessions id xs there short e i.held;
          })
    answer_read-Holds id link xs s {answer = returns (after, continues, text)} e short there once
          i =
        record {
          sized = i.sized;
          held = keeping.processes s.handlers s.sessions id xs there short e i.held;
        }

    through-Holds :
        (id : ℕ) (f : TcpServer S → Outcome (TcpServer S)) (s : TcpServer S)
        → (has_session id s.sessions ≡ true → HoldsAfter (f s))
        → HoldsAfter (through h id f s)
    unfolding through
    through-Holds id f s k = elim (Bool-cases (has_session id s.sessions)) [
      | inl there ↦ rw there (k there)
      | inr gone ↦ rw gone tt
    ]

    accept_if-Holds : (b : Bool) (s : TcpServer S) → Holds s → Holds (if b then accept s else s)
    unfolding accept
    accept_if-Holds true s i = record { sized = i.sized; held = i.held }
    accept_if-Holds false s i = i

    on_accept-Holds :
        (stops ok peer : Bool) (s : TcpServer S)
        → times s.next_id s.sessions ≡ 0
        → Holds s
        → HoldsAfter (
            if stops
            then returns s
            else (if ok then admit h peer (accept s) else returns (start_op Pending.retrying s)))
    unfolding accept
    on_accept-Holds true ok peer s new i = i
    on_accept-Holds false true peer s new i =
        admit-Holds peer (start_op Pending.accepting s) new
          (record { sized = i.sized; held = i.held })
    on_accept-Holds false false peer s new i = record { sized = i.sized; held = i.held }

    run_handler-Holds :
        (e : Completion) (s : TcpServer S)
        → ((id : ℕ) → times id s.sessions ≤ 1)
        → times s.next_id s.sessions ≡ 0
        → fits_buffer s.in_buffer_size e ≡ true
        → Holds s
        → HoldsAfter (run_handler h e s)
    unfolding run_handler on_accept on_retry on_read on_write
    run_handler-Holds (Completion.accepted ok peer) s once new fits i =
        on_accept-Holds s.stop ok peer s new i
    run_handler-Holds Completion.retried s once new fits i = accept_if-Holds (not s.stop) s i
    run_handler-Holds (Completion.was_read id link none) s once new fits i =
        through-Holds id (on_read h id link none) s
          (λ there. drop-Holds id link.connected s (once id) i)
    run_handler-Holds (Completion.was_read id link (some xs)) s once new fits i =
        through-Holds id (on_read h id link (some xs)) s (λ there.
          answer_read-Holds id link xs (start_op (Pending.reading id) s) refl
            (ground (arith, i.sized)) there (once id) (record { sized = i.sized; held = i.held }))
    run_handler-Holds (Completion.written id [] connected true) s once new fits i =
        through-Holds id (on_write h id connected true) s (λ there. i)
    run_handler-Holds (Completion.written id [] connected false) s once new fits i =
        through-Holds id (on_write h id connected false) s
          (λ there. drop-Holds id connected s (once id) i)
    run_handler-Holds (Completion.written id (c ∷ text) connected ok) s once new fits i = tt

    abbrev HoldsFired : Option (Outcome (TcpServer S)) → Type κ
    HoldsFired none = Unit
    HoldsFired (some o) = HoldsAfter o

    fire-Holds :
        (n : ℕ) (e : Completion) (s : TcpServer S) → Inv n s → Holds s → HoldsFired (fire h e s)
    unfolding fire
    fire-Holds n e s v i = elim (Option-cases (take_op (due e) s.pending)) [
      | inl nothing ↦ rw (nothing, fire) tt
      | inr (rest, taken) ↦ elim (Bool-cases (fits_buffer s.in_buffer_size e)) [
        | inl fits ↦
            rw (taken, fire, fits)
              (run_handler-Holds e (record s { pending = rest })
                (λ id. omega (arith, v.reads id, v.once id))
                (omega (arith, v.reads s.next_id, v.fresh s.next_id (omega arith))) fits
                (record { sized = i.sized; held = i.held }))
        | inr larger ↦ rw (taken, fire, larger) tt
      ]
    ]

    pub Reach-Holds :
        (handlers : S) (n : ℕ) (s : TcpServer S)
        → J handlers []
        → n < 2 ^ 32
        → Reach h size handlers n s
        → Holds s
    unfolding open_server accept
    Reach-Holds handlers _ s first small Reach.start = record { sized = refl; held = first }
    Reach-Holds handlers _ s first small (Reach.later {n = m} {s = before} e r f) =
        subst HoldsFired f (
          fire-Holds m e before (Reach-Inv h size handlers m before (omega arith) r)
            (Reach-Holds handlers m before first (omega arith) r))
