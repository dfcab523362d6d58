-- ===== src/TcpServer/Lifetime.antt =====
-- When a completion finds its session, and when the session is gone.
use kexplorer_server.Prelude.{
  ℕ, ◌+◌, ◌^◌, ◌≤◌, ◌<◌, leb, length, ◌≡◌, ◌∙◌, refl, ap, true, false, Option, none, some, List, [],
  ◌∷◌, arith, inl, inr, ◌⊎◌, Bool-cases, ==_iff,
}
use kexplorer_server.Prelude.Outcome.{returns, terminates, undefined, ◌>>=◌}
use kexplorer_server.Prelude.Text.{Str}
use kexplorer_server.Session.{aborts}
use kexplorer_server.TcpServer.{
  Pending, same_op, Completion, TcpServer, has_session, remove_session, take_op, Handlers, Link,
  fits_buffer, drop_session, answer_read, on_read, through, run_handler, fire, Reach,
}
use kexplorer_server.TcpServer.Ops.{has-positive, ops, times, times_same, has-times}
use kexplorer_server.TcpServer.Inv.{Reach-Inv}

take_op-head : (p : Pending) (ps : List Pending) → same_op p p ≡ true → take_op p (p ∷ ps) ≡ some ps
unfolding take_op
take_op-head p ps e = rw (e, take_op)

reading_same : (id : ℕ) → same_op (Pending.reading id) (Pending.reading id) ≡ true
reading_same id = (==_iff id id).1 refl

-- An operation that is under way can complete.
take_op-ops :
    (p : Pending) (ps : List Pending)
    → 0 < ops p ps
    → (rest : List Pending) × (take_op p ps ≡ some rest)
unfolding take_op
take_op-ops p [] h = absurd (omega arith)
take_op-ops p (q ∷ ps) h = elim (Bool-cases (same_op p q)) [
  | inl found ↦ (ps, rw (found, take_op))
  | inr other ↦
      let (rest, later) = take_op-ops p ps (ground (arith, h)) in
      (q ∷ rest, rw (other, take_op, later))
]

module _ {ℓ} {S : Type ℓ} (h : Handlers S) where
  -- In every state that the server reaches in less than 2^32 completions, exactly one of a pending
  -- accept and a pending retry is under way, and of each session that it holds exactly one read.
  pub serves :
      (size : ℕ) (handlers : S) (n : ℕ) (s : TcpServer S)
      → n < 2 ^ 32
      → Reach h size handlers n s
      → (ops Pending.accepting s.pending + ops Pending.retrying s.pending ≡ 1)
        × ((id : ℕ)
            → (has_session id s.sessions ≡ false) ⊎ (ops (Pending.reading id) s.pending ≡ 1))
  serves size handlers n s small r =
      let i = Reach-Inv h size handlers n s small r in
      (
        i.listens,
        λ id. elim (Bool-cases (has_session id s.sessions)) [
          | inr gone ↦ inl gone
          | inl there ↦ inr (omega (arith, i.reads id, i.once id, has-positive id s.sessions there))
        ],
      )

  -- What a handler of a session does when the session is gone.
  gone_undefined :
      (id : ℕ) (link : Link) (result : Option Str) (s : TcpServer S) {rest : List Pending}
      → take_op (Pending.reading id) s.pending ≡ some rest
      → has_session id s.sessions ≡ false
      → fits_buffer s.in_buffer_size (Completion.was_read id link result) ≡ true
      → fire h (Completion.was_read id link result) s ≡ some undefined
  unfolding fire run_handler through
  gone_undefined id link result s taken gone fits = rw (taken, fire, gone, fits)

  -- What a completed read of a session that is there does.
  pub fire_read :
      (id : ℕ) (link : Link) (xs : Str) (s : TcpServer S) {rest : List Pending}
      → take_op (Pending.reading id) s.pending ≡ some rest
      → has_session id s.sessions ≡ true
      → length xs ≤ s.in_buffer_size
      → fire h (Completion.was_read id link (some xs)) s
        ≡ some (
            h.processes s.handlers id xs
            >>= answer_read h id link (record s { pending = Pending.reading id ∷ rest }))
  unfolding fire run_handler through on_read
  fire_read id link xs s taken there small =
      let fits : leb (length xs) s.in_buffer_size ≡ true = ground arith in
      rw (taken, fire, there, fits)

  -- The read of a session that is there is under way.
  pub read_pending :
      (size : ℕ) (handlers : S) (n id : ℕ) (s : TcpServer S)
      → n < 2 ^ 32
      → Reach h size handlers n s
      → has_session id s.sessions ≡ true
      → (rest : List Pending) × (take_op (Pending.reading id) s.pending ≡ some rest)
  read_pending size handlers n id s small r there =
      let i = Reach-Inv h size handlers n s small r in
      take_op-ops (Pending.reading id) s.pending
        (omega (arith, i.reads id, has-positive id s.sessions there))

  -- In every state that the server reaches in less than 2^32 completions, if the handler of a
  -- session that is there aborts on what was read, the next completion of a read of that session,
  -- which is under way already, has undefined behaviour, whatever it brings.
  pub aborted :
      (size : ℕ) (handlers : S) (n id : ℕ) (xs : Str) (s : TcpServer S) (after : S) (text : Str)
      (takes : Option ℕ)
      → n < 2 ^ 32
      → Reach h size handlers n s
      → has_session id s.sessions ≡ true
      → length xs ≤ s.in_buffer_size
      → h.processes s.handlers id xs ≡ returns (after, aborts, text)
      → (t : TcpServer S) × (fire h
            (Completion.was_read id (record { connected = true; takes = takes }) (some xs))
            s
          ≡ some (returns t))
        × ((link : Link) (result : Option Str)
            → fits_buffer s.in_buffer_size (Completion.was_read id link result) ≡ true
            → fire h (Completion.was_read id link result) t ≡ some undefined)
  unfolding answer_read drop_session
  aborted size handlers n id xs s after text takes small r there short a =
      let i = Reach-Inv h size handlers n s small r in
      let (rest, taken) = read_pending size handlers n id s small r there in
      let again : TcpServer S = record s { pending = Pending.reading id ∷ rest } in
      let alone : times id (remove_session id s.sessions) ≡ 0 =
        omega (arith, i.reads id, i.once id, times_same id s.sessions there) in
      (
        record again { handlers = h.ends after id; sessions = remove_session id s.sessions },
        fire_read id (record { connected = true; takes = takes }) xs s taken there short
            ∙ ap
                (λ o.
                  some (o >>= answer_read h id (record { connected = true; takes = takes }) again))
                a,
        λ link result.
            gone_undefined id link result _
              (take_op-head (Pending.reading id) rest (reading_same id)) (has-times id _ alone),
      )

  fire_lost :
      (id : ℕ) (link : Link) (s : TcpServer S) {rest : List Pending}
      → take_op (Pending.reading id) s.pending ≡ some rest
      → has_session id s.sessions ≡ true
      → fire h (Completion.was_read id link none) s
        ≡ some (drop_session h id link.connected (record s { pending = rest }))
  unfolding fire run_handler through on_read
  fire_lost id link s taken there = rw (taken, fire, there)

  -- In every state that the server reaches in less than 2^32 completions, a read of a session that
  -- is there can fail: if its socket is still connected, the session is dropped and its handler
  -- destroyed, and otherwise the server is ended.
  pub lost_peer :
      (size : ℕ) (handlers : S) (n id : ℕ) (s : TcpServer S) (takes : Option ℕ)
      → n < 2 ^ 32
      → Reach h size handlers n s
      → has_session id s.sessions ≡ true
      → (rest : List Pending) × (take_op (Pending.reading id) s.pending ≡ some rest)
        × (fire h (Completion.was_read id (record { connected = true; takes = takes }) none) s
            ≡ some (
                returns (record s {
                  pending = rest;
                  sessions = remove_session id s.sessions;
                  handlers = h.ends s.handlers id;
                })))
        × (has_session id (remove_session id s.sessions) ≡ false)
        × (fire h (Completion.was_read id (record { connected = false; takes = takes }) none) s
            ≡ some terminates)
  unfolding drop_session
  lost_peer size handlers n id s takes small r there =
      let i = Reach-Inv h size handlers n s small r in
      let (rest, taken) = read_pending size handlers n id s small r there in
      (
        rest,
        taken,
        fire_lost id (record { connected = true; takes = takes }) s taken there,
        has-times id _ (omega (arith, i.reads id, i.once id, times_same id s.sessions there)),
        fire_lost id (record { connected = false; takes = takes }) s taken there,
      )
