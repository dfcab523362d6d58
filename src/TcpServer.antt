-- ===== src/TcpServer.antt =====
-- src/kexplorer-server/tcpserver.hxx: the server's sockets, on one thread as main.cxx has it. The
-- operations that were started wait in `pending`; a completion runs its handler. A completion of a
-- session runs on a raw pointer to it, so it has undefined behaviour when the session is gone.
-- Exceptions for want of memory are left out, and what is sent and received of the peer is an event.
pub mod Ops
pub mod Spec
pub mod Inv
pub mod Lifetime
pub mod Destroy
pub mod Handling
pub mod Isolation
use kexplorer_server.Prelude.{
  ℕ, ◌+◌, ◌%◌, ◌^◌, ◌≡◌, Bool, true, false, ◌&&◌, not, Option, none, some, List, [], ◌∷◌, ◌++◌,
  if◌then◌else◌, ◌==◌, leb, length, take, drop,
}
use kexplorer_server.Prelude.Outcome.{Outcome, returns, terminates, undefined, ◌>>=◌}
use kexplorer_server.Prelude.Text.{Str, str_eq}
use kexplorer_server.Session.{CallbackResult, continues, aborts}

-- An operation that was started: with the session that its handler is to run on, and, of a write, what
-- it has still to take from its buffer.
pub data Pending : Type 0 where
  accepting retrying : Pending
  reading : ℕ → Pending
  writing : ℕ → Str → Pending

abbrev pub same_op : Pending → Pending → Bool
same_op Pending.accepting Pending.accepting = true
same_op Pending.retrying Pending.retrying = true
same_op (Pending.reading a) (Pending.reading b) = a == b
same_op (Pending.writing a s) (Pending.writing b t) = (a == b) && str_eq s t
same_op p q = false

-- The socket of a session while a handler of it runs: whether `shutdown` would find it connected, as it
-- does not when the peer has reset the connection, and how many bytes it takes when a write is started,
-- before `async_write` returns, unless it fails by then.
pub record Link : Type 0 where
  pub connected : Bool
  pub takes : Option ℕ

-- A completion: whether the connection came and its peer is known, the end of the timer, which only the
-- destructor cancels, what was read unless that failed, whether `shutdown` would find the socket of a
-- write connected, and whether all of its text was written.
pub data Completion : Type 0 where
  accepted : Bool → Bool → Completion
  retried : Completion
  was_read : ℕ → Link → Option Str → Completion
  written : ℕ → Str → Bool → Bool → Completion

abbrev pub due : Completion → Pending
due (Completion.accepted ok peer) = Pending.accepting
due Completion.retried = Pending.retrying
due (Completion.was_read id link result) = Pending.reading id
due (Completion.written id text connected ok) = Pending.writing id text

-- The members that matter to the sessions, with the ids of the sessions, whose sockets are open until they
-- are erased; the operations under way, what the sockets have taken, the latest first, and the state of the
-- session handlers.
pub record TcpServer {ℓ} (S : Type ℓ) : Type ℓ where
  pub in_buffer_size : ℕ
  pub stop : Bool
  pub sessions : List ℕ
  pub next_id : ℕ
  pub pending : List Pending
  pub output : List (ℕ × Str)
  pub handlers : S

unfoldable pub has_session : ℕ → List ℕ → Bool
has_session id [] = false
has_session id (i ∷ ids) = if i == id then true else has_session id ids

-- `removeSession`: the first session with the id leaves the vector, and is destroyed.
unfoldable pub remove_session : ℕ → List ℕ → List ℕ
remove_session id [] = []
remove_session id (i ∷ ids) = if i == id then ids else i ∷ remove_session id ids

unfoldable pub take_op : Pending → List Pending → Option (List Pending)
take_op p [] = none
take_op p (q ∷ qs) = elim (same_op p q) [
  | true ↦ some qs
  | false ↦ elim (take_op p qs) [ none ↦ none | some rest ↦ some (q ∷ rest) ]
]

-- What the server asks of a `SessionHandler`, by the session's id: the constructor, `process` and
-- the destructor; `close` does nothing.
pub record Handlers {ℓ} (S : Type ℓ) : Type ℓ where
  pub opens : S → ℕ → S
  pub processes : S → ℕ → Str → Outcome (S × CallbackResult × Str)
  pub ends : S → ℕ → S

abbrev pub start_op {ℓ} : {S : Type ℓ} → Pending → TcpServer S → TcpServer S
start_op p s = record s { pending = p ∷ s.pending }

-- `accept`.
unfoldable pub accept {ℓ} : {S : Type ℓ} → TcpServer S → TcpServer S
accept s = start_op Pending.accepting s

-- The constructor.
unfoldable pub open_server {ℓ} : {S : Type ℓ} → ℕ → S → TcpServer S
unfolding accept
open_server in_buffer_size handlers = accept (record {
  in_buffer_size = in_buffer_size;
  stop = false;
  sessions = [];
  next_id = 0;
  pending = [];
  output = [];
  handlers = handlers;
})

-- A read brings no more than its buffer holds.
abbrev pub fits_buffer : ℕ → Completion → Bool
fits_buffer size (Completion.was_read id link (some xs)) = leb (length xs) size
fits_buffer size e = true

-- What a write takes of its text before `async_write` returns, and what is left to it.
abbrev pub taken : Option ℕ → Str → Str
taken none text = []
taken (some n) text = take n text

abbrev pub unsent : Option ℕ → Str → Str
unsent none text = []
unsent (some n) text = drop n text

-- `write`. The text is freed when it returns: the completion handler does not keep it.
unfoldable pub begin_write {ℓ} : {S : Type ℓ} → ℕ → Option ℕ → Str → TcpServer S → TcpServer S
begin_write id takes text s = record s {
  pending = Pending.writing id (unsent takes text) ∷ s.pending;
  output = (id, taken takes text) ∷ s.output;
}

module _ {ℓ} {S : Type ℓ} (h : Handlers S) where
  -- `close` and `removeSession` of one session. `shutdown` without an error code throws on a socket
  -- that is not connected, out of a `noexcept` function.
  unfoldable pub drop_session : ℕ → Bool → TcpServer S → Outcome (TcpServer S)
  unfolding remove_session
  drop_session id connected s =
      if connected
      then returns
          (record s { handlers = h.ends s.handlers id; sessions = remove_session id s.sessions })
      else terminates

  -- `Session::create`, `push_back` and `start`; if the peer is not known, the id that is not there is
  -- dereferenced.
  unfoldable pub admit : Bool → TcpServer S → Outcome (TcpServer S)
  admit peer s =
      let id = s.next_id in
      if peer
      then returns (
          start_op (Pending.reading id) (record s {
            sessions = s.sessions ++ (id ∷ []);
            next_id = (id + 1) % 2 ^ 32;
            handlers = h.opens s.handlers id;
          }))
      else undefined

  unfoldable pub on_accept : Bool → Bool → TcpServer S → Outcome (TcpServer S)
  unfolding accept admit
  on_accept ok peer s =
      if s.stop
      then returns s
      else (if ok then admit peer (accept s) else returns (start_op Pending.retrying s))

  unfoldable pub on_retry : Bool → TcpServer S → TcpServer S
  unfolding accept
  on_retry ok s = if ok && not s.stop then accept s else s

  -- What follows the call of `process`.
  unfoldable pub answer_read :
      ℕ → Link → TcpServer S → S × CallbackResult × Str → Outcome (TcpServer S)
  unfolding drop_session begin_write
  answer_read id link s (handlers, aborts, text) =
      drop_session id link.connected (record s { handlers = handlers })
  answer_read id link s (handlers, continues, text) =
      returns (begin_write id link.takes text (record s { handlers = handlers }))

  -- `onRead`, on a session that is there: another read is started before the bytes are processed.
  unfoldable pub on_read : ℕ → Link → Option Str → TcpServer S → Outcome (TcpServer S)
  unfolding drop_session answer_read
  on_read id link none s = drop_session id link.connected s
  on_read id link (some xs) s =
      let s' = start_op (Pending.reading id) s in
      h.processes s'.handlers id xs >>= answer_read id link s'

  unfoldable pub on_write : ℕ → Bool → Bool → TcpServer S → Outcome (TcpServer S)
  unfolding drop_session
  on_write id connected ok s = if ok then returns s else drop_session id connected s

  -- A handler of a session, through the pointer to it.
  unfoldable pub through :
      ℕ → (TcpServer S → Outcome (TcpServer S)) → TcpServer S → Outcome (TcpServer S)
  unfolding has_session
  through id f s = if has_session id s.sessions then f s else undefined

  -- The handler of a completion. A write that did not take its whole text at once goes on in a buffer
  -- that is freed.
  unfoldable pub run_handler : Completion → TcpServer S → Outcome (TcpServer S)
  unfolding on_accept on_retry on_read on_write through
  run_handler (Completion.accepted ok peer) s = on_accept ok peer s
  run_handler Completion.retried s = returns (on_retry true s)
  run_handler (Completion.was_read id link result) s = through id (on_read id link result) s
  run_handler (Completion.written id [] connected ok) s = through id (on_write id connected ok) s
  run_handler (Completion.written id (c ∷ text) connected ok) s = undefined

  -- A completion; `none`: nothing of the kind is under way, or more is read than was asked for.
  unfoldable pub fire : Completion → TcpServer S → Option (Outcome (TcpServer S))
  unfolding take_op run_handler
  fire e s = elim (take_op (due e) s.pending) [
    | none ↦ none
    | some rest ↦
        if fits_buffer s.in_buffer_size e
        then some (run_handler e (record s { pending = rest }))
        else none
  ]

  pub data Reach (size : ℕ) (handlers : S) : ℕ → TcpServer S → Type ℓ where
    start : Reach size handlers 0 (open_server size handlers)
    later :
        {n : ℕ} {s t : TcpServer S} (e : Completion)
        → Reach size handlers n s
        → fire e s ≡ some (returns t)
        → Reach size handlers (n + 1) t
