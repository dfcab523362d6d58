-- ===== src/Tests/Living.antt =====
-- A server with a session whose request "{}" comes in two pieces, between which another peer connects.
use kexplorer_server.Prelude.{
  ◌+◌, ◌⊎◌, ℕ, ◌≡◌, refl, true, false, none, some, [], ◌∷◌, subst, arith,
}
use kexplorer_server.Prelude.Map.{nat_eq, find, replace}
use kexplorer_server.Prelude.Outcome.{returns, terminates, undefined}
use kexplorer_server.Prelude.Text.{Str, terminated, unterminated, codes, str_eq, NoNul}
use kexplorer_server.Buffer.{create, push, shift, append, enlarge}
use kexplorer_server.Session.{SessionHandler, open_session, examine, finish, scan, scan_byte}
use kexplorer_server.Session.Spec.{fresh}
use kexplorer_server.Session.Chunks.{is_complete}
use kexplorer_server.TcpServer.{
  Link, Completion, TcpServer, has_session, take_op, accept, admit, on_accept, on_read, answer_read,
  through, run_handler, open_server, fire, Reach,
}
use kexplorer_server.Requests.{Environment, start_session}
use kexplorer_server.Requests.Fatal.{fatal_id, is_container}
use kexplorer_server.Bag.Table.{first_member}
use kexplorer_server.Server.{
  IRequestProcessor, SessionHandlerOptions, Live, store, open_handler, process_bytes,
  session_handlers,
}
use kexplorer_server.TcpServer.Destroy.{destroy}
use kexplorer_server.Server.Sessions.{Ready}
use kexplorer_server.Server.Leaks.{handlers_held, destroyed}
use kexplorer_server.Server.Reads.{Answered, Sent}
use kexplorer_server.Server.Pieces.{IsPartial, Stream}
use kexplorer_server.Server.Replies.{LastPiece}
use kexplorer_server.Server.Service.{request_processor, served, ended}
use kexplorer_server.Client.{Client, Phase, command, on_write, receive}
use kexplorer_server.Client.Exchange.{Done}
use kexplorer_server.Server.Exchange.{commanded}
use kexplorer_server.Tests.Tool.{tool, tool-IsValid, reply-Response}
use kexplorer_server.Tests.Processing.{
  env, registry, somebody, id_document, braces_return, braces_short,
}

abbrev options : SessionHandlerOptions
options = record { buffer_size = 1; buffer_limit = 8 }

abbrev live : Live ℕ
live = record { processor = 0; sessions = [] }

brace-IsPartial : IsPartial (codes "{")
unfolding scan scan_byte
brace-IsPartial [] r e = (refl, refl)
brace-IsPartial (c ∷ []) r e =
    let brace : b'{' ≡ c = cc in
    subst (λ b. ((scan (b ∷ []) 0 0).valid ≡ true) × (is_complete (scan (b ∷ []) 0 0) ≡ false))
      brace (refl, refl)
brace-IsPartial (c ∷ d ∷ p) r e = cc

-- A socket that takes up to a hundred bytes at once.
abbrev whole : Link
whole = record { connected = true; takes = some 100 }

-- The request processor that answers "list" requests.
abbrev processor : Environment ℕ ℕ → IRequestProcessor ℕ
processor e = request_processor e registry somebody

module _ (rp : IRequestProcessor ℕ) where
  abbrev run : Completion → TcpServer (Live ℕ) → TcpServer (Live ℕ)
  run e s = elim (fire (session_handlers rp options) e s) [
    | none ↦ s
    | some (returns t) ↦ t
    | some o ↦ s
  ]

  abbrev opened : TcpServer (Live ℕ)
  opened = run (Completion.accepted true true) (open_server 4 live)

  abbrev begun : TcpServer (Live ℕ)
  begun = run (Completion.was_read 0 whole (some (codes "{"))) opened

  abbrev busy : TcpServer (Live ℕ)
  busy = run (Completion.accepted true true) begun

  opened-Reach : Reach (session_handlers rp options) 4 live 1 opened
  unfolding fire take_op run_handler on_accept admit accept open_server session_handlers
      open_handler
  opened-Reach = Reach.later (Completion.accepted true true) Reach.start refl

  busy-Stream : Stream rp options 4 live 0 3 busy (codes "{")
  unfolding fire take_op run_handler on_accept admit accept open_server session_handlers
      open_handler has_session find open_session create on_read answer_read through process_bytes
      store replace kexplorer_server.Session.process push shift append enlarge examine finish scan
      scan_byte
  busy-Stream =
      Stream.otherwise (Completion.accepted true true)
        (Stream.received whole (codes "{")
          (Stream.begun {h = open_session 1 8 0} opened-Reach refl refl refl) refl refl)
        refl refl refl

  last : LastPiece rp options (omega arith) (omega arith) 4 (codes "{") (codes "}")
  unfolding scan scan_byte
  last = record {
    partial = brace-IsPartial;
    short = omega arith;
    fits = omega arith;
    clean = NoNul.cons (omega arith) (NoNul.cons (omega arith) NoNul.nil);
    valid = refl;
    complete = refl;
  }

served_example :
    (r : ℕ × Str) × (kexplorer_server.Requests.process env registry somebody
        (busy (processor env)).handlers.processor
        0
        (codes "{}")
      ≡ returns r)
    × (t : TcpServer (Live ℕ)) × (fire
          (session_handlers (processor env) options)
          (Completion.was_read 0 whole (some (codes "}")))
          (busy (processor env))
        ≡ some (returns t))
    × Answered 0 whole (busy (processor env)) t r.0 fresh r.1
    × Sent (session_handlers (processor env) options) 0 (busy (processor env)) t r.1
unfolding fatal_id str_eq first_member is_container
served_example =
    served env registry somebody options (omega arith) (omega arith) 4 live 3 0 whole (codes "{")
      b'}' [] (busy (processor env)) 100 (omega arith) (omega arith) (busy-Stream (processor env))
      (last (processor env)) (braces_return (busy (processor env)).handlers.processor) refl refl
      (braces_short (busy (processor env)).handlers.processor)

-- A parser that finds an object for the id.
abbrev fatal_env : Environment ℕ ℕ
fatal_env = record env { parse = λ text. some id_document }

ended_example :
    fire
      (session_handlers (processor fatal_env) options)
      (Completion.was_read 0 whole (some (codes "}")))
      (busy (processor fatal_env))
    ≡ some terminates
unfolding fatal_id first_member is_container str_eq
ended_example =
    ended fatal_env registry somebody options (omega arith) (omega arith) 4 live 3 0 whole
      (codes "{") b'}' [] (busy (processor fatal_env)) (omega arith) (omega arith)
      (busy-Stream (processor fatal_env)) (last (processor fatal_env)) refl

handlers_held_example :
    ((has_session 0 (opened (processor env)).sessions ≡ true)
      × Ready options (opened (processor env)).handlers 0)
    ⊎ ((has_session 0 (opened (processor env)).sessions ≡ false)
        × (find 0 (opened (processor env)).handlers.sessions ≡ none))
handlers_held_example =
    handlers_held (processor env) options 4 0 1 (opened (processor env)) 0 (omega arith)
      (omega arith) (omega arith) (omega arith) (opened-Reach (processor env))

destroyed_example :
    (left : Live ℕ) × (destroy
        (session_handlers (processor env) options)
        (λ id. true)
        (opened (processor env))
      ≡ returns left)
    × ((id : ℕ) → find id left.sessions ≡ none)
destroyed_example =
    destroyed (processor env) options 4 0 1 (opened (processor env)) (λ id. true) (omega arith)
      (opened-Reach (processor env)) (λ id there. refl)

-- A request processor that sends the request back.
abbrev echo : IRequestProcessor ℕ
echo = record {
  start_session = λ n id. n;
  end_session = λ n id. n;
  process = λ n id text size. elim text [
    | terminated t ↦ returns (n + 1, t)
    | unterminated t ↦ undefined
  ];
}

commanded_example :
    (d : Client) × (command true (codes "{}") tool ≡ some d)
    × (d.phase ≡ Phase.writing (codes "{}"))
    × (t : TcpServer (Live ℕ)) × (fire
          (session_handlers echo options)
          (Completion.was_read 0 whole (some (codes "}")))
          (busy echo)
        ≡ some (returns t))
    × Answered 0 whole (busy echo) t 1 fresh (codes "{}")
    × Sent (session_handlers echo options) 0 (busy echo) t (codes "{}")
    × Done tool.out (codes "{}") (receive (on_write true d) (codes "{" ∷ codes "}" ∷ []))
unfolding create fire take_op run_handler on_accept admit accept open_server session_handlers
    open_handler has_session find open_session on_read answer_read through process_bytes store
    replace kexplorer_server.Session.process push shift append enlarge examine finish scan scan_byte
commanded_example =
    commanded echo options (omega arith) (omega arith) tool 4 live 3 0 whole (codes "{") b'}' []
      (busy echo) 100 (codes "{" ∷ codes "}" ∷ []) refl tool-IsValid (omega arith) (omega arith)
      (busy-Stream echo) (last echo) refl refl (omega arith) reply-Response (omega arith) refl

-- A session whose buffer of one byte may grow to two.
abbrev narrow : SessionHandler
narrow = open_session 1 2 7
