-- ===== src/Server/Service.antt =====
-- The server with the request processor of src/kexplorer-server/requestprocessor.cxx, as main.cxx has it.
use kexplorer_server.Prelude.{ℕ, ◌^◌, ◌≤◌, length, ◌<◌, ◌≡◌, true, false, some, ◌∷◌, ◌++◌}
use kexplorer_server.Prelude.Outcome.{returns, terminates}
use kexplorer_server.Prelude.Text.{Str}
use kexplorer_server.Registry.{Registry}
use kexplorer_server.Requests.{
  Environment, RequestProcessor, start_session, end_session, decode, process, process_at,
}
use kexplorer_server.Requests.Answers.{CallsReturn, process_returns, process_terminates}
use kexplorer_server.Requests.Fatal.{fatal_id}
use kexplorer_server.Session.Spec.{fresh}
use kexplorer_server.TcpServer.{Link, Completion, TcpServer, fire}
use kexplorer_server.Server.{IRequestProcessor, SessionHandlerOptions, Live, session_handlers}
use kexplorer_server.Server.Reads.{Answered, Sent, Answered-Sent}
use kexplorer_server.Server.Pieces.{Stream, Stream-Reach}
use kexplorer_server.Server.Replies.{LastPiece, answers_pieces, terminates_pieces}

module _ {N S : Type 0} (env : Environment N S) (registry : Registry) (rp : RequestProcessor) where
  -- `RequestProcessor` as the `IRequestProcessor` of the session handlers. The size is the length of the
  -- text, which `process` does not use.
  unfoldable pub request_processor : IRequestProcessor S
  unfolding process_at
  request_processor = record {
    start_session = start_session env registry rp.handlers;
    end_session = end_session env registry rp.handlers;
    process = λ s id text size. process_at env registry rp s id text;
  }

module _ {N S : Type 0} (env : Environment N S) (registry : Registry) (rp : RequestProcessor)
    (options : SessionHandlerOptions) (small : options.buffer_size < 2 ^ 62)
    (limited : options.buffer_limit < 2 ^ 62) (size : ℕ) (live : Live S) (n id : ℕ) (link : Link)
    (q : Str) (x : ℕ) (xs : Str) (s : TcpServer (Live S)) where
  -- In a server whose sizes are below 2^62 and that has had less than 2^32 completions, let a
  -- session have received a text in which no request ends, in pieces of any size and with any
  -- completions of the server in between, since it held nothing. If the next piece ends a request
  -- that has no NUL and is shorter than the buffer may grow, the handlers that are called for it
  -- come back, the document does not have an object or an array for its id, and the socket takes
  -- the response at once, before the call that starts the write returns and frees it, then the
  -- request processor gives a response to the whole text, the peer is sent that response, once and
  -- as a whole, the next read is under way, the session holds nothing, and no other session has
  -- changed.
  pub served :
      (sent : ℕ)
      → size < 2 ^ 62
      → n < 2 ^ 32
      → Stream (request_processor env registry rp) options size live id n s q
      → LastPiece (request_processor env registry rp) options small limited size q (x ∷ xs)
      → let text = q ++ (x ∷ xs) in
        CallsReturn env registry rp s.handlers.processor id text (decode env registry text)
        → fatal_id (env.parse text) ≡ false
        → link.takes ≡ some sent
        → ((r : S × Str)
            → process env registry rp s.handlers.processor id text ≡ returns r
            → length r.1 ≤ sent)
        → (r : S × Str) × (process env registry rp s.handlers.processor id text ≡ returns r)
          × (t : TcpServer (Live S)) × (fire
                (session_handlers (request_processor env registry rp) options)
                (Completion.was_read id link (some (x ∷ xs)))
                s
              ≡ some (returns t))
          × Answered id link s t r.0 fresh r.1
          × Sent (session_handlers (request_processor env registry rp) options) id s t r.1
  unfolding request_processor process_at
  served sent below few stream last back harmless takes enough =
      let (r, done) =
        process_returns env registry rp s.handlers.processor id (q ++ (x ∷ xs)) back harmless in
      let (t, fired, answered) =
        answers_pieces (request_processor env registry rp) options small limited size live n id link
          q x xs s below few stream last done in
      (
        r,
        done,
        t,
        fired,
        answered,
        Answered-Sent (session_handlers (request_processor env registry rp) options) id link s t
            sent (Stream-Reach (request_processor env registry rp) options stream).1 takes
            (enough r done) answered,
      )

  -- In a server whose sizes are below 2^62 and that has had less than 2^32 completions, let a
  -- session have received a text in which no request ends, in pieces of any size and with any
  -- completions of the server in between, since it held nothing. If the next piece ends a request
  -- that has no NUL and is shorter than the buffer may grow, and whose document has an object or
  -- an array for its id, then the completion of that read ends the server.
  pub ended :
      size < 2 ^ 62
      → n < 2 ^ 32
      → Stream (request_processor env registry rp) options size live id n s q
      → LastPiece (request_processor env registry rp) options small limited size q (x ∷ xs)
      → fatal_id (env.parse (q ++ (x ∷ xs))) ≡ true
      → fire
          (session_handlers (request_processor env registry rp) options)
          (Completion.was_read id link (some (x ∷ xs)))
          s
        ≡ some terminates
  unfolding request_processor process_at
  ended below few stream last fatal =
      terminates_pieces (request_processor env registry rp) options small limited size live n id
        link q x xs s below few stream last
        (process_terminates env registry rp s.handlers.processor id (q ++ (x ∷ xs)) fatal)
