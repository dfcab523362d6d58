-- ===== src/Server/Exchange.antt =====
-- The tool and the server together: what the tool sends is what the session receives, and what is written
-- to the session is what the tool receives, each in any pieces.
use kexplorer_server.Prelude.{
  ℕ, ◌^◌, ◌≤◌, ◌<◌, ◌≡◌, sym, ap, ◌∙◌, true, false, if◌then◌else◌, Option, none, some, List, ◌∷◌,
  ◌++◌, length,
}
use kexplorer_server.Prelude.Outcome.{returns}
use kexplorer_server.Prelude.Text.{Str, terminated}
use kexplorer_server.Buffer.Inv.{IsValid}
use kexplorer_server.Buffer.Push.{bound}
use kexplorer_server.Client.{Client, Phase, reset_response, command, on_write, receive}
use kexplorer_server.Client.Exchange.{Response, Done, joined, exchange}
use kexplorer_server.Session.Spec.{fresh}
use kexplorer_server.TcpServer.{Link, Completion, TcpServer, fire}
use kexplorer_server.Server.{IRequestProcessor, SessionHandlerOptions, Live, session_handlers}
use kexplorer_server.Server.Reads.{Answered, Sent, Answered-Sent}
use kexplorer_server.Server.Pieces.{Stream, Stream-Reach}
use kexplorer_server.Server.Replies.{LastPiece, answers_pieces}

-- What the tool sends is the command.
command_writes :
    (c d : Client) (cmd : Str)
    → c.stop ≡ false
    → command true cmd c ≡ some d
    → d.phase ≡ Phase.writing cmd
unfolding command reset_response
command_writes c d cmd go sent = sym (
    ap phase_of (
      sym (
        ap
          (λ b.
            if b then some c else some (record (reset_response c) { phase = Phase.writing cmd }))
          go)
      ∙ sent))
  where
    phase_of : Option Client → Phase
    phase_of none = Phase.writing cmd
    phase_of (some e) = e.phase

module _ {ℓ} {P : Type ℓ} (rp : IRequestProcessor P) (options : SessionHandlerOptions)
    (small : options.buffer_size < 2 ^ 62) (limited : options.buffer_limit < 2 ^ 62) where
  -- Let a tool that has not been stopped and has a valid buffer send a command to a server with
  -- sizes below 2^62 that has had less than 2^32 completions, in a session that held nothing since
  -- it received the command, in pieces of any size and with any completions of the server in
  -- between. If the last piece ends the request and no piece before did, the request has no NUL
  -- and is shorter than the buffer may grow, the request processor gives a response whose braces
  -- match at its end and not before and which fits the buffer of the tool, and the socket takes
  -- that response at once, before the call that starts the write returns and frees it, then the
  -- peer is sent the response, once and as a whole, the session holds nothing, no other session
  -- has changed, and the tool prints the response exactly once and as a whole, in whatever pieces
  -- it receives it.
  pub commanded :
      (c : Client) (size : ℕ) (live : Live P) (n id : ℕ) (link : Link) (q : Str) (x : ℕ) (xs : Str)
      (s : TcpServer (Live P)) (sent : ℕ) {p' : P} {response : Str} (chunks : List Str)
      → c.stop ≡ false
      → IsValid c.buffer
      → size < 2 ^ 62
      → n < 2 ^ 32
      → Stream rp options size live id n s q
      → LastPiece rp options small limited size q (x ∷ xs)
      → let cmd = q ++ (x ∷ xs) in
        rp.process s.handlers.processor id (terminated cmd) (length cmd) ≡ returns (p', response)
        → link.takes ≡ some sent
        → length response ≤ sent
        → Response response
        → length response ≤ bound c.buffer
        → joined chunks ≡ response
        → (d : Client) × (command true cmd c ≡ some d)
          × (d.phase ≡ Phase.writing cmd)
          × (t : TcpServer (Live P)) × (fire
                (session_handlers rp options)
                (Completion.was_read id link (some (x ∷ xs)))
                s
              ≡ some (returns t))
          × Answered id link s t p' fresh response
          × Sent (session_handlers rp options) id s t response
          × Done c.out response (receive (on_write true d) chunks)
  commanded c size live n id link q x xs s sent {response = response} chunks go valid below few
        stream last done takes enough ok fits whole =
      let (d, begun, printed) = exchange c (q ++ (x ∷ xs)) response chunks go valid ok fits whole in
      let (t, fired, answered) =
        answers_pieces rp options small limited size live n id link q x xs s below few stream last
          done in
      (
        d,
        begun,
        command_writes c d (q ++ (x ∷ xs)) go begun,
        t,
        fired,
        answered,
        Answered-Sent (session_handlers rp options) id link s t sent
            (Stream-Reach rp options stream).1 takes enough answered,
        printed,
      )
