-- ===== src/Tests/Sessions.antt =====
-- A session whose buffer of one byte may grow to four, with a processor that echoes the request.
use kexplorer_server.Prelude.{ℕ, ◌+◌, ◌≡◌, refl, [], arith}
use kexplorer_server.Prelude.Text.{codes, terminated, unterminated, NoNul}
use kexplorer_server.Prelude.Outcome.{returns, undefined, map_outcome, ◌>>=◌}
use kexplorer_server.Buffer.{create, push, shift, reset, append, enlarge}
use kexplorer_server.Buffer.Push.{bound}
use kexplorer_server.Buffer.Refine.{create-IsValid}
use kexplorer_server.Session.{
  SessionHandler, continues, aborts, open_session, Processor, examine, scan_byte, fail, scan,
  process,
}
use kexplorer_server.Session.Spec.{IsOpen, view, viewed, fresh, react, Implements}
use kexplorer_server.Session.Refine.{process-Implements}
use kexplorer_server.Session.Chunks.{process_request, process-append}

abbrev echo : Processor ℕ
echo n id (terminated text) size = returns (n + 1, text)
echo n id (unterminated text) size = undefined

abbrev session : SessionHandler
session = open_session 1 4 7

session-IsOpen : IsOpen session
unfolding open_session
session-IsOpen = record {
  valid = create-IsValid 1 4 (omega arith) (omega arith);
  ordered = omega arith;
  counted = omega arith;
}

-- "}{" closes what is not open, and ends the session.
rejected : map_outcome viewed (process echo 0 session (codes "}{")) ≡ returns (0, fresh, aborts, [])
unfolding process open_session create push shift enlarge append examine scan scan_byte fail reset
rejected = refl

process-Implements_example :
    Implements
      (bound session.buffer)
      7
      (process echo 0 session (codes "{}"))
      (react echo (bound session.buffer) 7 0 (view session) (codes "{}"))
unfolding open_session
process-Implements_example = process-Implements echo 0 (codes "{}") session-IsOpen (omega arith)

process_request_example :
    map_outcome viewed (process echo 0 session (codes "{}"))
    ≡ map_outcome (λ r. (r.0, fresh, continues, r.1)) (echo 0 7 (terminated (codes "{}")) 2)
unfolding open_session create scan scan_byte
process_request_example =
    process_request echo 0 b'{' (codes "}") session-IsOpen (omega arith) (omega arith)
      (NoNul.cons (omega arith) (NoNul.cons (omega arith) NoNul.nil)) refl refl

process-append_example :
    (process echo 0 session (codes "{") >>= λ a.
    map_outcome viewed (process echo a.0 a.1 (codes "}")))
    ≡ map_outcome viewed (process echo 0 session (codes "{}"))
unfolding open_session create scan scan_byte
process-append_example =
    process-append echo 0 (codes "{") (codes "}") session-IsOpen (omega arith) (omega arith) refl
      refl
