-- ===== src/Tests/Sockets.antt =====
-- A server with one session whose handler refuses everything.
use kexplorer_server.Prelude.{
  ℕ, ◌+◌, ◌-◌, ◌≡◌, refl, false, true, Option, none, some, List, [], ◌∷◌, ◌⊎◌, arith,
}
use kexplorer_server.Prelude.Outcome.{returns, terminates, undefined}
use kexplorer_server.Prelude.Text.{Str, codes}
use kexplorer_server.Session.{aborts}
use kexplorer_server.TcpServer.{
  Link, Pending, Completion, TcpServer, has_session, remove_session, take_op, Handlers, accept,
  admit, on_accept, run_handler, open_server, fits_buffer, fire, Reach,
}
use kexplorer_server.TcpServer.Ops.{ops}
use kexplorer_server.TcpServer.Lifetime.{serves, aborted, lost_peer}

abbrev refusing : Handlers ℕ
refusing = record {
  opens = λ n id. n + 1;
  processes = λ n id xs. returns (n, aborts, []);
  ends = λ n id. n - 1;
}

abbrev alive : Link
alive = record { connected = true; takes = none }

abbrev connected : TcpServer ℕ
connected = record {
  in_buffer_size = 16;
  stop = false;
  sessions = 0 ∷ [];
  next_id = 1;
  pending = Pending.reading 0 ∷ Pending.accepting ∷ [];
  output = [];
  handlers = 1;
}

connected-Reach : Reach refusing 16 0 1 connected
unfolding fire take_op run_handler on_accept admit accept open_server
connected-Reach = Reach.later (Completion.accepted true true) Reach.start refl

serves_example :
    (ops Pending.accepting connected.pending + ops Pending.retrying connected.pending ≡ 1)
    × ((id : ℕ)
        → (has_session id connected.sessions ≡ false)
          ⊎ (ops (Pending.reading id) connected.pending ≡ 1))
serves_example = serves refusing 16 0 1 connected (omega arith) connected-Reach

aborted_example :
    (t : TcpServer ℕ) × (fire refusing (Completion.was_read 0 alive (some (codes "}"))) connected
      ≡ some (returns t))
    × ((link : Link) (result : Option Str)
        → fits_buffer 16 (Completion.was_read 0 link result) ≡ true
        → fire refusing (Completion.was_read 0 link result) t ≡ some undefined)
unfolding has_session
aborted_example =
    aborted refusing 16 0 1 0 (codes "}") connected 1 [] none (omega arith) connected-Reach refl
      (omega arith) refl

lost_peer_example :
    (rest : List Pending) × (take_op (Pending.reading 0) connected.pending ≡ some rest)
    × (fire refusing (Completion.was_read 0 alive none) connected
        ≡ some (
            returns (record connected {
              pending = rest;
              sessions = remove_session 0 connected.sessions;
              handlers = 0;
            })))
    × (has_session 0 (remove_session 0 connected.sessions) ≡ false)
    × (fire refusing
          (Completion.was_read 0 (record { connected = false; takes = none }) none)
          connected
        ≡ some terminates)
unfolding has_session
lost_peer_example = lost_peer refusing 16 0 1 0 connected none (omega arith) connected-Reach refl
