-- ===== src/TcpServer/Destroy.antt =====
-- The destructor of src/kexplorer-server/tcpserver.hxx, with the sockets that `shutdown` would find connected.
use kexplorer_server.Prelude.{ℕ, Bool, true, false, List, [], ◌∷◌, if◌then◌else◌}
use kexplorer_server.Prelude.Outcome.{Outcome, returns, terminates}
use kexplorer_server.TcpServer.{TcpServer, Handlers}

-- `session->close()` for each session.
unfoldable pub close_all : (ℕ → Bool) → List ℕ → Bool
close_all connected [] = true
close_all connected (id ∷ ids) =
    let rest = close_all connected ids in if connected id then rest else false

module _ {ℓ} {S : Type ℓ} (h : Handlers S) where
  -- The vector of the sessions is destroyed, and so are their handlers.
  unfoldable pub end_all : List ℕ → S → S
  end_all [] s = s
  end_all (id ∷ ids) s = end_all ids (h.ends s id)

  -- `~TcpServer`: what is left of the handlers. The object and the operations that it cancels are gone.
  unfoldable pub destroy : (ℕ → Bool) → TcpServer S → Outcome S
  unfolding close_all end_all
  destroy connected s =
      if close_all connected s.sessions then returns (end_all s.sessions s.handlers) else terminates
