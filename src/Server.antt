-- ===== src/Server.antt =====
-- src/kexplorer-server/main.cxx: the server that it puts together, a TcpServer whose sessions have
-- SessionHandlers of src/kexplorer-server/sessionhandler.cxx, and these share one request processor.
pub mod Sessions
pub mod Leaks
pub mod Reads
pub mod Held
pub mod Pieces
pub mod Replies
pub mod Exchange
pub mod Service
pub mod Overread
use kexplorer_server.Prelude.{ℕ, Option, none, some, List, ◌∷◌}
use kexplorer_server.Prelude.Map.{nat_eq, find, erase, replace}
use kexplorer_server.Prelude.Outcome.{Outcome, undefined, map_outcome}
use kexplorer_server.Prelude.Text.{Str}
use kexplorer_server.Session.{
  SessionHandler, CallbackResult, open_session, Processor, Answer, process,
}
use kexplorer_server.TcpServer.{Handlers}

-- `IRequestProcessor` over its state.
pub record IRequestProcessor {ℓ} (P : Type ℓ) : Type ℓ where
  pub start_session : P → ℕ → P
  pub end_session : P → ℕ → P
  pub process : Processor P

pub record SessionHandlerOptions : Type 0 where
  pub buffer_size : ℕ
  pub buffer_limit : ℕ

-- The request processor and the handler objects, by the ids of their sessions.
pub record Live {ℓ} (P : Type ℓ) : Type ℓ where
  pub processor : P
  pub sessions : List (ℕ × SessionHandler)

-- What a call of `process` leaves.
unfoldable pub store {ℓ} : {P : Type ℓ} → Live P → ℕ → Answer P → Live P × CallbackResult × Str
store s id (processor, h, result, text) =
    (record { processor = processor; sessions = replace id h s.sessions }, result, text)

module _ {ℓ} {P : Type ℓ} (rp : IRequestProcessor P) (options : SessionHandlerOptions) where
  -- `SessionHandler::SessionHandler`.
  unfoldable pub open_handler : Live P → ℕ → Live P
  open_handler s id = record {
    processor = rp.start_session s.processor id;
    sessions = (id, open_session options.buffer_size options.buffer_limit id) ∷ s.sessions;
  }

  -- `m_sessionHandler->process(…)`.
  unfoldable pub process_bytes : Live P → ℕ → Str → Outcome (Live P × CallbackResult × Str)
  unfolding store
  process_bytes s id xs = elim (find id s.sessions) [
    | none ↦ undefined
    | some h ↦ map_outcome (store s id) (process rp.process s.processor h xs)
  ]

  -- `SessionHandler::~SessionHandler`.
  unfoldable pub destroy_handler : Live P → ℕ → Live P
  destroy_handler s id = record {
    processor = rp.end_session s.processor id;
    sessions = erase id s.sessions;
  }

  unfoldable pub session_handlers : Handlers (Live P)
  unfolding open_handler process_bytes destroy_handler
  session_handlers = record {
    opens = open_handler;
    processes = process_bytes;
    ends = destroy_handler;
  }
