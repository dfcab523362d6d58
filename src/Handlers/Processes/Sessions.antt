-- ===== src/Handlers/Processes/Sessions.antt =====
-- The sessions that the process manager keeps.
use kexplorer_server.Prelude.{
  ℕ, ◌≡◌, ◌∙◌, refl, ap, Bool, true, false, Option, none, some, [], if◌then◌else◌, ◌==◌, ==_iff,
  ==_refl, inl, inr, Option-cases, sym,
}
use kexplorer_server.Prelude.Int.{ℤ}
use kexplorer_server.Prelude.Map.{find, nat_eq, or_else, find-insert, find-erase}
use kexplorer_server.Prelude.Outcome.{returns}
use kexplorer_server.Prelude.Text.{Str}
use kexplorer_server.Bag.{Entries}
use kexplorer_server.Handlers.Processes.{
  ProcFs, Session, Manager, start_session, end_session, process,
}

abbrev pub new_session : ℕ → Session
new_session id = record { session_id = id; timestamp = 0; processes = []; removed_pids = [] }

unchanged :
    (o : Option Session) (t : Bool) (new old : Session)
    → (t ≡ true → o ≡ some old)
    → or_else o (if t then some new else none) ≡ o
unchanged (some s) t new old h = refl
unchanged none true new old h = let e : ◌≡◌ {A = Option Session} none (some old) = h refl in cc
unchanged none false new old h = refl

-- `startSession` adds a new session under a free id and leaves every other one; `endSession`
-- removes the one under the id and leaves every other one.
pub session_life :
    (sessions : Manager) (id j : ℕ)
    → (find j (start_session sessions id)
        ≡ or_else (find j sessions) (if id == j then some (new_session id) else none))
      × (find j (end_session sessions id) ≡ (if id == j then none else find j sessions))
unfolding start_session end_session
session_life sessions id j = (
  elim (Option-cases (find id sessions)) [
    | inl fresh ↦ rw (fresh, start_session) (find-insert id j (new_session id) sessions)
    | inr (old, there) ↦
        rw (there, start_session)
          (sym (
            unchanged (find j sessions) (id == j) (new_session id) old
              (λ same. ap (λ i. find i sessions) (sym ((==_iff id j).0 same)) ∙ there)))
  ],
  find-erase id j sessions,
)

-- A request for a session that has ended is declined, and neither the sessions nor the response
-- change.
pub process_ended_session :
    (fs : ProcFs) (sessions : Manager) (session_id : ℕ) (k : Str) (id : ℤ) (response : Entries)
    → process fs (end_session sessions session_id) session_id k id response
      ≡ returns (end_session sessions session_id, response, false)
unfolding process
process_ended_session fs sessions session_id k id response =
    rw ((session_life sessions session_id session_id).1, ==_refl session_id, process)
