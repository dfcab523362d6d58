-- ===== src/Tests/Handling.antt =====
-- A kernel with the processes 1 and 2, and sessions that have listed it.
use kexplorer_server.Prelude.{
  ◌+◌, ◌%◌, ◌^◌, ◌≡◌, refl, true, false, Option, none, some, List, [], ◌∷◌, if◌then◌else◌, ◌==◌,
  arith,
}
use kexplorer_server.Prelude.Int.{ℤ, pos}
use kexplorer_server.Prelude.Map.{find, nat_eq, int_eq, or_else}
use kexplorer_server.Prelude.Outcome.{returns, undefined, map_outcome}
use kexplorer_server.Prelude.Text.{codes}
use kexplorer_server.Requests.{RequestProcessor}
use kexplorer_server.ProcFs.Stat.{Stat, no_stat}
use kexplorer_server.Handlers.Processes.{
  ProcFs, ProcessInfo, Session, Manager, read_process, read_processes, start_session, end_session,
}
use kexplorer_server.Handlers.Processes.Snapshot.{
  refreshed, listed, distinct, read_processes_initial, read_processes_ended,
}
use kexplorer_server.Handlers.Processes.Update.{keys, all_listed, read_processes_update}
use kexplorer_server.Handlers.Processes.Sessions.{new_session, session_life}

abbrev stat : Stat
stat = record no_stat { valid = true; pid = pos 1; ppid = pos 0; ruid = 0 }

abbrev kernel : ProcFs
kernel = record {
  pids = pos 1 ∷ pos 2 ∷ [];
  stat = λ pid. stat;
  comm = λ pid. codes "init";
  exe_path = λ pid. [];
  cmd_line = λ pid. [];
}

-- Process 3 has ended since it was listed.
abbrev ended : Session
ended = record {
  session_id = 5;
  timestamp = 1;
  processes = (pos 3, read_process kernel (pos 3) 1) ∷ [];
  removed_pids = [];
}

abbrev sessions : Manager
sessions = (5, ended) ∷ []

abbrev processor : RequestProcessor
processor = record { handlers = (codes "stop", 4) ∷ [] }

read_processes_initial_example :
    map_outcome {B = Option ProcessInfo × List ℤ}
      (λ s. (find (pos 2) s.processes, s.removed_pids))
      (read_processes kernel true ended)
    ≡ returns (
      if listed (pos 2) kernel.pids
          then some (read_process kernel (pos 2) ((1 + 1) % 2 ^ 32))
          else none,
      [],
    )
read_processes_initial_example = read_processes_initial kernel ended (pos 2)

read_processes_ended_example : read_processes kernel false ended ≡ undefined
unfolding distinct listed find read_process
read_processes_ended_example =
    read_processes_ended kernel ended (pos 3) (read_process kernel (pos 3) 1) refl refl refl
      (omega arith)

session_life_example :
    (find 6 (start_session sessions 6)
      ≡ or_else (find 6 sessions) (if 6 == 6 then some (new_session 6) else none))
    × (find 6 (end_session sessions 6) ≡ (if 6 == 6 then none else find 6 sessions))
session_life_example = session_life sessions 6 6

-- Process 1 is known, and process 2 is new.
abbrev running : Session
running = record ended { processes = (pos 1, read_process kernel (pos 1) 1) ∷ [] }

read_processes_update_example :
    (after : Session) × (read_processes kernel false running ≡ returns after)
    × (after.removed_pids ≡ [])
    × ((j : ℤ)
        → find j after.processes ≡ (
            if listed j kernel.pids
            then some (refreshed kernel ((1 + 1) % 2 ^ 32) j (find j running.processes))
            else none))
unfolding distinct listed keys all_listed
read_processes_update_example = read_processes_update kernel running refl refl refl
