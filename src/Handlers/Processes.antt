-- ===== src/Handlers/Processes.antt =====
-- src/kesrv/processmgr/processmanager.cxx: the process table that each session has seen. What
-- `ProcFs` reads of the kernel is an argument. `pid_t` and `uid_t` are integers.
pub mod Update
pub mod Snapshot
pub mod Sessions
use kexplorer_server.Prelude.{
  ℕ, ◌+◌, ◌%◌, ◌^◌, Bool, true, false, Option, none, some, List, [], ◌∷◌, if◌then◌else◌, ltb, null,
}
use kexplorer_server.Prelude.Int.{ℤ, pos}
use kexplorer_server.Prelude.Map.{find, insert, erase, replace, nat_eq, int_eq}
use kexplorer_server.Prelude.Outcome.{Outcome, returns, terminates, undefined, ◌>>=◌}
use kexplorer_server.Prelude.Text.{Str, codes, str_eq}
use kexplorer_server.Property.{Any, PropertyInfo}
use kexplorer_server.KnownProps.{
  request_id, response_status, process_deleted_process, process_process_list,
  process_process_list_key, process_deleted_process_list, process_error, process_newcomer,
  process_pid, process_ppid, process_pgrp, process_tpgid, process_session, process_ruid,
  process_stat_comm, process_comm, process_cmdline, process_exe,
}
use kexplorer_server.ProcFs.Stat.{Stat, to_int}
use kexplorer_server.Bag.{PropertyBag, Bags, Entries, add_value, add_bag, add_item, push_back}
use kexplorer_server.Prelude.Text.{c_str}

-- What `enumeratePids`, `readStat`, `readComm`, `readExePath` and `readCmdLine` return in one request.
pub record ProcFs : Type 0 where
  pub pids : List ℤ
  pub stat : ℤ → Stat
  pub comm : ℤ → Str
  pub exe_path : ℤ → Str
  pub cmd_line : ℤ → Str

pub record ProcessInfo : Type 0 where
  pub timestamp : ℕ
  pub newcomer : Bool
  pub stat : Stat
  pub comm : Str
  pub exe : Str
  pub cmd_line : Str

pub record Session : Type 0 where
  pub session_id : ℕ
  pub timestamp : ℕ
  pub processes : List (ℤ × ProcessInfo)
  pub removed_pids : List ℤ

abbrev pub Manager : Type 0
Manager = List (ℕ × Session)

-- `readProcess`.
unfoldable pub read_process : ProcFs → ℤ → ℕ → ProcessInfo
read_process fs pid timestamp = record {
  timestamp = timestamp;
  newcomer = false;
  stat = fs.stat pid;
  comm = fs.comm pid;
  exe = fs.exe_path pid;
  cmd_line = fs.cmd_line pid;
}

-- The body of the loop of `readProcesses`.
unfoldable pub enter : Bool → ℤ → ProcessInfo → List (ℤ × ProcessInfo) → List (ℤ × ProcessInfo)
enter true pid info m = (insert pid info m).0
enter false pid info m = elim (find pid m) [
  | none ↦ (insert pid (record info { newcomer = true }) m).0
  | some old ↦ replace pid info m
]

unfoldable pub enter_all :
    Bool → ProcFs → ℕ → List ℤ → List (ℤ × ProcessInfo) → List (ℤ × ProcessInfo)
unfolding enter read_process
enter_all initial fs now [] m = m
enter_all initial fs now (pid ∷ pids) m =
    enter_all initial fs now pids (enter initial pid (read_process fs pid now) m)

-- The loop that detects deleted processes: an entry of an older timestamp is erased, and next the
-- iterator at it is incremented, which is undefined.
unfoldable pub detect_deleted : ℕ → List (ℤ × ProcessInfo) → Outcome (Unit {0})
detect_deleted now [] = returns tt
detect_deleted now ((pid, info) ∷ m) =
    let rest = detect_deleted now m in if ltb info.timestamp now then undefined else rest

-- `readProcesses`.
unfoldable pub read_processes : ProcFs → Bool → Session → Outcome Session
unfolding enter_all detect_deleted
read_processes fs initial session =
    let now = (session.timestamp + 1) % 2 ^ 32 in
    let before = if initial then [] else session.processes in
    let processes = enter_all initial fs now fs.pids before in
    let after : Session = record {
      session_id = session.session_id;
      timestamp = now;
      processes = processes;
      removed_pids = [];
    } in
    if initial then returns after else (detect_deleted now processes >>= λ _. returns after)

-- `if (!s.empty()) Util::addToTable<...>(table, s)`.
abbrev add_text : PropertyInfo → Str → Entries → Entries
add_text pi s es = if null s then es else add_value pi (Any.string s) es

-- `ProcessInfo::serialize`, the entries of its table.
unfoldable pub serialize : ProcessInfo → Entries
serialize info =
    let stat = info.stat in
    let head = add_value process_pid (Any.int stat.pid) Entries.end in
    let table = if info.newcomer then add_value process_newcomer (Any.bool true) head else head in
    if stat.valid
    then (let t1 = add_value process_ppid (Any.int stat.ppid) table in
        let t2 = add_value process_pgrp (Any.int stat.pgrp) t1 in
        let t3 = add_value process_tpgid (Any.int stat.tpgid) t2 in
        let t4 = add_value process_session (Any.int stat.session) t3 in
        let t5 = add_value process_comm (Any.string info.comm) t4 in
        let t6 = add_value process_ruid (Any.int (to_int (pos stat.ruid))) t5 in
        let t7 = add_text process_stat_comm info.comm t6 in
        let t8 = add_text process_exe info.exe t7 in add_text process_cmdline info.cmd_line t8)
    else add_value process_error (Any.string stat.error) table

unfoldable pub list_all : List (ℤ × ProcessInfo) → Bags → Bags
unfolding serialize
list_all [] bs = bs
list_all ((pid, info) ∷ m) bs = list_all m (push_back bs (PropertyBag.table [] (serialize info)))

unfoldable pub list_removed : List ℤ → Bags → Bags
list_removed [] bs = bs
list_removed (pid ∷ pids) bs = list_removed pids (add_item process_deleted_process (Any.int pid) bs)

-- `listProcesses` behind `readProcesses`. Both arrays have the name of the first.
unfoldable pub describe : Bool → Session → ℤ → Entries → Entries
unfolding list_all list_removed
describe initial session id response =
    let listed =
      add_bag process_process_list
        (PropertyBag.array process_process_list_key (list_all session.processes Bags.nil))
        response in
    let deleted =
      if initial
      then listed
      else add_bag process_deleted_process_list
          (PropertyBag.array process_process_list_key (list_removed session.removed_pids Bags.nil))
          listed in
    add_value response_status (Any.string (codes "success"))
      (add_value request_id (Any.int id) deleted)

unfoldable pub list_processes :
    ProcFs → Bool → Session → ℤ → Entries → Outcome (Session × Entries × Bool)
unfolding read_processes describe
list_processes fs initial session id response = read_processes fs initial session >>= λ session'.
    returns (session', describe initial session' id response, true)

-- The two functions `process`. A session is changed in place.
unfoldable pub process_session_request :
    ProcFs → Session → Str → ℤ → Entries → Outcome (Session × Entries × Bool)
unfolding list_processes
process_session_request fs session k id response =
    if str_eq (c_str k) (codes "list_processes")
    then list_processes fs true session id response
    else (if str_eq (c_str k) (codes "diff_processes")
        then list_processes fs false session id response
        else returns (session, response, false))

unfoldable pub process :
    ProcFs → Manager → ℕ → Str → ℤ → Entries → Outcome (Manager × Entries × Bool)
unfolding process_session_request
process fs sessions session_id k id response = elim (find session_id sessions) [
  | none ↦ returns (sessions, response, false)
  | some session ↦
      process_session_request fs session k id response >>= λ (session', response', done).
      returns (replace session_id session' sessions, response', done)
]

unfoldable pub start_session : Manager → ℕ → Manager
start_session sessions id = elim (find id sessions) [
  | some _ ↦ sessions
  | none ↦
      (insert id (record { session_id = id; timestamp = 0; processes = []; removed_pids = [] })
        sessions).0
]

unfoldable pub end_session : Manager → ℕ → Manager
end_session sessions id = erase id sessions
