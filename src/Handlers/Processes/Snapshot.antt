-- ===== src/Handlers/Processes/Snapshot.antt =====
-- What a session's process table holds after the process list is read.
use kexplorer_server.Prelude.{
  ℕ, ◌+◌, ◌%◌, ◌^◌, ◌<◌, ◌≡◌, inl, inr, refl, ap, ◌∙◌, sym, Bool, true, false, not, ◌||◌, ◌&&◌,
  Option, none, some, List, [], ◌∷◌, if◌then◌else◌, ltb, lt→ltb, Bool-cases, Option-cases, arith,
}
use kexplorer_server.Prelude.Int.{ℤ, eq_ℤ, eq_ℤ_iff}
use kexplorer_server.Prelude.Map.{find, int_eq, or_else, or_else-none, find-insert, find-replace}
use kexplorer_server.Prelude.Outcome.{returns, undefined, map_outcome}
use kexplorer_server.Handlers.Processes.{
  ProcFs, ProcessInfo, Session, read_process, enter, enter_all, detect_deleted, read_processes,
}

-- Whether a pid is listed.
unfoldable pub listed : ℤ → List ℤ → Bool
listed j [] = false
listed j (pid ∷ pids) = eq_ℤ pid j || listed j pids

-- No pid is listed twice.
unfoldable pub distinct : List ℤ → Bool
distinct [] = true
distinct (pid ∷ pids) = not (listed pid pids) && distinct pids

if_free :
    (o : Option ProcessInfo) (t : Bool) (x : ProcessInfo)
    → (t ≡ true → o ≡ none)
    → or_else o (if t then some x else none) ≡ (if t then some x else o)
if_free o true x h = rw (h refl)
if_free o false x h = or_else-none o

merge :
    (o : Option ProcessInfo) (t l : Bool) (x y : ProcessInfo)
    → (t ≡ true → x ≡ y)
    → or_else (or_else o (if t then some x else none)) (if l then some y else none)
      ≡ or_else o (if t || l then some y else none)
merge (some z) t l x y h = refl
merge none true l x y h = ap some (h refl)
merge none false l x y h = refl

once :
    (t l : Bool) (o : Option ProcessInfo) (x : ProcessInfo) (f : Option ProcessInfo → ProcessInfo)
    → (t ≡ true → l ≡ false)
    → (t ≡ true → x ≡ f o)
    → (if l then some (f (if t then some x else o)) else (if t then some x else o))
      ≡ (if t || l then some (f o) else o)
once true l o x f h k = rw (h refl) (ap some (k refl))
once false l o x f h k = refl

find-enter_initial :
    (j pid : ℤ) (info : ProcessInfo) (m : List (ℤ × ProcessInfo))
    → find j (enter true pid info m) ≡ or_else (find j m) (if eq_ℤ pid j then some info else none)
unfolding enter
find-enter_initial j pid info m = find-insert pid j info m

-- What is read of a listed pid, given the entry that was there.
unfoldable pub refreshed : ProcFs → ℕ → ℤ → Option ProcessInfo → ProcessInfo
refreshed fs now j none = record (read_process fs j now) { newcomer = true }
refreshed fs now j (some old) = read_process fs j now

find-enter_update :
    (j pid : ℤ) (fs : ProcFs) (now : ℕ) (m : List (ℤ × ProcessInfo))
    → find j (enter false pid (read_process fs pid now) m)
      ≡ (if eq_ℤ pid j then some (refreshed fs now pid (find pid m)) else find j m)
unfolding enter refreshed
find-enter_update j pid fs now m = elim (Option-cases (find pid m)) [
  | inl fresh ↦
      rw (fresh, enter, refreshed)
        (find-insert pid j (record (read_process fs pid now) { newcomer = true }) m
          ∙ if_free (find j m) (eq_ℤ pid j) _
              (λ same. ap (λ i. find i m) (sym ((eq_ℤ_iff pid j).0 same)) ∙ fresh))
  | inr (old, there) ↦
      rw (there, enter, refreshed) (find-replace pid j (read_process fs pid now) m ∙ rw there)
]

-- The first list of a session holds what is read of each listed pid, and keeps what it held.
find-enter_all_initial :
    (j : ℤ) (fs : ProcFs) (now : ℕ) (pids : List ℤ) (m : List (ℤ × ProcessInfo))
    → find j (enter_all true fs now pids m)
      ≡ or_else (find j m) (if listed j pids then some (read_process fs j now) else none)
unfolding enter_all listed
find-enter_all_initial j fs now [] m = sym (or_else-none (find j m))
find-enter_all_initial j fs now (pid ∷ pids) m =
    find-enter_all_initial j fs now pids (enter true pid (read_process fs pid now) m)
    ∙ rw (find-enter_initial j pid (read_process fs pid now) m) (
        merge (find j m) (eq_ℤ pid j) (listed j pids) _ _
          (λ same. ap (λ i. read_process fs i now) ((eq_ℤ_iff pid j).0 same)))

pub find-enter_all_update :
    (j : ℤ) (fs : ProcFs) (now : ℕ) (pids : List ℤ) (m : List (ℤ × ProcessInfo))
    → distinct pids ≡ true
    → find j (enter_all false fs now pids m)
      ≡ (if listed j pids then some (refreshed fs now j (find j m)) else find j m)
unfolding enter_all listed distinct
find-enter_all_update j fs now [] m d = refl
find-enter_all_update j fs now (pid ∷ pids) m d =
    find-enter_all_update j fs now pids (enter false pid (read_process fs pid now) m) (ground arith)
    ∙ rw (find-enter_update j pid fs now m) (
        once (eq_ℤ pid j) (listed j pids) (find j m) _ (refreshed fs now j)
          (λ same. ap (λ i. listed i pids) (sym ((eq_ℤ_iff pid j).0 same)) ∙ ground arith)
          (λ same. ap (λ i. refreshed fs now i (find i m)) ((eq_ℤ_iff pid j).0 same)))

found_here :
    (t : Bool) (entry info : ProcessInfo) (o : Option ProcessInfo)
    → t ≡ true
    → (if t then some entry else o) ≡ some info
    → entry ≡ info
found_here true entry info o t h = cc
found_here false entry info o t h = cc

found_later :
    (t : Bool) (entry info : ProcessInfo) (o : Option ProcessInfo)
    → t ≡ false
    → (if t then some entry else o) ≡ some info
    → o ≡ some info
found_later true entry info o t h = cc
found_later false entry info o t h = h

detect_deleted_stale :
    (j : ℤ) (info : ProcessInfo) (now : ℕ) (m : List (ℤ × ProcessInfo))
    → find j m ≡ some info
    → info.timestamp < now
    → detect_deleted now m ≡ undefined
unfolding detect_deleted find
detect_deleted_stale j info now [] there old = cc
detect_deleted_stale j info now ((pid, entry) ∷ m) there old = elim (Bool-cases (eq_ℤ pid j)) [
  | inl same ↦
      let this : entry ≡ info = found_here (eq_ℤ pid j) entry info (find j m) same there in
      rw (this, lt→ltb _ _ old)
  | inr other ↦
      let rest : detect_deleted now m ≡ undefined =
        detect_deleted_stale j info now m
          (found_later (eq_ℤ pid j) entry info (find j m) other there) old in
      rw rest (elim (Bool-cases (ltb entry.timestamp now)) [ inl h ↦ rw h | inr h ↦ rw h ])
]

-- The first list of a session holds exactly the listed pids, each with what is read of it,
-- whatever the session held before, and names no removed pid.
pub read_processes_initial :
    (fs : ProcFs) (session : Session) (j : ℤ)
    → map_outcome {B = Option ProcessInfo × List ℤ}
        (λ s. (find j s.processes, s.removed_pids))
        (read_processes fs true session)
      ≡ returns (
        if listed j fs.pids
            then some (read_process fs j ((session.timestamp + 1) % 2 ^ 32))
            else none,
        [],
      )
unfolding read_processes find
read_processes_initial fs session j =
    ap (λ o. returns (o, []))
      (find-enter_all_initial j fs ((session.timestamp + 1) % 2 ^ 32) fs.pids [])

-- A difference of the process list has undefined behaviour if some process that the session holds,
-- with an older timestamp than the new one, is not listed any more, no pid being listed twice.
pub read_processes_ended :
    (fs : ProcFs) (session : Session) (j : ℤ) (info : ProcessInfo)
    → distinct fs.pids ≡ true
    → find j session.processes ≡ some info
    → listed j fs.pids ≡ false
    → info.timestamp < (session.timestamp + 1) % 2 ^ 32
    → read_processes fs false session ≡ undefined
unfolding read_processes
read_processes_ended fs session j info d there gone old =
    let now = (session.timestamp + 1) % 2 ^ 32 in
    let kept = find-enter_all_update j fs now fs.pids session.processes d ∙ rw gone there in
    rw (detect_deleted_stale j info now (enter_all false fs now fs.pids session.processes) kept old)
