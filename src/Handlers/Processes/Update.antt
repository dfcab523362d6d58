-- ===== src/Handlers/Processes/Update.antt =====
-- A difference of the process list in which no process has ended.
use kexplorer_server.Prelude.{
  ℕ, ◌+◌, ◌%◌, ◌^◌, ◌≡◌, inl, inr, refl, ap, ◌∙◌, sym, Bool, true, false, ◌||◌, ◌&&◌, none, some,
  List, [], ◌∷◌, ◌++◌, if◌then◌else◌, ◌==◌, Bool-cases, Option-cases, arith,
}
use kexplorer_server.Prelude.Int.{ℤ, eq_ℤ, eq_ℤ_iff}
use kexplorer_server.Prelude.Map.{find, replace, int_eq, insert_missing}
use kexplorer_server.Prelude.Outcome.{returns}
use kexplorer_server.Handlers.Processes.{
  ProcFs, ProcessInfo, Session, read_process, enter, enter_all, detect_deleted, read_processes,
}
use kexplorer_server.Handlers.Processes.Snapshot.{
  listed, distinct, refreshed, find-enter_all_update,
}

-- The keys of the table.
unfoldable pub keys : List (ℤ × ProcessInfo) → List ℤ
keys [] = []
keys ((k, v) ∷ m) = k ∷ keys m

-- Each entry is of this time, or its pid is listed.
unfoldable pub current : ℕ → List ℤ → List (ℤ × ProcessInfo) → Bool
current now pids [] = true
current now pids ((k, v) ∷ m) = ((v.timestamp == now) || listed k pids) && current now pids m

find-keys : (k : ℤ) (m : List (ℤ × ProcessInfo)) → find k m ≡ none → listed k (keys m) ≡ false
unfolding find listed keys
find-keys k [] h = refl
find-keys k ((j, v) ∷ m) h = ground (arith, find-keys k m)

keys-replace :
    (k : ℤ) (v : ProcessInfo) (m : List (ℤ × ProcessInfo)) → keys (replace k v m) ≡ keys m
unfolding replace keys
keys-replace k v [] = refl
keys-replace k v ((j, w) ∷ m) = elim (Bool-cases (eq_ℤ j k)) [
  | inl h ↦ rw h
  | inr h ↦ rw h (ap (λ t. j ∷ t) (keys-replace k v m))
]

listed-append :
    (j k : ℤ) (v : ProcessInfo) (m : List (ℤ × ProcessInfo))
    → listed j (keys (m ++ ((k, v) ∷ []))) ≡ (listed j (keys m) || eq_ℤ k j)
unfolding listed keys
listed-append j k v [] = ground arith
listed-append j k v ((i, w) ∷ m) = ground (arith, listed-append j k v m)

distinct-append :
    (k : ℤ) (v : ProcessInfo) (m : List (ℤ × ProcessInfo))
    → listed k (keys m) ≡ false
    → distinct (keys m) ≡ true
    → distinct (keys (m ++ ((k, v) ∷ []))) ≡ true
unfolding distinct keys listed
distinct-append k v [] h d = refl
distinct-append k v ((j, w) ∷ m) h d =
    ground (arith, distinct-append k v m, listed-append j k v m, eq_ℤ_iff j k, eq_ℤ_iff k j)

current-append :
    (now : ℕ) (pids : List ℤ) (k : ℤ) (v : ProcessInfo) (m : List (ℤ × ProcessInfo))
    → v.timestamp ≡ now
    → current now pids m ≡ true
    → current now pids (m ++ ((k, v) ∷ [])) ≡ true
unfolding current
current-append now pids k v [] e c = ground arith
current-append now pids k v ((j, w) ∷ m) e c = ground (arith, current-append now pids k v m)

-- A pid that is no key need not be listed.
current-unused :
    (now : ℕ) (pid : ℤ) (pids : List ℤ) (m : List (ℤ × ProcessInfo))
    → listed pid (keys m) ≡ false
    → current now (pid ∷ pids) m ≡ true
    → current now pids m ≡ true
unfolding current listed keys
current-unused now pid pids [] h c = refl
current-unused now pid pids ((j, w) ∷ m) h c =
    ground (arith, current-unused now pid pids m, eq_ℤ_iff j pid, eq_ℤ_iff pid j)

current-replace :
    (now : ℕ) (pid : ℤ) (v : ProcessInfo) (pids : List ℤ) (m : List (ℤ × ProcessInfo))
    → v.timestamp ≡ now
    → distinct (keys m) ≡ true
    → current now (pid ∷ pids) m ≡ true
    → current now pids (replace pid v m) ≡ true
unfolding current listed keys replace distinct
current-replace now pid v pids [] e d c = refl
current-replace now pid v pids ((j, w) ∷ m) e d c = elim (Bool-cases (eq_ℤ j pid)) [
  | inl same ↦ rw same (
      ground (
        arith,
        current-unused now pid pids m
            (ap (λ i. listed i (keys m)) (sym ((eq_ℤ_iff j pid).0 same)) ∙ ground arith),
      ))
  | inr other ↦
      rw other (ground (arith, current-replace now pid v pids m, eq_ℤ_iff j pid, eq_ℤ_iff pid j))
]

detect_deleted-current :
    (now : ℕ) (m : List (ℤ × ProcessInfo))
    → current now [] m ≡ true
    → detect_deleted now m ≡ returns tt
unfolding detect_deleted current listed
detect_deleted-current now [] c = refl
detect_deleted-current now ((j, w) ∷ m) c = ground (arith, detect_deleted-current now m)

enter-current :
    (fs : ProcFs) (now : ℕ) (pid : ℤ) (pids : List ℤ) (m : List (ℤ × ProcessInfo))
    → distinct (keys m) ≡ true
    → current now (pid ∷ pids) m ≡ true
    → (distinct (keys (enter false pid (read_process fs pid now) m)) ≡ true)
      × (current now pids (enter false pid (read_process fs pid now) m) ≡ true)
unfolding enter read_process
enter-current fs now pid pids m d c = elim (Option-cases (find pid m)) [
  | inl fresh ↦
      let info : ProcessInfo = record (read_process fs pid now) { newcomer = true } in
      let unused = find-keys pid m fresh in
      rw (fresh, enter, insert_missing pid info m fresh)
        (
          distinct-append pid info m unused d,
          current-append now pids pid info m refl (current-unused now pid pids m unused c),
        )
  | inr (old, there) ↦
      rw (there, enter)
        (
          rw (keys-replace pid (read_process fs pid now) m) d,
          current-replace now pid (read_process fs pid now) pids m refl d c,
        )
]

enter_all-current :
    (fs : ProcFs) (now : ℕ) (pids : List ℤ) (m : List (ℤ × ProcessInfo))
    → distinct (keys m) ≡ true
    → current now pids m ≡ true
    → current now [] (enter_all false fs now pids m) ≡ true
unfolding enter_all
enter_all-current fs now [] m d c = c
enter_all-current fs now (pid ∷ pids) m d c =
    let (d', c') = enter-current fs now pid pids m d c in
    enter_all-current fs now pids (enter false pid (read_process fs pid now) m) d' c'

unfoldable pub all_listed : List ℤ → List ℤ → Bool
all_listed [] pids = true
all_listed (k ∷ ks) pids = listed k pids && all_listed ks pids

current-all_listed :
    (now : ℕ) (pids : List ℤ) (m : List (ℤ × ProcessInfo))
    → all_listed (keys m) pids ≡ true
    → current now pids m ≡ true
unfolding current keys all_listed
current-all_listed now pids [] a = refl
current-all_listed now pids ((j, w) ∷ m) a = ground (arith, current-all_listed now pids m)

find-unlisted :
    (j : ℤ) (pids : List ℤ) (m : List (ℤ × ProcessInfo))
    → all_listed (keys m) pids ≡ true
    → listed j pids ≡ false
    → find j m ≡ none
unfolding find keys all_listed
find-unlisted j pids [] a l = refl
find-unlisted j pids ((k, w) ∷ m) a l = elim (Bool-cases (eq_ℤ k j)) [
  | inl same ↦
      let here : listed k pids ≡ true = ground arith in
      let agree : listed k pids ≡ listed j pids = ap (λ i. listed i pids) ((eq_ℤ_iff k j).0 same) in
      cc
  | inr other ↦ rw other (find-unlisted j pids m (ground arith) l)
]

-- If no pid is listed twice, the session holds no pid twice and every process that it holds is
-- still listed, then a difference comes back with exactly the listed pids, each with what is read
-- of it now, new ones marked as newcomers, and names no removed pid.
pub read_processes_update :
    (fs : ProcFs) (session : Session)
    → distinct fs.pids ≡ true
    → distinct (keys session.processes) ≡ true
    → all_listed (keys session.processes) fs.pids ≡ true
    → let now = (session.timestamp + 1) % 2 ^ 32 in
      (after : Session) × (read_processes fs false session ≡ returns after)
      × (after.removed_pids ≡ [])
      × ((j : ℤ)
          → find j after.processes ≡ (
              if listed j fs.pids
              then some (refreshed fs now j (find j session.processes))
              else none))
unfolding read_processes
read_processes_update fs session once unique kept =
    let now = (session.timestamp + 1) % 2 ^ 32 in
    let m = session.processes in
    let clean =
      detect_deleted-current now (enter_all false fs now fs.pids m)
        (enter_all-current fs now fs.pids m unique (current-all_listed now fs.pids m kept)) in
    (
      record {
        session_id = session.session_id;
        timestamp = now;
        processes = enter_all false fs now fs.pids m;
        removed_pids = [];
      },
      rw clean,
      refl,
      λ j. find-enter_all_update j fs now fs.pids m once ∙ elim (Bool-cases (listed j fs.pids)) [
        | inl here ↦ rw here
        | inr gone ↦ rw gone (find-unlisted j fs.pids m kept gone)
      ],
    )
