-- ===== src/AutoPtr/Handles.antt =====
-- The same of include/kesrv/util/generichandle.hxx, whose `reset` drops a handle that is given to an empty
-- owner.
use kexplorer_server.Prelude.{
  ℕ, ◌+◌, ◌<◌, ◌≡◌, List, [], ◌∷◌, ◌++◌, if◌then◌else◌, ◌==◌, arith, length,
}
use kexplorer_server.AutoPtr.{
  Owners, slot, destroy_owners, construct, reset_handle, move_construct, move_assign,
}
use kexplorer_server.AutoPtr.Ownership.{
  count, held, Call, IsCall, given, count-put, count-release, count-append, count-release_all,
  held-call,
}

-- The constructors and the move of a handle are those of a pointer.
abbrev pub call_handle : Call → Owners → Owners
call_handle (Call.resets i p) o = reset_handle i p o
call_handle (Call.constructs p) o = construct p o
call_handle (Call.move_constructs j) o = move_construct j o
call_handle (Call.move_assigns i j) o = move_assign i j o

-- The handles of a call that are kept.
abbrev pub stored : Call → Owners → List ℕ
stored (Call.resets i p) o = if slot i o.slots == 0 then [] else p ∷ []
stored c o = given c

held-call_handle :
    (p : ℕ) (c : Call) (o : Owners)
    → 0 < p
    → IsCall c (length o.slots)
    → held p (call_handle c o) ≡ held p o + count p (stored c o)
unfolding reset_handle
held-call_handle p (Call.resets i q) o h k =
    ground (arith, count-put p i q o.slots k, count-release p (slot i o.slots) o.deleted h)
held-call_handle p (Call.constructs q) o h k = held-call p (Call.constructs q) o h k
held-call_handle p (Call.move_constructs j) o h k = held-call p (Call.move_constructs j) o h k
held-call_handle p (Call.move_assigns i j) o h k = held-call p (Call.move_assigns i j) o h k

-- A sequence of calls, with the handles that they kept.
pub data HandleHistory : Owners → List ℕ → Owners → Type 0 where
  done : {o : Owners} → HandleHistory o [] o
  then_call :
      {o o' : Owners} {ps : List ℕ} (c : Call)
      → IsCall c (length o.slots)
      → HandleHistory (call_handle c o) ps o'
      → HandleHistory o (stored c o ++ ps) o'

held-HandleHistory :
    (p : ℕ) {o o' : Owners} {ps : List ℕ}
    → 0 < p
    → HandleHistory o ps o'
    → held p o' ≡ held p o + count p ps
held-HandleHistory p h HandleHistory.done = omega arith
held-HandleHistory p {o} h (HandleHistory.then_call {ps = ps} c k rest) =
    omega (
      arith,
      held-call_handle p c o h k,
      held-HandleHistory p h rest,
      count-append p (stored c o) ps,
    )

-- After any sequence of constructions, resets and moves of handle owners that exist by then,
-- starting from none, and the destruction of all owners, a valid handle has been closed exactly as
-- often as it was given to an owner, the resets of empty owners apart, which drop it.
pub closed-HandleHistory :
    (p : ℕ) {o : Owners} {ps : List ℕ}
    → 0 < p
    → HandleHistory (record { slots = []; deleted = [] }) ps o
    → count p (destroy_owners o).deleted ≡ count p ps
unfolding destroy_owners
closed-HandleHistory p {o} h life =
    omega (arith, held-HandleHistory p h life, count-release_all p o.slots o.deleted h)
