-- ===== src/AutoPtr.antt =====
-- include/kesrv/util/autoptr.hxx and generichandle.hxx: the sole owner of a pointer or of a handle. A
-- pointer is a number, zero is the null pointer; what was given to the deleter is recorded.
pub mod Ownership
pub mod Handles
use kexplorer_server.Prelude.{
  ℕ, zero, suc, Bool, true, false, List, [], ◌∷◌, ◌++◌, if◌then◌else◌, ◌==◌,
}

-- The owners of a program, and the pointers that were deleted.
pub record Owners : Type 0 where
  pub slots : List ℕ
  pub deleted : List ℕ

-- `if (m_ptr) d(m_ptr)`.
abbrev pub release : ℕ → List ℕ → List ℕ
release p ds = if p == 0 then ds else p ∷ ds

abbrev pub release_all : List ℕ → List ℕ → List ℕ
release_all [] ds = ds
release_all (p ∷ ps) ds = release_all ps (release p ds)

abbrev pub slot : ℕ → List ℕ → ℕ
slot i [] = 0
slot zero (p ∷ ps) = p
slot (suc i) (p ∷ ps) = slot i ps

abbrev pub put : ℕ → ℕ → List ℕ → List ℕ
put i q [] = []
put zero q (p ∷ ps) = q ∷ ps
put (suc i) q (p ∷ ps) = p ∷ put i q ps

-- The constructor.
unfoldable pub construct : ℕ → Owners → Owners
construct p o = record o { slots = p ∷ o.slots }

-- `reset`.
unfoldable pub reset_ptr : ℕ → ℕ → Owners → Owners
reset_ptr i p o = record { slots = put i p o.slots; deleted = release (slot i o.slots) o.deleted }

-- The constructor that moves from owner `j`: swap with a null pointer.
unfoldable pub move_construct : ℕ → Owners → Owners
move_construct j o = record o { slots = slot j o.slots ∷ put j 0 o.slots }

-- The assignment that moves from owner `j` to owner `i`, which may be the same: a temporary owner takes
-- the pointer of `j`, is swapped with `i`, and is destroyed.
unfoldable pub move_assign : ℕ → ℕ → Owners → Owners
move_assign i j o =
    let tmp = slot j o.slots in
    let emptied = put j 0 o.slots in
    record { slots = put i tmp emptied; deleted = release (slot i emptied) o.deleted }

-- `GenericHandle::reset`: the new handle is stored only if the old one was valid.
unfoldable pub reset_handle : ℕ → ℕ → Owners → Owners
reset_handle i h o =
    if slot i o.slots == 0
    then o
    else record { slots = put i h o.slots; deleted = release (slot i o.slots) o.deleted }

-- The destructors of all owners, each a `reset()`; the order does not matter.
unfoldable pub destroy_owners : Owners → Owners
destroy_owners o = record { slots = []; deleted = release_all o.slots o.deleted }
