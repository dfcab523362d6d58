-- ===== src/AutoPtr/Ownership.antt =====
-- Each pointer that was given to an owner is held by one, or was deleted.
use kexplorer_server.Prelude.{
  ℕ, zero, suc, ◌+◌, ◌<◌, ◌≡◌, refl, ap, List, [], ◌∷◌, ◌++◌, if◌then◌else◌, ◌==◌, arith, length,
}
use kexplorer_server.AutoPtr.{
  Owners, release, release_all, destroy_owners, slot, put, construct, reset_ptr, move_construct,
  move_assign,
}

-- How often a pointer occurs.
abbrev pub count : ℕ → List ℕ → ℕ
count p [] = 0
count p (q ∷ qs) = if q == p then suc (count p qs) else count p qs

abbrev pub held : ℕ → Owners → ℕ
held p o = count p o.slots + count p o.deleted

-- The calls, on owners that exist.
pub data Call : Type 0 where
  constructs : ℕ → Call
  resets : ℕ → ℕ → Call
  move_constructs : ℕ → Call
  move_assigns : ℕ → ℕ → Call

abbrev pub call : Call → Owners → Owners
call (Call.constructs p) o = construct p o
call (Call.resets i p) o = reset_ptr i p o
call (Call.move_constructs j) o = move_construct j o
call (Call.move_assigns i j) o = move_assign i j o

abbrev pub IsCall : Call → ℕ → Type 0
IsCall (Call.constructs p) n = Unit {0}
IsCall (Call.resets i p) n = i < n
IsCall (Call.move_constructs j) n = j < n
IsCall (Call.move_assigns i j) n = (i < n) × (j < n)

-- The pointers that a call hands over.
abbrev pub given : Call → List ℕ
given (Call.constructs p) = p ∷ []
given (Call.resets i p) = p ∷ []
given (Call.move_constructs j) = []
given (Call.move_assigns i j) = []

pub count-put :
    (p i q : ℕ) (ps : List ℕ)
    → i < length ps
    → count p (put i q ps) + count p (slot i ps ∷ []) ≡ count p ps + count p (q ∷ [])
count-put p i q [] h = absurd (omega arith)
count-put p zero q (r ∷ ps) h = ground arith
count-put p (suc i) q (r ∷ ps) h = ground (arith, count-put p i q ps)

pub count-release :
    (p q : ℕ) (ds : List ℕ) → 0 < p → count p (release q ds) ≡ count p ds + count p (q ∷ [])
count-release p q ds h = ground arith

pub length-put : (i q : ℕ) (ps : List ℕ) → length (put i q ps) ≡ length ps
length-put i q [] = refl
length-put zero q (p ∷ ps) = refl
length-put (suc i) q (p ∷ ps) = ap suc (length-put i q ps)

pub held-call :
    (p : ℕ) (c : Call) (o : Owners)
    → 0 < p
    → IsCall c (length o.slots)
    → held p (call c o) ≡ held p o + count p (given c)
unfolding construct reset_ptr move_construct move_assign
held-call p (Call.constructs q) o h k = ground arith
held-call p (Call.resets i q) o h k =
    omega (arith, count-put p i q o.slots k, count-release p (slot i o.slots) o.deleted h)
held-call p (Call.move_constructs j) o h k = ground (arith, count-put p j 0 o.slots k)
held-call p (Call.move_assigns i j) o h (k, l) =
    let emptied = put j 0 o.slots in
    let inside : i < length emptied = omega (arith, length-put j 0 o.slots, k) in
    ground (
      arith,
      count-put p j 0 o.slots l,
      count-put p i (slot j o.slots) emptied inside,
      count-release p (slot i emptied) o.deleted h,
    )

-- A sequence of calls, each on owners that exist by then.
pub data History : Owners → List ℕ → Owners → Type 0 where
  done : {o : Owners} → History o [] o
  then_call :
      {o o' : Owners} {ps : List ℕ} (c : Call)
      → IsCall c (length o.slots)
      → History (call c o) ps o'
      → History o (given c ++ ps) o'

pub count-append : (p : ℕ) (qs rs : List ℕ) → count p (qs ++ rs) ≡ count p qs + count p rs
count-append p [] rs = omega arith
count-append p (q ∷ qs) rs = ground (arith, count-append p qs rs)

pub held-History :
    (p : ℕ) {o o' : Owners} {ps : List ℕ}
    → 0 < p
    → History o ps o'
    → held p o' ≡ held p o + count p ps
held-History p h History.done = omega arith
held-History p {o} h (History.then_call {ps = ps} c k rest) =
    omega (arith, held-call p c o h k, held-History p h rest, count-append p (given c) ps)

pub count-release_all :
    (p : ℕ) (qs ds : List ℕ) → 0 < p → count p (release_all qs ds) ≡ count p qs + count p ds
count-release_all p [] ds h = omega arith
count-release_all p (q ∷ qs) ds h =
    ground (arith, count-release_all p qs (release q ds) h, count-release p q ds h)

-- After any sequence of constructions, resets and moves of pointer owners that exist by then,
-- starting from none, and the destruction of all owners, a pointer that is not null has been
-- deleted exactly as often as it was given to an owner.
pub deleted-History :
    (p : ℕ) {o : Owners} {ps : List ℕ}
    → 0 < p
    → History (record { slots = []; deleted = [] }) ps o
    → count p (destroy_owners o).deleted ≡ count p ps
unfolding destroy_owners
deleted-History p {o} h life =
    omega (arith, held-History p h life, count-release_all p o.slots o.deleted h)
