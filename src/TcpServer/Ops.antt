-- ===== src/TcpServer/Ops.antt =====
-- How often an operation is under way in the server, and how often an id is in its vector.
use kexplorer_server.Prelude.{
  ◌<◌, ◌∙◌, ◌⊎◌, ℕ, ◌+◌, ◌≤◌, ◌≡◌, refl, ap, ap₂, subst, true, false, Option, none, some, List, [],
  ◌∷◌, ◌++◌, if◌then◌else◌, ◌==◌, ==_iff, arith, inl, inr, Bool-cases, Option-cases,
}
use kexplorer_server.Prelude.Text.{str_eq_iff}
use kexplorer_server.TcpServer.{Pending, same_op, has_session, remove_session, take_op}

abbrev pub ops : Pending → List Pending → ℕ
ops p [] = 0
ops p (q ∷ qs) = if same_op p q then ops p qs + 1 else ops p qs

abbrev pub times : ℕ → List ℕ → ℕ
times id [] = 0
times id (i ∷ ids) = if i == id then times id ids + 1 else times id ids

pub times-append :
    (id i : ℕ) (ids : List ℕ) → times id (ids ++ (i ∷ [])) ≡ times id ids + times id (i ∷ [])
times-append id i [] = omega arith
times-append id i (j ∷ ids) = ground (arith, times-append id i ids)

pub times_removed : (id k : ℕ) (ids : List ℕ) → times k (remove_session id ids) ≤ times k ids
unfolding remove_session
times_removed id k [] = omega arith
times_removed id k (i ∷ ids) = ground (arith, times_removed id k ids)

pub times_same :
    (id : ℕ) (ids : List ℕ)
    → has_session id ids ≡ true
    → times id (remove_session id ids) + 1 ≡ times id ids
unfolding remove_session has_session
times_same id [] h = cc
times_same id (i ∷ ids) h = ground (arith, times_same id ids)

pub has-times : (id : ℕ) (ids : List ℕ) → times id ids ≡ 0 → has_session id ids ≡ false
unfolding has_session
has-times id [] h = refl
has-times id (i ∷ ids) h = ground (arith, has-times id ids)

pub same_op_eq : (p q : Pending) → same_op p q ≡ true → p ≡ q
same_op_eq Pending.accepting Pending.accepting h = refl
same_op_eq Pending.retrying Pending.retrying h = refl
same_op_eq (Pending.reading a) (Pending.reading b) h = ap Pending.reading ((==_iff a b).0 h)
same_op_eq (Pending.writing a s) (Pending.writing b t) h =
    ap₂ Pending.writing ((==_iff a b).0 (ground (arith, h)))
      ((str_eq_iff s t).0 (ground (arith, h)))
same_op_eq Pending.accepting Pending.retrying h = cc
same_op_eq Pending.accepting (Pending.reading b) h = cc
same_op_eq Pending.accepting (Pending.writing b t) h = cc
same_op_eq Pending.retrying Pending.accepting h = cc
same_op_eq Pending.retrying (Pending.reading b) h = cc
same_op_eq Pending.retrying (Pending.writing b t) h = cc
same_op_eq (Pending.reading a) Pending.accepting h = cc
same_op_eq (Pending.reading a) Pending.retrying h = cc
same_op_eq (Pending.reading a) (Pending.writing b t) h = cc
same_op_eq (Pending.writing a t) Pending.accepting h = cc
same_op_eq (Pending.writing a t) Pending.retrying h = cc
same_op_eq (Pending.writing a t) (Pending.reading b) h = cc

-- An operation that completes is not under way any more, and no other one is touched.
abbrev Taken : Pending → Pending → ℕ → Option (List Pending) → Type 0
Taken p q n none = Unit {0}
Taken p q n (some rest) = n ≡ ops q rest + ops q (p ∷ [])

take_op-Taken : (p q : Pending) (ps : List Pending) → Taken p q (ops q ps) (take_op p ps)
unfolding take_op
take_op-Taken p q [] = tt
take_op-Taken p q (r ∷ ps) = elim (Bool-cases (same_op p r)) [
  | inl found ↦
      let same : same_op q p ≡ same_op q r = ap (same_op q) (same_op_eq p r found) in
      rw (found, take_op, same) (ground arith)
  | inr other ↦ elim (Option-cases (take_op p ps)) [
    | inl nowhere ↦ rw (other, take_op, nowhere) tt
    | inr (rest, later) ↦
        let k : ops q ps ≡ ops q rest + ops q (p ∷ []) =
          subst (Taken p q (ops q ps)) later (take_op-Taken p q ps) in
        rw (other, take_op, later) (ground (arith, k))
  ]
]

pub ops_taken :
    (p q : Pending) (ps : List Pending) {rest : List Pending}
    → take_op p ps ≡ some rest
    → ops q ps ≡ ops q rest + ops q (p ∷ [])
ops_taken p q ps h = subst (Taken p q (ops q ps)) h (take_op-Taken p q ps)

pub has-positive : (id : ℕ) (ids : List ℕ) → has_session id ids ≡ true → 0 < times id ids
unfolding has_session
has-positive id [] h = cc
has-positive id (i ∷ ids) h = ground (arith, has-positive id ids)

pub has-append :
    (k id : ℕ) (ids : List ℕ)
    → has_session k (ids ++ (id ∷ [])) ≡ true
    → (has_session k ids ≡ true) ⊎ (id ≡ k)
unfolding has_session
has-append k id [] h = inr ((==_iff id k).0 (ground (arith, h)))
has-append k id (i ∷ ids) h = ground (arith, has-append k id ids)

pub has-remove_session :
    (k id : ℕ) (ids : List ℕ)
    → has_session k (remove_session id ids) ≡ true
    → has_session k ids ≡ true
unfolding has_session remove_session
has-remove_session k id [] h = h
has-remove_session k id (i ∷ ids) h = ground (arith, has-remove_session k id ids)

-- What is held after a removal is another session.
pub removed_other :
    (k id : ℕ) (ids : List ℕ)
    → times id ids ≤ 1
    → has_session k (remove_session id ids) ≡ true
    → (id == k) ≡ false
removed_other k id ids once h = elim (Bool-cases (id == k)) [
  | inr other ↦ other
  | inl same ↦
      let e : id ≡ k = (==_iff id k).0 same in
      let still : has_session id (remove_session id ids) ≡ true =
        ap (λ i. has_session i (remove_session id ids)) e ∙ h in
      absurd (
        omega (
          arith,
          has-positive id (remove_session id ids) still,
          times_same id ids (has-remove_session id id ids still),
        ))
]
