-- ===== src/ProcFs/Line/Fields.antt =====
-- How a line is cut into fields, and what the fields from the eighth on leave alone.
use kexplorer_server.Prelude.{
  ℕ, zero, suc, ◌+◌, ◌≤◌, ◌≡◌, refl, ap, sym, ◌∙◌, Bool, true, false, Option, none, some, [], ◌∷◌,
  ◌++◌, ◌==◌, ==_ne, length, length-append, append_assoc, Bool-cases, Option-cases, inl, inr, arith,
  get_or,
}
use kexplorer_server.Prelude.Int.{ℤ}
use kexplorer_server.Prelude.Text.{Str}
use kexplorer_server.ProcFs.Stat.{Stat, set_field}
use kexplorer_server.ProcFs.Line.{
  pieces, first_line, stops, last_paren, keep, take_field, read_fields,
}

-- Bytes that neither end a field nor open a parenthesis.
abbrev pub Plain : Str → Type 0
Plain [] = Unit {0}
Plain (c ∷ s) = (stops c ≡ false) × ((c == b'(') ≡ false) × Plain s

-- The end of a field.
abbrev pub Stopped : Str → Type 0
Stopped [] = Unit {0}
Stopped (c ∷ s) = stops c ≡ true

pub take_field-Stopped : (r : Str) → Stopped r → take_field 0 r ≡ some ([], r)
unfolding take_field
take_field-Stopped [] h = refl
take_field-Stopped (c ∷ s) h = rw (h, take_field)

pub take_field-Plain : (t r : Str) → Plain t → Stopped r → take_field 0 (t ++ r) ≡ some (t, r)
unfolding take_field
take_field-Plain [] r p h = take_field-Stopped r h
take_field-Plain (c ∷ t) r (a, b, p) h = rw (a, b, take_field, take_field-Plain t r p h)

take_field_skip : (p r : Str) → Stopped r → take_field (length p) (p ++ r) ≡ some (p, r)
unfolding take_field
take_field_skip [] r h = take_field-Stopped r h
take_field_skip (c ∷ p) r h = ap (keep c) (take_field_skip p r h)

-- Bytes of a process's name: any but NUL.
abbrev pub Name : Str → Type 0
Name [] = Unit {0}
Name (c ∷ s) = ((c == 0) ≡ false) × Name s

-- Bytes that do not end a line.
abbrev pub Unbroken : Str → Type 0
Unbroken [] = Unit {0}
Unbroken (c ∷ s) = ((c == 10) ≡ false) × Unbroken s

pub append-Unbroken : (s t : Str) → Unbroken s → Unbroken t → Unbroken (s ++ t)
append-Unbroken [] t a b = b
append-Unbroken (c ∷ s) t (e, a) b = (e, append-Unbroken s t a b)

-- The first piece, in a text that has one.
piece-Unbroken : (s more : Str) → Unbroken s → pieces 10 (s ++ (10 ∷ more)) ≡ s ∷ pieces 10 more
unfolding pieces
piece-Unbroken [] more u = refl
piece-Unbroken (c ∷ s) more (e, u) = rw (e, piece-Unbroken s more u, pieces)

pub first_line-Unbroken : (s more : Str) → Unbroken s → first_line (s ++ (10 ∷ more)) ≡ s
first_line-Unbroken s more u = ap (λ ls. get_or ls 0 []) (piece-Unbroken s more u)

pub last_paren-append :
    (name rest : Str)
    → Name name
    → last_paren rest ≡ none
    → last_paren (name ++ (b')' ∷ rest)) ≡ some (length name)
unfolding last_paren
last_paren-append [] rest n h = rw (h, last_paren)
last_paren-append (c ∷ name) rest (a, n) h =
    rw (a, last_paren, last_paren-append name rest n h) (ap some (omega arith))

pub take_field_name :
    (name rest : Str)
    → Name name
    → last_paren rest ≡ none
    → Stopped rest
    → take_field 0 (b'(' ∷ (name ++ (b')' ∷ rest))) ≡ some (b'(' ∷ (name ++ (b')' ∷ [])), rest)
unfolding take_field
take_field_name name rest n h st =
    rw (last_paren-append name rest n h, take_field) (ap (keep b'(') passed)
  where
    long : length name + 1 ≡ length (name ++ (b')' ∷ []))
    long = omega (arith, length-append name (b')' ∷ []))

    apart : name ++ (b')' ∷ rest) ≡ (name ++ (b')' ∷ [])) ++ rest
    apart = sym (append_assoc name (b')' ∷ []) rest)

    passed : take_field (length name + 1) (name ++ (b')' ∷ rest)) ≡ some (name ++ (b')' ∷ []), rest)
    passed = (λ i. take_field (long i) (apart i)) ∙ take_field_skip (name ++ (b')' ∷ [])) rest st

-- What a field leaves is no longer than what it was given.
abbrev left : Option (Str × Str) → ℕ
left none = 0
left (some (f, r)) = length r

left-keep : (c : ℕ) (o : Option (Str × Str)) → left (keep c o) ≡ left o
left-keep c none = refl
left-keep c (some (f, r)) = refl

left-take_field : (n : ℕ) (s : Str) → left (take_field n s) ≤ length s
unfolding take_field
left-take_field n [] = omega arith
left-take_field (suc n) (c ∷ s) = omega (arith, left-keep c (take_field n s), left-take_field n s)
left-take_field zero (c ∷ s) = elim (Bool-cases (stops c)) [
  | inl ends ↦ rw (ends, take_field) (omega arith)
  | inr more ↦ elim (Bool-cases (c == b'(')) [
    | inr plain ↦
        rw (more, plain, take_field)
          (omega (arith, left-keep c (take_field 0 s), left-take_field 0 s))
    | inl opens ↦ elim (Option-cases (last_paren s)) [
      | inl open_ended ↦ rw (more, opens, open_ended, take_field) (omega arith)
      | inr (i, closes) ↦
          rw (more, opens, closes, take_field)
            (omega (arith, left-keep c (take_field (i + 1) s), left-take_field (i + 1) s))
    ]
  ]
]

pub take_field-length :
    (n : ℕ) (s : Str) {f r : Str} → take_field n s ≡ some (f, r) → length r ≤ length s
take_field-length n s h = omega (arith, ap left h, left-take_field n s)

module _ (strtod : Str → ℤ) where
  -- Any fuel that covers the text gives the same.
  pub read_fields_fuel :
      (f g i : ℕ) (s : Str) (st : Stat)
      → length s ≤ f
      → length s ≤ g
      → read_fields strtod f i s st ≡ read_fields strtod g i s st
  unfolding read_fields
  read_fields_fuel f g i [] st h k = refl
  read_fields_fuel zero g i (c ∷ s) st h k = absurd (omega arith)
  read_fields_fuel (suc f) zero i (c ∷ s) st h k = absurd (omega arith)
  read_fields_fuel (suc f) (suc g) i (c ∷ s) st h k = elim (Option-cases (take_field 0 s)) [
    | inl bad ↦ rw (bad, read_fields)
    | inr ((t, r), good) ↦
        let shorter = take_field-length 0 s good in
        rw (good, read_fields)
          (read_fields_fuel f g (i + 1) r (set_field strtod i (c ∷ t) (c ∷ s) st) (omega arith)
            (omega arith))
  ]

  abbrev pub fields : ℕ → Str → Stat → Stat × Bool
  fields i s st = read_fields strtod (length s) i s st

  -- One round, for a field that is known.
  pub fields_step :
      (i c : ℕ) (s t r : Str) (st : Stat)
      → take_field 0 s ≡ some (t, r)
      → fields i (c ∷ s) st ≡ fields (i + 1) r (set_field strtod i (c ∷ t) (c ∷ s) st)
  unfolding read_fields
  fields_step i c s t r st h =
      rw (h, read_fields)
        (read_fields_fuel (length s) (length r) (i + 1) r _ (take_field-length 0 s h) (omega arith))

  -- The fields that a process list shows.
  abbrev pub early : Stat → ℤ × Str × ℕ × ℤ × ℤ × ℤ × ℤ × ℤ
  early st = (st.pid, st.comm, st.state, st.ppid, st.pgrp, st.session, st.tty_nr, st.tpgid)

  set_field_late :
      (i : ℕ) (field from : Str) (st : Stat)
      → 8 ≤ i
      → early (set_field strtod i field from st) ≡ early st
  unfolding set_field
  set_field_late i field from st h =
      let e0 : (i == 0) ≡ false = ==_ne i 0 (λ e. omega (arith, e)) in
      let e1 : (i == 1) ≡ false = ==_ne i 1 (λ e. omega (arith, e)) in
      let e2 : (i == 2) ≡ false = ==_ne i 2 (λ e. omega (arith, e)) in
      let e3 : (i == 3) ≡ false = ==_ne i 3 (λ e. omega (arith, e)) in
      let e4 : (i == 4) ≡ false = ==_ne i 4 (λ e. omega (arith, e)) in
      let e5 : (i == 5) ≡ false = ==_ne i 5 (λ e. omega (arith, e)) in
      let e6 : (i == 6) ≡ false = ==_ne i 6 (λ e. omega (arith, e)) in
      let e7 : (i == 7) ≡ false = ==_ne i 7 (λ e. omega (arith, e)) in
      rw (e0, e1, e2, e3, e4, e5, e6, e7)

  pub read_fields_late :
      (f i : ℕ) (s : Str) (st : Stat) → 8 ≤ i → early (read_fields strtod f i s st).0 ≡ early st
  unfolding read_fields
  read_fields_late f i [] st h = refl
  read_fields_late zero i (c ∷ s) st h = refl
  read_fields_late (suc f) i (c ∷ s) st h = elim (Option-cases (take_field 0 s)) [
    | inl bad ↦ rw (bad, read_fields)
    | inr ((t, r), good) ↦
        rw (good, read_fields)
          (read_fields_late f (i + 1) r (set_field strtod i (c ∷ t) (c ∷ s) st) (omega arith)
            ∙ set_field_late i (c ∷ t) (c ∷ s) st h)
  ]

-- No opening parenthesis.
abbrev pub Unopened : Str → Type 0
Unopened [] = Unit {0}
Unopened (c ∷ s) = ((c == b'(') ≡ false) × Unopened s

take_field-Unopened :
    (s : Str) → Unopened s → (t : Str) × (r : Str) × (take_field 0 s ≡ some (t, r)) × Unopened r
unfolding take_field
take_field-Unopened [] u = ([], [], refl, tt)
take_field-Unopened (c ∷ s) (a, u) = elim (Bool-cases (stops c)) [
  | inl ends ↦ ([], c ∷ s, rw (ends, take_field), (a, u))
  | inr more ↦
      let (t, r, e, v) = take_field-Unopened s u in
      (c ∷ t, r, rw (more, a, take_field) (ap (keep c) e), v)
]

pub read_fields-Unopened :
    (strtod : Str → ℤ) (f i : ℕ) (s : Str) (st : Stat)
    → length s ≤ f
    → Unopened s
    → (read_fields strtod f i s st).1 ≡ true
unfolding read_fields
read_fields-Unopened strtod f i [] st h u = refl
read_fields-Unopened strtod zero i (c ∷ s) st h u = absurd (omega arith)
read_fields-Unopened strtod (suc f) i (c ∷ s) st h (a, u) =
    let (t, r, e, v) = take_field-Unopened s u in
    rw (e, read_fields)
      (read_fields-Unopened strtod f (i + 1) r (set_field strtod i (c ∷ t) (c ∷ s) st)
        (omega (arith, take_field-length 0 s e)) v)
