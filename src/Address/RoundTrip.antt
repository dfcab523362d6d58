-- ===== src/Address/RoundTrip.antt =====
-- Addresses of servers: what is printed is split again, and what a split gives.
use kexplorer_server.Prelude.{
  ℕ, ◌+◌, ◌%◌, ◌^◌, ◌<◌, ◌≡◌, refl, ap, sym, ◌∙◌, subst, false, Option, none, some, [], ◌∷◌, ◌++◌,
  take, drop, length, ltb, ◌==◌, arith, inl, inr, Bool-cases, Option-cases, length-take,
  take-append_left, take-length, drop-append, append-nil, lt→ltb, ==_ne, ==_iff,
}
use kexplorer_server.Prelude.Int.{pos}
use kexplorer_server.Prelude.Text.{Str, c_str}
use kexplorer_server.Prelude.Numerals.{strtoul, decimal, int_text, strtoul-decimal}
use kexplorer_server.ProcFs.Line.Numbers.{Numeral, int_text-Numeral}
use kexplorer_server.Address.{find_last_of, split_at, split_address}

-- A character does not occur.
abbrev pub Lacks : ℕ → Str → Type 0
Lacks c [] = Unit {0}
Lacks c (d ∷ s) = ((d == c) ≡ false) × Lacks c s

pub data Has (c : ℕ) : Str → Type 0 where
  here : {s : Str} → Has c (c ∷ s)
  there : {d : ℕ} {s : Str} → Has c s → Has c (d ∷ s)

find-Lacks : (c : ℕ) (s : Str) → Lacks c s → find_last_of c s ≡ none
unfolding find_last_of
find-Lacks c [] h = refl
find-Lacks c (d ∷ s) (a, h) = rw (find-Lacks c s h, find_last_of, a)

find_last : (c : ℕ) (s t : Str) → Lacks c t → find_last_of c (s ++ (c ∷ t)) ≡ some (length s)
unfolding find_last_of
find_last c [] t h = rw (find-Lacks c t h, find_last_of, (==_iff c c).1 refl)
find_last c (d ∷ s) t h = rw (find_last c s t h, find_last_of) (ap some (omega arith))

find-append : (c : ℕ) (s t : Str) → Lacks c t → find_last_of c (s ++ t) ≡ find_last_of c s
unfolding find_last_of
find-append c [] t h = find-Lacks c t h
find-append c (d ∷ s) t h = rw (find-append c s t h, find_last_of)

find-Has : (c : ℕ) (s : Str) → Has c s → (i : ℕ) × (find_last_of c s ≡ some i)
unfolding find_last_of
find-Has c [] h = elim h [ ]
find-Has c (d ∷ s) Has.here = elim (Option-cases (find_last_of c s)) [
  | inr (i, later) ↦ (i + 1, rw (later, find_last_of))
  | inl nowhere ↦ (0, rw (nowhere, find_last_of, (==_iff c c).1 refl))
]
find-Has c (d ∷ s) (Has.there m) =
    let (i, later) = find-Has c s m in (i + 1, rw (later, find_last_of))

-- A position lies inside the text.
abbrev Inside : ℕ → Option ℕ → Type 0
Inside n none = Unit {0}
Inside n (some i) = i < n

find-Inside : (c : ℕ) (s : Str) → Inside (length s) (find_last_of c s)
unfolding find_last_of
find-Inside c [] = tt
find-Inside c (d ∷ s) = elim (Option-cases (find_last_of c s)) [
  | inr (i, later) ↦
      let inside : i < length s = subst (Inside (length s)) later (find-Inside c s) in
      rw (later, find_last_of) (omega arith)
  | inl nowhere ↦ elim (Bool-cases (d == c)) [
    | inl found ↦ rw (nowhere, find_last_of, found) (omega arith)
    | inr other ↦ rw (nowhere, find_last_of, other) tt
  ]
]

-- The two forms, 127.0.0.1:8080 and ::1.8080: what parts the address from the port, and what occurs in
-- the address.
pub data Form : Type 0 where
  v4 v6 : Form

abbrev pub mark : Form → ℕ
mark Form.v4 = b':'
mark Form.v6 = b'.'

abbrev pub inner : Form → ℕ
inner Form.v4 = b'.'
inner Form.v6 = b':'

Numeral-Lacks : (f : Form) (s : Str) → Numeral s → Lacks (mark f) s × Lacks (inner f) s
Numeral-Lacks f [] n = (tt, tt)
Numeral-Lacks Form.v4 (d ∷ s) (a, n) =
    let (x, y) = Numeral-Lacks Form.v4 s n in ((ground arith, x), (ground arith, y))
Numeral-Lacks Form.v6 (d ∷ s) (a, n) =
    let (x, y) = Numeral-Lacks Form.v6 s n in ((ground arith, x), (ground arith, y))

Numeral-c_str : (s : Str) → Numeral s → c_str s ≡ s
unfolding c_str
Numeral-c_str [] n = refl
Numeral-c_str (d ∷ s) (a, n) =
    let some_char : (d == 0) ≡ false = ground arith in rw (some_char, Numeral-c_str s n)

decimal-Numeral : (n : ℕ) → Numeral (decimal n)
unfolding int_text
decimal-Numeral n = int_text-Numeral (pos n)

split_at-print :
    (c port : ℕ) (host : Str)
    → 0 < port
    → port < 2 ^ 16
    → split_at (host ++ (c ∷ decimal port)) (length host) ≡ some (host, port)
unfolding split_at
split_at-print c port host h k =
    let cut : take (length host) (host ++ (c ∷ decimal port)) ≡ host =
      take-append_left (length host) host _ (omega arith) ∙ take-length (length host) host refl in
    let rest : drop (length host + 1) (host ++ (c ∷ decimal port)) ≡ decimal port =
      drop-append (length host + 1) 1 host (c ∷ decimal port) refl in
    let number : strtoul (decimal port) ≡ port =
      ap strtoul (sym (append-nil (decimal port))) ∙ strtoul-decimal port [] (omega arith) tt in
    let small : port % 2 ^ 16 ≡ port = omega arith in
    rw (
      rest,
      Numeral-c_str (decimal port) (decimal-Numeral port),
      number,
      small,
      ==_ne port 0 (omega arith),
      cut,
    )

-- An address that holds the other mark, the mark of its form and a port from 1 to 65535 in decimal
-- are split into that address and that port, in both forms.
pub split_address-print :
    (f : Form) (host : Str) (port : ℕ)
    → Has (inner f) host
    → 0 < port
    → port < 2 ^ 16
    → split_address (host ++ (mark f ∷ decimal port)) ≡ some (host, port)
unfolding split_address
split_address-print Form.v4 host port m h k =
    let (x, y) = Numeral-Lacks Form.v4 (decimal port) (decimal-Numeral port) in
    let (i, dot) = find-Has b'.' host m in
    let inside : i < length host = subst (Inside (length host)) dot (find-Inside b'.' host) in
    let p0 = find-append b'.' host (b':' ∷ decimal port) (refl, y) ∙ dot in
    let p1 = find_last b':' host (decimal port) x in
    rw (p0, split_address, p1, lt→ltb i (length host) inside) (split_at-print b':' port host h k)
split_address-print Form.v6 host port m h k =
    let (x, y) = Numeral-Lacks Form.v6 (decimal port) (decimal-Numeral port) in
    let (i, colon) = find-Has b':' host m in
    let inside : i < length host = subst (Inside (length host)) colon (find-Inside b':' host) in
    let p0 = find_last b'.' host (decimal port) x in
    let p1 = find-append b':' host (b'.' ∷ decimal port) (refl, y) ∙ colon in
    let behind : ltb (length host) i ≡ false = ground arith in
    rw (p0, split_address, p1, behind) (split_at-print b'.' port host h k)

-- What may be said of each result.
abbrev Splits : ℕ → Option (Str × ℕ) → Type 0
Splits n none = Unit {0}
Splits n (some (host, port)) = (0 < port) × (port < 2 ^ 16) × (length host < n)

split_at-Splits : (s : Str) (p : ℕ) → p < length s → Splits (length s) (split_at s p)
unfolding split_at
split_at-Splits s p h =
    let port = strtoul (c_str (drop (p + 1) s)) % 2 ^ 16 in
    elim (Bool-cases (port == 0)) [
      | inl zero_port ↦ rw zero_port tt
      | inr good ↦ rw good (ground arith, omega arith, omega (arith, length-take p s))
    ]

split_address-Splits : (s : Str) → Splits (length s) (split_address s)
unfolding split_address
split_address-Splits s = elim (Option-cases (find_last_of b'.' s)) [
  | inl no_dot ↦ rw (no_dot, split_address) tt
  | inr (p0, dot) ↦ elim (Option-cases (find_last_of b':' s)) [
    | inl no_colon ↦ rw (dot, split_address, no_colon) tt
    | inr (p1, colon) ↦
        let in0 : p0 < length s = subst (Inside (length s)) dot (find-Inside b'.' s) in
        let in1 : p1 < length s = subst (Inside (length s)) colon (find-Inside b':' s) in
        elim (Bool-cases (ltb p0 p1)) [
          | inl later ↦ rw (dot, split_address, colon, later) (split_at-Splits s p1 in1)
          | inr earlier ↦ rw (dot, split_address, colon, earlier) (split_at-Splits s p0 in0)
        ]
  ]
]

-- Each address that is split has a port from 1 to 65535, and a host that is shorter than the text.
pub split_address_bounds :
    (s host : Str) (port : ℕ)
    → split_address s ≡ some (host, port)
    → (0 < port) × (port < 2 ^ 16) × (length host < length s)
split_address_bounds s host port e = subst (Splits (length s)) e (split_address-Splits s)
