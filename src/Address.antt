-- ===== src/Address.antt =====
-- src/kesrv/util/netutil.cxx: the address and the port of a server.
pub mod RoundTrip
use kexplorer_server.Prelude.{
  ℕ, ◌+◌, ◌%◌, ◌^◌, Bool, true, false, Option, none, some, List, [], ◌∷◌, take, drop, ltb, ◌==◌,
  if◌then◌else◌,
}
use kexplorer_server.Prelude.Text.{Str, c_str}
use kexplorer_server.Prelude.Numerals.{strtoul}

-- `std::string::find_last_of`; `none` is `npos`.
unfoldable pub find_last_of : ℕ → Str → Option ℕ
find_last_of c [] = none
find_last_of c (d ∷ s) = elim (find_last_of c s) [
  | some i ↦ some (i + 1)
  | none ↦ if d == c then some 0 else none
]

-- The part behind the search; `none`: it throws "Invalid server port".
unfoldable pub split_at : Str → ℕ → Option (Str × ℕ)
split_at s p =
    let port = strtoul (c_str (drop (p + 1) s)) % 2 ^ 16 in
    if port == 0 then none else some (take p s, port)

-- `splitAddress`; `none`: it throws. The two positions differ, since the characters do.
unfoldable pub split_address : Str → Option (Str × ℕ)
unfolding split_at find_last_of
split_address s = elim (find_last_of b'.' s) [
  | none ↦ none
  | some p0 ↦ elim (find_last_of b':' s) [
    | none ↦ none
    | some p1 ↦ if ltb p0 p1 then split_at s p1 else split_at s p0
  ]
]
