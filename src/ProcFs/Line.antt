-- ===== src/ProcFs/Line.antt =====
-- `ProcFs::readStat`: a line of /proc/PID/stat is cut into fields.
pub mod Fields
pub mod Numbers
pub mod Printed
pub mod RoundTrip
use kexplorer_server.Prelude.{
  ℕ, zero, suc, ◌+◌, ◌/◌, ◌%◌, ◌^◌, Bool, true, false, ◌||◌, Option, none, some, List, [], ◌∷◌,
  ◌++◌, if◌then◌else◌, ◌==◌, length, null, get_or,
}
use kexplorer_server.Prelude.Int.{ℤ, pos}
use kexplorer_server.Prelude.Text.{Str, codes}
use kexplorer_server.Prelude.Numerals.{is_space}
use kexplorer_server.ProcFs.Stat.{Stat, no_stat, set_field}

abbrev pub onto_first : ℕ → List Str → List Str
onto_first c [] = (c ∷ []) ∷ []
onto_first c (l ∷ ls) = (c ∷ l) ∷ ls

-- The texts that `std::getline(stream, s, d)` gives before it fails.
unfoldable pub pieces : ℕ → Str → List Str
pieces d [] = []
pieces d (c ∷ s) = if c == d then [] ∷ pieces d s else onto_first c (pieces d s)

-- What one `std::getline` leaves in an empty string.
abbrev pub first_line : Str → Str
first_line s = get_or (pieces 10 s) 0 []

-- `*end && !std::isspace(*end)` fails.
abbrev pub stops : ℕ → Bool
stops c = c == 0 || is_space c

-- `std::strrchr(s, ')')`: how far behind the head of the text the last closing parenthesis stands.
unfoldable pub last_paren : Str → Option ℕ
last_paren [] = none
last_paren (c ∷ s) =
    if c == 0
    then none
    else (elim (last_paren s) [ some i ↦ some (i + 1) | none ↦ if c == b')' then some 0 else none ])

-- What a field takes of the text, and the rest.
abbrev pub keep : ℕ → Option (Str × Str) → Option (Str × Str)
keep c none = none
keep c (some (f, r)) = some (c ∷ f, r)

-- The inner loop, with how many bytes are still to be passed over, up to a closing parenthesis;
-- `none` is an invalid record.
unfoldable pub take_field : ℕ → Str → Option (Str × Str)
take_field skip [] = some ([], [])
take_field (suc skip) (c ∷ s) = keep c (take_field skip s)
take_field zero (c ∷ s) = elim (stops c) [
  | true ↦ some ([], c ∷ s)
  | false ↦ elim (c == b'(') [
    | false ↦ keep c (take_field zero s)
    | true ↦ elim (last_paren s) [ none ↦ none | some i ↦ keep c (take_field (i + 1) s) ]
  ]
]

-- `fromRelativeTime`, given the time of boot and the clock ticks per second.
unfoldable pub from_relative_time : ℕ → ℕ → ℕ → ℕ
from_relative_time boot_time clock_res relative = (boot_time + relative / clock_res) % 2 ^ 64

module _ (strtod : Str → ℤ) where
  -- A field that is not empty is used.
  use_field : ℕ → Str → Str → Stat → Stat
  use_field index field from st = if null field then st else set_field strtod index field from st

  -- The loop over the fields behind the first; the text starts with a separator. Each round takes one
  -- byte at least, so its length is fuel enough. `false`: the record is invalid.
  unfoldable pub read_fields : ℕ → ℕ → Str → Stat → Stat × Bool
  read_fields fuel index [] st = (st, true)
  read_fields zero index (c ∷ s) st = (st, false)
  read_fields (suc fuel) index (c ∷ s) st = elim (take_field 0 s) [
    | none ↦ (st, false)
    | some (f, r) ↦ read_fields fuel (index + 1) r (set_field strtod index (c ∷ f) (c ∷ s) st)
  ]

  -- The whole loop; the first field has no separator.
  unfoldable pub read_line : Str → Stat → Stat × Bool
  unfolding take_field read_fields use_field
  read_line [] st = (st, true)
  read_line (c ∷ s) st = elim (take_field 0 (c ∷ s)) [
    | none ↦ (st, false)
    | some (f, r) ↦ read_fields (length (c ∷ s)) 1 r (use_field 0 f (c ∷ s) st)
  ]

  -- The last lines of `readStat`.
  unfoldable pub conclude_stat : ℕ → ℕ → Stat × Bool → Stat
  unfolding from_relative_time
  conclude_stat boot_time clock_res (st, false) = record st {
    error = codes "Invalid process stat record";
  }
  conclude_stat boot_time clock_res (st, true) = record st {
    start_time = from_relative_time boot_time clock_res st.usage.starttime;
    valid = true;
  }

  -- `readStat`, given the owner of the process's directory (`none`: no such process), the
  -- contents of its file `stat` (`none`: it cannot be opened), the time of boot and the clock ticks per second.
  unfoldable pub read_stat : ℕ → ℕ → ℤ → Option ℕ → Option Str → Stat
  unfolding read_line conclude_stat pieces
  read_stat boot_time clock_res pid none file = record no_stat {
    pid = pid;
    error = codes "Process not found";
  }
  read_stat boot_time clock_res pid (some uid) none = record no_stat {
    pid = pid;
    ruid = uid;
    error = codes "Failed to open process";
  }
  read_stat boot_time clock_res pid (some uid) (some file) =
      conclude_stat boot_time clock_res
        (read_line (first_line file) (record no_stat { pid = pid; ruid = uid }))
