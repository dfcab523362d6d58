-- ===== src/ProcFs/Files/Pids.antt =====
-- The directory of processes.
use kexplorer_server.Prelude.{
  ℕ, ◌<◌, ◌^◌, ◌≡◌, refl, ap, sym, ◌∙◌, true, false, some, List, [], ◌∷◌, get_or, arith, append-nil,
  lt→ltb, ltb,
}
use kexplorer_server.Prelude.Int.{ℤ, pos}
use kexplorer_server.Prelude.Text.{Str}
use kexplorer_server.Prelude.Numerals.{
  is_digit, decimal, decimal-head, read_digits, read_digits-decimal,
}
use kexplorer_server.ProcFs.Stat.{to_int}
use kexplorer_server.ProcFs.Files.{stoul, pids_of, enumerate_pids}

-- The names of a directory and the processes that are among them, in its order.
pub data Names : List Str → List ℕ → Type 0 where
  nil : Names [] []
  pid :
      {names : List Str} {pids : List ℕ} (n : ℕ)
      → n < 2 ^ 31
      → Names names pids
      → Names (decimal n ∷ names) (n ∷ pids)
  other :
      {names : List Str} {pids : List ℕ} (s : Str)
      → is_digit (get_or s 0 0) ≡ false
      → Names names pids
      → Names (s ∷ names) pids

abbrev pub as_pids : List ℕ → List ℤ
as_pids [] = []
as_pids (n ∷ pids) = pos n ∷ as_pids pids

stoul-decimal : (n : ℕ) → n < 2 ^ 31 → stoul (decimal n) ≡ some n
unfolding stoul
stoul-decimal n h =
    let small : ltb n (2 ^ 64) ≡ true = lt→ltb _ _ (omega arith) in
    let read : read_digits 0 (decimal n) ≡ n =
      ap (read_digits 0) (sym (append-nil (decimal n))) ∙ read_digits-decimal n [] tt in
    rw (read, small)

to_int-pos : (n : ℕ) → n < 2 ^ 31 → to_int (pos n) ≡ pos n
unfolding to_int
to_int-pos n h = ground arith

decimal-digit : (n : ℕ) → is_digit (get_or (decimal n) 0 0) ≡ true
decimal-digit n = let (c, t, e, d) = decimal-head n [] in rw (sym (append-nil (decimal n)), e) d

pids_of-Names : {names : List Str} {pids : List ℕ} → Names names pids → pids_of names ≡ as_pids pids
unfolding pids_of
pids_of-Names Names.nil = refl
pids_of-Names (Names.pid n h rest) =
    rw (decimal-digit n, stoul-decimal n h, to_int-pos n h, pids_of-Names rest)
pids_of-Names (Names.other s h rest) = rw (h, pids_of-Names rest)

-- If each name of the directory is a number below 2^31 in decimal or does not start with a digit,
-- the numbers are listed, in order, and nothing else.
pub enumerate_pids-Names :
    {names : List Str} {pids : List ℕ}
    → Names names pids
    → enumerate_pids (some names) ≡ as_pids pids
unfolding enumerate_pids
enumerate_pids-Names h = pids_of-Names h
