-- ===== src/ProcFs/Files.antt =====
-- `ProcFs`: what the small files and the directory of /proc are read as. A file is its bytes, or
-- `none` where it cannot be opened.
pub mod CmdLine
pub mod Pids
use kexplorer_server.Prelude.{
  ℕ, suc, ◌+◌, ◌<◌, ◌^◌, Bool, true, false, Option, none, some, List, [], ◌∷◌, ◌++◌, if◌then◌else◌,
  ◌==◌, ltb, null, take, drop, length, get_or,
}
use kexplorer_server.Prelude.Int.{ℤ, pos}
use kexplorer_server.Prelude.Outcome.{Outcome, returns, terminates}
use kexplorer_server.Prelude.Text.{Str, codes, str_eq, c_str}
use kexplorer_server.Prelude.Numerals.{is_digit, strtoul, read_digits}
use kexplorer_server.ProcFs.Stat.{to_int}
use kexplorer_server.ProcFs.Line.{pieces, first_line, read_stat}
use kexplorer_server.Handlers.Processes.{ProcFs}

unfoldable pub read_comm : Option Str → Str
unfolding pieces
read_comm none = []
read_comm (some file) = first_line file

-- `readExePath`, given the size of the link and where it leads to, if `lstat` and `readlink` succeed.
unfoldable pub read_exe_path : Option ℕ → Option Str → Str
read_exe_path none target = []
read_exe_path (some size) none = []
read_exe_path (some size) (some target) = c_str (take (if size == 0 then 4096 else size) target)

-- The loop of `readCmdLine`.
unfoldable pub join_args : Str → List Str → Str
join_args line [] = line
join_args line (a ∷ args) =
    if null a
    then join_args line args
    else join_args (if null line then a else (line ++ (b' ' ∷ a))) args

unfoldable pub read_cmd_line : Option Str → Str
unfolding pieces join_args
read_cmd_line none = []
read_cmd_line (some file) = join_args [] (pieces 0 file)

-- `std::stoul`, on a text that starts with a digit; `none` where it throws `std::out_of_range`.
unfoldable pub stoul : Str → Option ℕ
unfolding read_digits
stoul s = let n = read_digits 0 s in if ltb n (2 ^ 64) then some n else none

abbrev pid_onto : Option ℕ → List ℤ → List ℤ
pid_onto none pids = pids
pid_onto (some n) pids = to_int (pos n) ∷ pids

-- The loop of `enumeratePids`, over the names in the directory.
unfoldable pub pids_of : List Str → List ℤ
unfolding stoul
pids_of [] = []
pids_of (name ∷ names) =
    let rest = pids_of names in
    if is_digit (get_or name 0 0) then pid_onto (stoul name) rest else rest

unfoldable pub enumerate_pids : Option (List Str) → List ℤ
unfolding pids_of
enumerate_pids none = []
enumerate_pids (some names) = pids_of names

-- The loop of `getBootTimeImpl`, over the lines of the file; `std::string::substr` throws for a line
-- that is too short, in a `noexcept` function.
unfoldable pub boot_time_of : List Str → Outcome ℕ
boot_time_of [] = returns 0
boot_time_of (s ∷ lines) =
    if str_eq (take 5 s) (codes "btime")
    then (if length s == 5
        then terminates
        else (if length s == 6 then returns 0 else returns (strtoul (drop 6 s))))
    else boot_time_of lines

-- `getBootTimeImpl`.
unfoldable pub boot_time : Option Str → Outcome ℕ
unfolding boot_time_of pieces
boot_time none = returns 0
boot_time (some file) = boot_time_of (pieces 10 file)

-- What the kernel says in one request: the names in /proc, and of each process the owner of its
-- directory, its files and its link.
pub record Kernel : Type 0 where
  pub names : Option (List Str)
  pub owner : ℤ → Option ℕ
  pub stat_file : ℤ → Option Str
  pub comm_file : ℤ → Option Str
  pub link_size : ℤ → Option ℕ
  pub link_target : ℤ → Option Str
  pub cmd_line_file : ℤ → Option Str

-- What the process manager is given.
unfoldable pub observe : (Str → ℤ) → ℕ → ℕ → Kernel → ProcFs
unfolding enumerate_pids read_stat read_comm read_exe_path read_cmd_line
observe strtod booted clock_res k = record {
  pids = enumerate_pids k.names;
  stat = λ pid. read_stat strtod booted clock_res pid (k.owner pid) (k.stat_file pid);
  comm = λ pid. read_comm (k.comm_file pid);
  exe_path = λ pid. read_exe_path (k.link_size pid) (k.link_target pid);
  cmd_line = λ pid. read_cmd_line (k.cmd_line_file pid);
}
