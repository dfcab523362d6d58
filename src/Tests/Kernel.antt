-- ===== src/Tests/Kernel.antt =====
-- Runs of the reader of /proc.
use kexplorer_server.Prelude.{◌≡◌, refl, true, some, List, [], ◌∷◌, ◌++◌, arith}
use kexplorer_server.Prelude.Int.{ℤ, pos, negsuc}
use kexplorer_server.Prelude.Text.{Str, codes, NoNul}
use kexplorer_server.Prelude.Numerals.{strtol, decimal}
use kexplorer_server.ProcFs.Stat.{to_int}
use kexplorer_server.ProcFs.Line.{last_paren, read_stat}
use kexplorer_server.ProcFs.Line.Fields.{early}
use kexplorer_server.ProcFs.Line.Numbers.{ReadsInts, Stopped-Ends, to_int-strtol}
use kexplorer_server.ProcFs.Line.Printed.{Printed, IsPrinted, print, shown}
use kexplorer_server.ProcFs.Line.RoundTrip.{read_stat-print}
use kexplorer_server.ProcFs.Files.{read_cmd_line, enumerate_pids}
use kexplorer_server.ProcFs.Files.CmdLine.{AllNoNul, arguments, read_cmd_line-arguments}
use kexplorer_server.ProcFs.Files.Pids.{Names, enumerate_pids-Names}

-- A reader of numbers that knows integers.
abbrev read_int : Str → ℤ
read_int s = to_int (strtol s)

reads_ints : ReadsInts read_int
reads_ints z r h e = to_int-strtol z r h (Stopped-Ends r e)

-- A process that calls itself ") (a".
abbrev line : Printed
line = record {
  pid = 17;
  name = codes ") (a";
  state = b'S';
  ppid = pos 1;
  pgrp = pos 17;
  session = pos 17;
  tty_nr = pos 0;
  tpgid = negsuc 0;
  rest = codes " 64";
}

line-IsPrinted : IsPrinted line
unfolding last_paren
line-IsPrinted = record {
  name = (refl, (refl, (refl, (refl, tt))));
  state = refl;
  pid = omega arith;
  ppid = omega arith;
  pgrp = omega arith;
  session = omega arith;
  tty_nr = omega arith;
  tpgid = omega arith;
  separated = refl;
  unopened = (refl, (refl, (refl, tt)));
  unclosed = refl;
  name_unbroken = (refl, (refl, (refl, (refl, tt))));
  rest_unbroken = (refl, (refl, (refl, tt)));
}

read_stat-print_example :
    (early read_int (read_stat read_int 0 100 (pos 17) (some 1000) (some (print line ++ (10 ∷ []))))
      ≡ shown line)
    × ((read_stat read_int 0 100 (pos 17) (some 1000) (some (print line ++ (10 ∷ [])))).valid
        ≡ true)
read_stat-print_example =
    read_stat-print read_int reads_ints line line-IsPrinted 0 100 1000 (pos 17) []

abbrev args : List Str
args = codes "ls" ∷ [] ∷ codes "-l" ∷ []

args-AllNoNul : AllNoNul args
args-AllNoNul = AllNoNul.cons (NoNul.cons (omega arith) (NoNul.cons (omega arith) NoNul.nil)) (
    AllNoNul.cons NoNul.nil
      (AllNoNul.cons (NoNul.cons (omega arith) (NoNul.cons (omega arith) NoNul.nil)) AllNoNul.nil))

read_cmd_line-arguments_example : read_cmd_line (some (arguments args)) ≡ codes "ls -l"
read_cmd_line-arguments_example = read_cmd_line-arguments args args-AllNoNul

enumerate_pids-Names_example : enumerate_pids (some (codes "acpi" ∷ decimal 17 ∷ [])) ≡ pos 17 ∷ []
enumerate_pids-Names_example =
    enumerate_pids-Names (Names.other (codes "acpi") refl (Names.pid 17 (omega arith) Names.nil))
