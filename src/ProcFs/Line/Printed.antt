-- ===== src/ProcFs/Line/Printed.antt =====
-- The lines of /proc/PID/stat as the kernel prints them.
use kexplorer_server.Prelude.{ℕ, ◌≡◌, refl, true, none, ◌∷◌, ◌++◌, leb, ◌&&◌, arith}
use kexplorer_server.Prelude.Int.{ℤ, pos}
use kexplorer_server.Prelude.Text.{Str}
use kexplorer_server.Prelude.Numerals.{int_text}
use kexplorer_server.ProcFs.Line.{last_paren}
use kexplorer_server.ProcFs.Line.Fields.{Stopped, Name, Unbroken, append-Unbroken, Unopened}
use kexplorer_server.ProcFs.Line.Numbers.{Numeral-Unbroken, int_text-Numeral, IsInt}

-- What the kernel prints: the pid, the name in parentheses, the state, five numbers, and the rest.
pub record Printed : Type 0 where
  pub pid : ℕ
  pub name : Str
  pub state : ℕ
  pub ppid : ℤ
  pub pgrp : ℤ
  pub session : ℤ
  pub tty_nr : ℤ
  pub tpgid : ℤ
  pub rest : Str

-- A number behind a blank.
abbrev pub then_number : ℤ → Str → Str
then_number z r = b' ' ∷ (int_text z ++ r)

module _ (l : Printed) where
  abbrev pub numbers : Str
  numbers = then_number l.ppid (
      then_number l.pgrp
        (then_number l.session (then_number l.tty_nr (then_number l.tpgid l.rest))))

  abbrev pub from_name : Str
  from_name = b' ' ∷ b'(' ∷ (l.name ++ (b')' ∷ b' ' ∷ l.state ∷ numbers))

  -- The line.
  abbrev pub print : Str
  print = int_text (pos l.pid) ++ from_name

-- What a process list shows of it.
abbrev pub shown : Printed → ℤ × Str × ℕ × ℤ × ℤ × ℤ × ℤ × ℤ
shown l = (pos l.pid, l.name, l.state, l.ppid, l.pgrp, l.session, l.tty_nr, l.tpgid)

-- Lines of the kernel: the name has neither NUL nor newline, the rest has no newline, the state is a letter, the numbers are `int`s, and no
-- parenthesis follows.
pub record IsPrinted (l : Printed) : Type 0 where
  pub name : Name l.name
  pub state : (leb 65 l.state && leb l.state 122) ≡ true
  pub pid : IsInt (pos l.pid)
  pub ppid : IsInt l.ppid
  pub pgrp : IsInt l.pgrp
  pub session : IsInt l.session
  pub tty_nr : IsInt l.tty_nr
  pub tpgid : IsInt l.tpgid
  pub separated : Stopped l.rest
  pub unopened : Unopened l.rest
  pub unclosed : last_paren l.rest ≡ none
  pub name_unbroken : Unbroken l.name
  pub rest_unbroken : Unbroken l.rest

number-Unbroken : (z : ℤ) (r : Str) → Unbroken r → Unbroken (then_number z r)
number-Unbroken z r u =
    (refl, append-Unbroken (int_text z) r (Numeral-Unbroken (int_text z) (int_text-Numeral z)) u)

pub print-Unbroken : (l : Printed) → IsPrinted l → Unbroken (print l)
print-Unbroken l ok =
    let state = ok.state in
    let numbers_Unbroken : Unbroken (numbers l) = number-Unbroken l.ppid _ (
      number-Unbroken l.pgrp _ (
        number-Unbroken l.session _
          (number-Unbroken l.tty_nr _ (number-Unbroken l.tpgid l.rest ok.rest_unbroken)))) in
    append-Unbroken (int_text (pos l.pid)) (from_name l)
      (Numeral-Unbroken (int_text (pos l.pid)) (int_text-Numeral (pos l.pid)))
      (
        refl,
        (
          refl,
          append-Unbroken l.name _ ok.name_unbroken
              (refl, (refl, (ground arith, numbers_Unbroken))),
        ),
      )
