-- ===== src/ProcFs/Line/RoundTrip.antt =====
-- A line that the kernel prints is read back, whatever the name of the process.
use kexplorer_server.Prelude.{
  ℕ, suc, ◌+◌, ◌≡◌, refl, ap, sym, ◌∙◌, Bool, true, false, none, some, [], ◌∷◌, ◌++◌, length, ltb,
  leb, ◌&&◌, length-append, append-nil, arith, drop, take, take-append_left, lt→ltb, take-length,
}
use kexplorer_server.Prelude.Int.{ℤ, pos}
use kexplorer_server.Prelude.Text.{Str}
use kexplorer_server.Prelude.Numerals.{decimal-head, int_text}
use kexplorer_server.ProcFs.Stat.{Stat, no_stat, set_field}
use kexplorer_server.ProcFs.Line.{
  last_paren, take_field, use_field, read_line, conclude_stat, read_stat,
}
use kexplorer_server.ProcFs.Line.Fields.{
  Plain, Stopped, first_line-Unbroken, take_field-Plain, take_field_name, take_field-length,
  read_fields_fuel, fields, fields_step, early, read_fields_late, read_fields-Unopened,
}
use kexplorer_server.ProcFs.Line.Numbers.{
  Numeral-Plain, int_text-Numeral, last_paren-Numeral, Stopped-Ends, IsInt, ReadsInts,
  to_int-strtol,
}
use kexplorer_server.ProcFs.Line.Printed.{
  Printed, then_number, numbers, from_name, print, shown, IsPrinted, print-Unbroken,
}

last_paren_number : (z : ℤ) (r : Str) → last_paren r ≡ none → last_paren (then_number z r) ≡ none
unfolding last_paren
last_paren_number z r h = rw (last_paren-Numeral (int_text z) r (int_text-Numeral z) h, last_paren)

last_paren_state :
    (c : ℕ) (r : Str)
    → (leb 65 c && leb c 122) ≡ true
    → last_paren r ≡ none
    → last_paren (b' ' ∷ c ∷ r) ≡ none
unfolding last_paren
last_paren_state c r s h = rw (h, last_paren) (ground arith)

take_number : (z : ℤ) (r : Str) → Stopped r → take_field 0 (int_text z ++ r) ≡ some (int_text z, r)
take_number z r h =
    take_field-Plain (int_text z) r (Numeral-Plain (int_text z) (int_text-Numeral z)) h

-- The name without its parentheses.
set_name :
    (strtod : Str → ℤ) (name from : Str) (st : Stat)
    → st.comm ≡ []
    → set_field strtod 1 (b' ' ∷ b'(' ∷ (name ++ (b')' ∷ []))) from st ≡ record st { comm = name }
unfolding set_field
set_name strtod [] from st e = rw (← e)
set_name strtod (c ∷ name) from st e =
    let long : length (name ++ (b')' ∷ [])) ≡ length name + 1 =
      length-append name (b')' ∷ []) ∙ omega arith in
    let many : ltb 3 (length (b' ' ∷ b'(' ∷ c ∷ (name ++ (b')' ∷ [])))) ≡ true =
      lt→ltb _ _ (omega (arith, long)) in
    rw many (ap (λ n. record st { comm = n }) (inner (omega (arith, long))))
  where
    inner : {k : ℕ} → k ≡ suc (length name) → take k (c ∷ (name ++ (b')' ∷ []))) ≡ c ∷ name
    inner {k} e =
        take-append_left k (c ∷ name) (b')' ∷ []) (omega (arith, e)) ∙ take-length k (c ∷ name) e

-- The first field.
first_field :
    (strtod : Str → ℤ) (s f r : Str) (c d : ℕ) (t : Str) (st : Stat)
    → s ≡ c ∷ t
    → take_field 0 s ≡ some (d ∷ f, r)
    → read_line strtod s st ≡ fields strtod 1 r (set_field strtod 0 (d ∷ f) s st)
unfolding read_line use_field
first_field strtod s f r c d t st e h =
    let cut : take_field 0 (c ∷ t) ≡ some (d ∷ f, r) = ap (take_field 0) (sym e) ∙ h in
    rw (e, read_line, cut)
      (read_fields_fuel strtod (suc (length t)) (length r) 1 r _ (take_field-length 0 (c ∷ t) cut)
        (omega arith))

module _ (strtod : Str → ℤ) (ints : ReadsInts strtod) where
  -- The number in field 3, and those in fields 4 to 7.
  step_ppid :
      (z : ℤ) (r : Str) (st : Stat)
      → IsInt z
      → Stopped r
      → fields strtod 3 (then_number z r) st ≡ fields strtod 4 r (record st { ppid = z })
  unfolding set_field
  step_ppid z r st h e =
      fields_step strtod 3 b' ' (int_text z ++ r) (int_text z) r st (take_number z r e)
      ∙ ap (λ n. fields strtod 4 r (record st { ppid = n }))
          (to_int-strtol z r h (Stopped-Ends r e))

  step_number :
      (i : ℕ) (put : ℤ → Stat) (z : ℤ) (r : Str) (st : Stat)
      → IsInt z
      → Stopped r
      → ((field from : Str) → set_field strtod i field from st ≡ put (strtod (drop 1 from)))
      → fields strtod i (then_number z r) st ≡ fields strtod (i + 1) r (put z)
  step_number i put z r st h e puts =
      fields_step strtod i b' ' (int_text z ++ r) (int_text z) r st (take_number z r e)
      ∙ ap (fields strtod (i + 1) r) (puts _ _ ∙ ap put (ints z r h e))

  conclude_complete :
      (boot_time clock_res : ℕ) (o : Stat × Bool)
      → o.1 ≡ true
      → (early strtod (conclude_stat strtod boot_time clock_res o) ≡ early strtod o.0)
        × ((conclude_stat strtod boot_time clock_res o).valid ≡ true)
  unfolding conclude_stat
  conclude_complete boot_time clock_res (st, true) e = (refl, refl)
  conclude_complete boot_time clock_res (st, false) e = let wrong : false ≡ true = e in cc

  module _ (l : Printed) (ok : IsPrinted l) where
    unclosed_numbers : last_paren (numbers l) ≡ none
    unclosed_numbers = last_paren_number l.ppid _ (
        last_paren_number l.pgrp _ (
          last_paren_number l.session _
            (last_paren_number l.tty_nr _ (last_paren_number l.tpgid l.rest ok.unclosed))))

    abbrev named : Stat → Stat
    named st = record st { comm = l.name; state = l.state }

    state_Plain : Plain (l.state ∷ [])
    state_Plain = let h = ok.state in (ground arith, ground arith, tt)

    step_name :
        (st : Stat)
        → st.comm ≡ []
        → fields strtod 1 (from_name l) st ≡ fields strtod 3 (numbers l) (named st)
    unfolding set_field
    step_name st e =
        let rest : Str = b' ' ∷ l.state ∷ numbers l in
        fields_step strtod 1 b' ' _ _ rest st (
          take_field_name l.name rest ok.name
            (last_paren_state l.state (numbers l) ok.state unclosed_numbers) refl)
        ∙ ap (fields strtod 2 rest) (set_name strtod l.name (from_name l) st e)
        ∙ fields_step strtod 2 b' ' _ (l.state ∷ []) (numbers l) (record st { comm = l.name })
            (take_field-Plain (l.state ∷ []) (numbers l) state_Plain refl)

    abbrev seen : Stat → Stat
    seen st = record st {
      comm = l.name;
      state = l.state;
      ppid = l.ppid;
      pgrp = l.pgrp;
      session = l.session;
      tty_nr = l.tty_nr;
      tpgid = l.tpgid;
    }

    -- Fields 1 to 7.
    steps :
        (st : Stat)
        → st.comm ≡ []
        → fields strtod 1 (from_name l) st ≡ fields strtod 8 l.rest (seen st)
    unfolding set_field
    steps st e =
        let a : Stat = named st in
        let b : Stat = record a { ppid = l.ppid } in
        let c : Stat = record b { pgrp = l.pgrp } in
        let d : Stat = record c { session = l.session } in
        let f : Stat = record d { tty_nr = l.tty_nr } in
        step_name st e
        ∙ step_ppid l.ppid _ a ok.ppid refl
        ∙ step_number 4 (λ z. record b { pgrp = z }) l.pgrp _ b ok.pgrp refl (λ x y. refl)
        ∙ step_number 5 (λ z. record c { session = z }) l.session _ c ok.session refl (λ x y. refl)
        ∙ step_number 6 (λ z. record d { tty_nr = z }) l.tty_nr _ d ok.tty_nr refl (λ x y. refl)
        ∙ step_number 7 (λ z. record f { tpgid = z }) l.tpgid _ f ok.tpgid ok.separated
            (λ x y. refl)

    started :
        (st : Stat)
        → read_line strtod (print l) st
          ≡ fields strtod 1 (from_name l) (record st { pid = pos l.pid })
    unfolding set_field int_text
    started st =
        let (c, t, printed, p) = decimal-head l.pid (from_name l) in
        let (d, f, alone, q) = decimal-head l.pid [] in
        first_field strtod (print l) f (from_name l) c d t st printed (
          take_number (pos l.pid) (from_name l) refl
          ∙ ap (λ x. some (x, from_name l)) (sym (append-nil _) ∙ alone))
        ∙ ap (λ n. fields strtod 1 (from_name l) (record st { pid = n }))
            (to_int-strtol (pos l.pid) (from_name l) ok.pid refl)

    read_line-print :
        (st : Stat)
        → st.comm ≡ []
        → read_line strtod (print l) st
          ≡ fields strtod 8 l.rest (seen (record st { pid = pos l.pid }))
    read_line-print st e = started st ∙ steps (record st { pid = pos l.pid }) e

    -- If the process exists and its file can be read, the reader of floating-point numbers reads
    -- an integer of 32 bits exactly where nothing, a NUL or white space follows it, and the file
    -- starts with a line that the kernel prints, its name without NUL and newline, its rest
    -- without parentheses and newline, then pid, name, state and the five numbers behind them are
    -- read back, whatever follows the line, and the record is valid.
    pub read_stat-print :
        (boot_time clock_res uid : ℕ) (pid : ℤ) (more : Str)
        → (early strtod
              (read_stat strtod boot_time clock_res pid (some uid) (some (print l ++ (10 ∷ more))))
            ≡ shown l)
          × ((read_stat strtod boot_time clock_res pid
                (some uid)
                (some (print l ++ (10 ∷ more)))).valid
              ≡ true)
    unfolding read_stat
    read_stat-print boot_time clock_res uid pid more =
        let st0 : Stat = record no_stat { pid = pid; ruid = uid } in
        let st8 : Stat = seen (record st0 { pid = pos l.pid }) in
        let all = read_line-print st0 refl in
        let whole =
          read_fields-Unopened strtod (length l.rest) 8 l.rest st8 (omega arith) ok.unopened in
        let same = read_fields_late strtod (length l.rest) 8 l.rest st8 (omega arith) in
        let (a, b) =
          conclude_complete boot_time clock_res (read_line strtod (print l) st0)
            (ap (λ o. o.1) all ∙ whole) in
        rw (first_line-Unbroken (print l) more (print-Unbroken l ok))
          (a ∙ ap (λ o. early strtod o.0) all ∙ same, b)
