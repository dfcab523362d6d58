-- ===== src/ProcFs/Files/CmdLine.antt =====
-- The command line of a process, against the arguments that it was started with.
use kexplorer_server.Prelude.{
  ℕ, ◌≡◌, refl, ap, sym, ◌∙◌, false, some, List, [], ◌∷◌, ◌++◌, ◌==◌, ==_ne, append_assoc, arith,
  append-nil,
}
use kexplorer_server.Prelude.Text.{Str, NoNul}
use kexplorer_server.ProcFs.Line.{pieces}
use kexplorer_server.ProcFs.Files.{join_args, read_cmd_line}

-- Each argument ends with a NUL.
abbrev pub arguments : List Str → Str
arguments [] = []
arguments (a ∷ args) = a ++ (0 ∷ arguments args)

-- The arguments that are not empty, each behind a blank.
abbrev pub spaced : List Str → Str
spaced [] = []
spaced ([] ∷ args) = spaced args
spaced ((c ∷ a) ∷ args) = b' ' ∷ c ∷ (a ++ spaced args)

-- The same without the first blank.
abbrev pub command_line : List Str → Str
command_line [] = []
command_line ([] ∷ args) = command_line args
command_line ((c ∷ a) ∷ args) = c ∷ (a ++ spaced args)

pub data AllNoNul : List Str → Type 0 where
  nil : AllNoNul []
  cons : {a : Str} {args : List Str} → NoNul a → AllNoNul args → AllNoNul (a ∷ args)

piece : (a s : Str) → NoNul a → pieces 0 (a ++ (0 ∷ s)) ≡ a ∷ pieces 0 s
unfolding pieces
piece [] s h = refl
piece (c ∷ a) s (NoNul.cons p h) =
    let more : (c == 0) ≡ false = ==_ne c 0 (λ e. omega (arith, e)) in rw (more, piece a s h)

pieces-arguments : (args : List Str) → AllNoNul args → pieces 0 (arguments args) ≡ args
unfolding pieces
pieces-arguments [] h = refl
pieces-arguments (a ∷ args) (AllNoNul.cons p h) =
    piece a (arguments args) p ∙ ap (◌∷◌ a) (pieces-arguments args h)

join_further :
    (args : List Str) (c : ℕ) (line : Str) → join_args (c ∷ line) args ≡ c ∷ (line ++ spaced args)
unfolding join_args
join_further [] c line = ap (◌∷◌ c) (sym (append-nil line))
join_further ([] ∷ args) c line = join_further args c line
join_further ((d ∷ a) ∷ args) c line =
    join_further args c (line ++ (b' ' ∷ d ∷ a))
    ∙ ap (◌∷◌ c) (append_assoc line (b' ' ∷ d ∷ a) (spaced args))

join_first : (args : List Str) → join_args [] args ≡ command_line args
unfolding join_args
join_first [] = refl
join_first ([] ∷ args) = join_first args
join_first ((c ∷ a) ∷ args) = join_further args c a

-- The command line of arguments without NUL, each ended by a NUL, is the arguments that are not
-- empty with one blank between them.
pub read_cmd_line-arguments :
    (args : List Str) → AllNoNul args → read_cmd_line (some (arguments args)) ≡ command_line args
unfolding read_cmd_line
read_cmd_line-arguments args h = ap (join_args []) (pieces-arguments args h) ∙ join_first args
