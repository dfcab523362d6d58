-- ===== src/Exceptions.antt =====
-- include/kesrv/exception.hxx and src/kesrv/util/exceptionutil.cxx: exceptions with properties, and
-- their text. The text of a stack trace and the formatters of property values are arguments.
pub mod Properties
use kexplorer_server.Prelude.{
  ℕ, zero, suc, ◌+◌, ◌*◌, ◌/◌, ◌%◌, Bool, true, false, Option, none, some, List, [], ◌∷◌, ◌++◌,
  if◌then◌else◌, ◌==◌, ltb, null, replicate,
}
use kexplorer_server.Prelude.Text.{Str, codes}
use kexplorer_server.Prelude.Numerals.{decimal}
use kexplorer_server.Property.{Property, PropertyInfo}
use kexplorer_server.Registry.{Registry, lookup_id}

-- `SourceLocation`; the stack by its text, which is empty if the stack is.
pub record SourceLocation : Type 0 where
  pub file_name : Str
  pub line : ℕ
  pub stack : Str

pub record Context : Type 0 where
  pub message : Str
  pub properties : List Property

pub record Exception : Type 0 where
  pub source : SourceLocation
  pub context : Option Context

-- The constructors of `Context`: the first argument is added behind those after it.
unfoldable pub collect : List Property → List Property
collect [] = []
collect (p ∷ ps) = collect ps ++ (p ∷ [])

-- The constructors with a message.
unfoldable pub make_exception : SourceLocation → Str → List Property → Exception
unfolding collect
make_exception source message ps = record {
  source = source;
  context = some (record { message = message; properties = collect ps });
}

unfoldable pub what : Exception → Str
what e = elim e.context [ none ↦ codes "Unknown exception" | some c ↦ c.message ]

unfoldable pub message_of : Exception → Option Str
message_of e = elim e.context [ none ↦ none | some c ↦ some c.message ]

unfoldable pub properties_of : Exception → Option (List Property)
properties_of e = elim e.context [ none ↦ none | some c ↦ some c.properties ]

-- The loop of `find`.
unfoldable pub find_in : ℕ → List Property → Option Property
find_in id [] = none
find_in id (p ∷ ps) = if p.id == id then some p else find_in id ps

unfoldable pub find_property : ℕ → Exception → Option Property
unfolding find_in
find_property id e = elim e.context [ none ↦ none | some c ↦ find_in id c.properties ]

-- `add`, of this object; copies share the context.
abbrev pub added : Property → Option Context → Option Context
added p none = none
added p (some c) = some (record c { properties = c.properties ++ (p ∷ []) })

unfoldable pub add_property : Property → Exception → Exception
add_property p e = record e { context = added p e.context }

-- An exception with those nested in it, as far as they are of the two types that are caught by name.
pub data Raised : Type 0 where
  ends : Raised
  standard : Str → Raised → Raised
  own : Exception → Raised → Raised

abbrev pub indent : ℕ → Str
indent level = replicate (level * 3) b' '

-- The digits of "%08x".
unfoldable pub hex_digits : ℕ → ℕ → Str → Str
hex_digits zero n s = s
hex_digits (suc f) n s =
    let d = n % 16 in hex_digits f (n / 16) ((if ltb d 10 then 48 + d else 87 + d) ∷ s)

-- The start of a line for a nested exception.
abbrev pub new_line : ℕ → Str
new_line level = if ltb 0 level then b'\n' ∷ indent level else []

module _ (registry : Registry) (print : Property → PropertyInfo → Str) where
  unfoldable pub format_property : ℕ → Property → Str
  unfolding hex_digits
  format_property level p =
      codes "\n "
      ++ (indent level ++ (elim (lookup_id registry p.id) [
        | some info ↦ info.name ++ (codes ": " ++ print p info)
        | none ↦ codes " 0x" ++ (hex_digits 8 p.id [] ++ codes ": ???")
      ]))

  unfoldable pub format_properties : ℕ → List Property → Str
  unfolding format_property
  format_properties level [] = []
  format_properties level (p ∷ ps) = format_property level p ++ format_properties level ps

  -- One exception of the program's own, without those nested in it.
  unfoldable pub format_own : ℕ → Exception → Str
  unfolding format_properties what message_of properties_of
  format_own level e =
      let head : Str = elim (message_of e) [ some m ↦ m | none ↦ what e ] in
      let file = codes "\n" ++ (indent level ++ (codes " File: " ++ e.source.file_name)) in
      let line = codes "\n" ++ (indent level ++ (codes " Line: " ++ decimal e.source.line)) in
      let stack =
        if null e.source.stack
        then []
        else codes "\n" ++ (indent level ++ (codes " Stack:\n" ++ e.source.stack)) in
      let ps : Str = elim (properties_of e) [ none ↦ [] | some ps ↦ format_properties level ps ] in
      head ++ (file ++ (line ++ (stack ++ ps)))

  -- `formatException`, from a level on.
  unfoldable pub format_raised : ℕ → Raised → Str
  unfolding format_own
  format_raised level Raised.ends = []
  format_raised level (Raised.standard w nested) =
      new_line level ++ (w ++ format_raised (level + 1) nested)
  format_raised level (Raised.own e nested) =
      new_line level ++ (format_own level e ++ format_raised (level + 1) nested)

  unfoldable pub format_exception : Raised → Str
  unfolding format_raised
  format_exception e = format_raised 0 e
