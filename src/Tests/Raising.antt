-- ===== src/Tests/Raising.antt =====
-- The text of an exception with one nested in it.
use kexplorer_server.Prelude.{ℕ, ◌≡◌, refl, some, none, List, [], ◌∷◌}
use kexplorer_server.Prelude.Text.{codes}
use kexplorer_server.Prelude.Numerals.{decimal}
use kexplorer_server.Property.{no_property}
use kexplorer_server.Registry.{Registry, lookup_id}
use kexplorer_server.Exceptions.{SourceLocation, make_exception, Raised, format_exception}

abbrev nothing_known : Registry
nothing_known = record { props_by_id = []; props_by_name = [] }

abbrev here : SourceLocation
here = record { file_name = codes "a.cxx"; line = 7; stack = [] }

abbrev failure : Raised
failure =
    Raised.own (make_exception here (codes "x") (no_property ∷ []))
      (Raised.standard (codes "y") Raised.ends)

failure_text :
    format_exception nothing_known (λ p info. []) failure
    ≡ codes "x\n File: a.cxx\n Line: 7\n  0xffffffff: ???\n   y"
unfolding format_exception make_exception lookup_id decimal kexplorer_server.Prelude.Map.find
failure_text = refl
