-- ===== src/Exceptions/Properties.antt =====
-- Which property of an exception is found.
use kexplorer_server.Prelude.{
  ℕ, ◌≡◌, refl, ap, ◌∙◌, Option, none, some, List, [], ◌∷◌, ◌++◌, if◌then◌else◌, ◌==◌, Bool-cases,
  inl, inr,
}
use kexplorer_server.Prelude.Text.{Str}
use kexplorer_server.Property.{Property}
use kexplorer_server.Exceptions.{
  SourceLocation, Context, Exception, collect, make_exception, find_in, find_property, add_property,
}

abbrev or_else : Option Property → Option Property → Option Property
or_else none o = o
or_else (some p) o = some p

-- The last of the given properties that has the id.
abbrev pub last_given : ℕ → List Property → Option Property
last_given id [] = none
last_given id (p ∷ ps) = or_else (last_given id ps) (if p.id == id then some p else none)

find_in-append :
    (id : ℕ) (ps qs : List Property)
    → find_in id (ps ++ qs) ≡ or_else (find_in id ps) (find_in id qs)
unfolding find_in
find_in-append id [] qs = refl
find_in-append id (p ∷ ps) qs = elim (Bool-cases (p.id == id)) [
  | inl found ↦ rw found
  | inr other ↦ rw other (find_in-append id ps qs)
]

find_in-collect : (id : ℕ) (ps : List Property) → find_in id (collect ps) ≡ last_given id ps
unfolding collect find_in
find_in-collect id [] = refl
find_in-collect id (p ∷ ps) =
    find_in-append id (collect ps) (p ∷ [])
    ∙ ap (λ o. or_else o (if p.id == id then some p else none)) (find_in-collect id ps)

-- An exception that is made with properties has the last one of each id.
pub find_property-make :
    (source : SourceLocation) (message : Str) (ps : List Property) (id : ℕ)
    → find_property id (make_exception source message ps) ≡ last_given id ps
unfolding find_property make_exception
find_property-make source message ps id = find_in-collect id ps

-- A property that is added later does not hide one that is there, and is dropped without a context.
pub find_property-add :
    (p : Property) (e : Exception) (id : ℕ) (c : Context)
    → e.context ≡ some c
    → find_property id (add_property p e)
      ≡ or_else (find_property id e) (if p.id == id then some p else none)
unfolding find_property add_property
find_property-add p e id c h = rw (h, find_property) (find_in-append id c.properties (p ∷ []))
