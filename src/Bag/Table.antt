-- ===== src/Bag/Table.antt =====
-- Tables of properties: what is found after an insertion, and in the table of a JSON object.
use kexplorer_server.Prelude.{
  ◌≡◌, refl, ap, ◌∙◌, sym, Bool, true, false, Option, none, some, inl, inr, Option-cases,
  Bool-cases, if◌then◌else◌,
}
use kexplorer_server.Prelude.Text.{Str, str_eq, str_eq_iff}
use kexplorer_server.Prelude.Map.{or_else, or_else-none}
use kexplorer_server.Registry.{Registry}
use kexplorer_server.Bag.{PropertyBag, Entries, find, snoc, insert}
use kexplorer_server.Bag.Json.{Json, Members, Numbers}
use kexplorer_server.Prelude.Text.{c_str}
use kexplorer_server.Bag.FromJson.Reference.{bag_of, entries_of}

abbrev pub only : Str → Str → PropertyBag → Option PropertyBag
only k j b = if str_eq k j then some b else none

pub find-snoc :
    (j k : Str) (b : PropertyBag) (es : Entries)
    → find j (snoc es k b) ≡ or_else (find j es) (only k j b)
unfolding find
find-snoc j k b Entries.end = refl
find-snoc j k b (Entries.entry i c es) = elim (Bool-cases (str_eq i j)) [
  | inl same ↦ rw same
  | inr other ↦ rw other (find-snoc j k b es)
]

-- An insertion leaves what is there.
pub find-insert :
    (j k : Str) (b : PropertyBag) (es : Entries)
    → find j (insert k b es) ≡ or_else (find j es) (only k j b)
unfolding insert
find-insert j k b es = elim (Option-cases (find k es)) [
  | inl missing ↦ rw (missing, insert) (find-snoc j k b es)
  | inr (c, there) ↦ elim (Bool-cases (str_eq k j)) [
    | inl same ↦
        let there' : find j es ≡ some c =
          ap (λ i. find i es) (sym ((str_eq_iff k j).0 same)) ∙ there in
        rw (there, there', insert)
    | inr other ↦
        rw (there, other, insert)
          (elim (Option-cases (find j es)) [ inl n ↦ rw n | inr (d, n) ↦ rw n ])
  ]
]

or_else_assoc : (a b c : Option PropertyBag) → or_else (or_else a b) c ≡ or_else a (or_else b c)
or_else_assoc none b c = refl
or_else_assoc (some x) b c = refl

or_else_only :
    (t : Bool) (b : PropertyBag) (o : Option PropertyBag)
    → or_else (if t then some b else none) o ≡ (if t then some b else o)
or_else_only true b o = refl
or_else_only false b o = refl

-- The value of the first member of this name.
unfoldable pub first_member {ℓ} :
    {N : Type 0} {A : Type ℓ} → Str → (Str → Json N → A) → Members N → Option A
first_member k f Members.end = none
first_member k f (Members.member j v ms) =
    if str_eq j k then some (f (c_str j) v) else first_member k f ms

module _ {N : Type 0} (numbers : Numbers N) (registry : Registry) where
  -- The table that is read from the members of an object holds what it held before, and for every
  -- other name the first member of that name.
  pub find-entries_of :
      (k : Str) (ms : Members N) (es : Entries)
      → find k (entries_of numbers registry ms es)
        ≡ or_else (find k es) (first_member k (bag_of numbers registry) ms)
  unfolding bag_of entries_of first_member
  find-entries_of k Members.end es = sym (or_else-none (find k es))
  find-entries_of k (Members.member j v ms) es =
      let b = bag_of numbers registry (c_str j) v in
      let later = first_member k (bag_of numbers registry) ms in
      let step : find k (entries_of numbers registry (Members.member j v ms) es)
          ≡ or_else (find k (insert j b es)) later =
        find-entries_of k ms (insert j b es) in
      step
      ∙ ap (λ o. or_else o later) (find-insert k j b es)
      ∙ or_else_assoc (find k es) (only j k b) later
      ∙ ap (or_else (find k es)) (or_else_only (str_eq j k) b later)
