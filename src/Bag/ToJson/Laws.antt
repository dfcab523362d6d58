-- ===== src/Bag/ToJson/Laws.antt =====
-- How the writing of a property bag can end.
use kexplorer_server.Prelude.{
  ◌≡◌, refl, Option, none, some, inl, inr, ◌⊎◌, Option-cases, List, [], ◌∷◌, ◌++◌,
}
use kexplorer_server.Prelude.Text.{Str}
use kexplorer_server.Property.{Property, Any, TypeId, any_type}
use kexplorer_server.Registry.{Registry}
use kexplorer_server.Bag.Json.{Event, start_object, end_object, start_array, end_array, key}
use kexplorer_server.Bag.{PropertyBag, Bags, Entries}
use kexplorer_server.Bag.ToJson.{
  Written, written, thrown, WriteError, bad_cast, ◌then_write◌, write_value, written_type,
  property_to_json, skip_empty, keyed, bag_to_json, bags_to_json, entries_to_json,
}

-- The writing comes back, with the calls made or by an exception.
pub data Finishes : Written → Type 0 where
  wrote : (es : _) → Finishes (written es)
  threw : (e : WriteError) → Finishes (thrown e)

pub finished :
    {w : Written}
    → Finishes w
    → ((es : List Event) × (w ≡ written es)) ⊎ ((e : WriteError) × (w ≡ thrown e))
finished (Finishes.wrote es) = inl (es, refl)
finished (Finishes.threw e) = inr (e, refl)

then_write-Finishes : {v w : Written} → Finishes v → Finishes w → Finishes (v then_write w)
then_write-Finishes (Finishes.wrote es) (Finishes.wrote fs) = Finishes.wrote (es ++ fs)
then_write-Finishes (Finishes.wrote es) (Finishes.threw e) = Finishes.threw e
then_write-Finishes (Finishes.threw e) f = Finishes.threw e

write_value-Finishes : (type : Option TypeId) (v : Any) → Finishes (write_value type v)
unfolding write_value
write_value-Finishes none v = Finishes.wrote []
write_value-Finishes (some TypeId.bool) v =
    elim v as (λ u. Finishes (write_value (some TypeId.bool) u)) [
      | Any.bool b ↦ Finishes.wrote _
      | _ ↦ Finishes.threw bad_cast
    ]
write_value-Finishes (some TypeId.int) v =
    elim v as (λ u. Finishes (write_value (some TypeId.int) u)) [
      | Any.int b ↦ Finishes.wrote _
      | _ ↦ Finishes.threw bad_cast
    ]
write_value-Finishes (some TypeId.uint) v =
    elim v as (λ u. Finishes (write_value (some TypeId.uint) u)) [
      | Any.uint b ↦ Finishes.wrote _
      | _ ↦ Finishes.threw bad_cast
    ]
write_value-Finishes (some TypeId.int64) v =
    elim v as (λ u. Finishes (write_value (some TypeId.int64) u)) [
      | Any.int64 b ↦ Finishes.wrote _
      | _ ↦ Finishes.threw bad_cast
    ]
write_value-Finishes (some TypeId.uint64) v =
    elim v as (λ u. Finishes (write_value (some TypeId.uint64) u)) [
      | Any.uint64 b ↦ Finishes.wrote _
      | _ ↦ Finishes.threw bad_cast
    ]
write_value-Finishes (some TypeId.string) v =
    elim v as (λ u. Finishes (write_value (some TypeId.string) u)) [
      | Any.string b ↦ Finishes.wrote _
      | _ ↦ Finishes.threw bad_cast
    ]
write_value-Finishes (some TypeId.double) v = Finishes.wrote []
write_value-Finishes (some TypeId.array) v = Finishes.wrote []
write_value-Finishes (some TypeId.table) v = Finishes.wrote []
write_value-Finishes (some TypeId.other) v = Finishes.wrote []

keyed-Finishes : (name : Str) {w : Written} → Finishes w → Finishes (keyed name w)
keyed-Finishes [] f = f
keyed-Finishes (c ∷ name) f = then_write-Finishes (Finishes.wrote (key (c ∷ name) ∷ [])) f

bracketed :
    {w : Written} (a b : _)
    → Finishes w
    → Finishes (written (a ∷ []) then_write w then_write written (b ∷ []))
bracketed a b f =
    then_write-Finishes (Finishes.wrote (a ∷ [])) (then_write-Finishes f (Finishes.wrote (b ∷ [])))

module _ (registry : Registry) where
  property_to_json-Finishes : (p : Property) → Finishes (property_to_json registry p)
  unfolding property_to_json
  property_to_json-Finishes p = elim (Option-cases (any_type p.value)) [
    | inl void ↦ rw (void, property_to_json) (Finishes.threw _)
    | inr (type, stored) ↦
        rw (stored, property_to_json) (write_value-Finishes (written_type registry p) p.value)
  ]

  mutual
    unfolding bag_to_json

    bags_to_json-Finishes : (bs : Bags) → Finishes (bags_to_json registry bs)
    bags_to_json-Finishes Bags.nil = Finishes.wrote []
    bags_to_json-Finishes (Bags.cons b bs) =
        then_write-Finishes (listed-Finishes b) (bags_to_json-Finishes bs)

    entries_to_json-Finishes : (es : Entries) → Finishes (entries_to_json registry es)
    entries_to_json-Finishes Entries.end = Finishes.wrote []
    entries_to_json-Finishes (Entries.entry k b es) =
        then_write-Finishes (listed-Finishes b) (entries_to_json-Finishes es)

    listed-Finishes : (b : PropertyBag) → Finishes (skip_empty b (bag_to_json registry b))
    listed-Finishes (PropertyBag.empty name) = Finishes.wrote []
    listed-Finishes (PropertyBag.property name p) =
        keyed-Finishes name (property_to_json-Finishes p)
    listed-Finishes (PropertyBag.array name bs) =
        keyed-Finishes name (bracketed start_array end_array (bags_to_json-Finishes bs))
    listed-Finishes (PropertyBag.table name es) =
        keyed-Finishes name (bracketed start_object end_object (entries_to_json-Finishes es))

  -- The writing of a table comes back, with the calls made or by an exception: no empty bag at any
  -- depth ends the server.
  pub table_to_json-Finishes :
      (name : Str) (es : Entries) → Finishes (bag_to_json registry (PropertyBag.table name es))
  table_to_json-Finishes name es = listed-Finishes (PropertyBag.table name es)
