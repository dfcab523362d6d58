-- ===== src/Bag/ToJson.antt =====
-- src/kesrv/propertybag.cxx, the writing half: property bags to calls of a JSON writer. Assertions
-- are off, as in a release build.
pub mod Laws
use kexplorer_server.Prelude.{
  ℕ, Bool, true, false, Option, none, some, if◌then◌else◌, List, [], ◌∷◌, ◌++◌, null,
}
use kexplorer_server.Prelude.Int.{ℤ}
use kexplorer_server.Prelude.Text.{Str}
use kexplorer_server.Property.{Property, PropertyInfo, Any, TypeId, any_type}
use kexplorer_server.Registry.{Registry, lookup_id}
use kexplorer_server.Bag.Json.{Event, start_object, end_object, start_array, end_array, key}
use kexplorer_server.Bag.{PropertyBag, Bags, Entries}

-- The two exceptions: a property with no value, and a value of another type (`std::bad_any_cast`).
pub data WriteError : Type 0 where
  no_value : ℕ → WriteError
  bad_cast : WriteError

-- The calls made, or how the writing ended early.
pub data Written : Type 0 where
  written : List Event → Written
  thrown : WriteError → Written
  terminates : Written

infixr 6 ◌then_write◌
abbrev pub ◌then_write◌ : Written → Written → Written
written es then_write written fs = written (es ++ fs)
written es then_write thrown e = thrown e
written es then_write terminates = terminates
thrown e then_write w = thrown e
terminates then_write w = terminates

-- The chain of tests on `*type`, each with its `std::any_cast`. A type with no branch writes nothing.
unfoldable pub write_value : Option TypeId → Any → Written
write_value none v = written []
write_value (some TypeId.bool) v = elim v [
  | Any.bool b ↦ written (Event.bool b ∷ [])
  | _ ↦ thrown bad_cast
]
write_value (some TypeId.int) v = elim v [
  | Any.int z ↦ written (Event.int z ∷ [])
  | _ ↦ thrown bad_cast
]
write_value (some TypeId.uint) v = elim v [
  | Any.uint n ↦ written (Event.uint n ∷ [])
  | _ ↦ thrown bad_cast
]
write_value (some TypeId.int64) v = elim v [
  | Any.int64 z ↦ written (Event.int64 z ∷ [])
  | _ ↦ thrown bad_cast
]
write_value (some TypeId.uint64) v = elim v [
  | Any.uint64 n ↦ written (Event.uint64 n ∷ [])
  | _ ↦ thrown bad_cast
]
write_value (some TypeId.string) v = elim v [
  | Any.string s ↦ written (Event.string s ∷ [])
  | _ ↦ thrown bad_cast
]
write_value (some TypeId.double) v = written []
write_value (some TypeId.array) v = written []
write_value (some TypeId.table) v = written []
write_value (some TypeId.other) v = written []

module _ (registry : Registry) where
  -- The type to write as: that of the description at hand or registered, else the value's own.
  unfoldable pub written_type : Property → Option TypeId
  written_type p = elim p.info [
    | some info ↦ some info.type
    | none ↦ elim (lookup_id registry p.id) [ some info ↦ some info.type | none ↦ any_type p.value ]
  ]

  -- `propertyToJson` on a property.
  unfoldable pub property_to_json : Property → Written
  unfolding write_value written_type
  property_to_json p = elim (any_type p.value) [
    | none ↦ thrown (no_value p.id)
    | some _ ↦ write_value (written_type p) p.value
  ]

-- What the loops do for one bag: nothing if it is empty.
abbrev pub skip_empty : PropertyBag → Written → Written
skip_empty (PropertyBag.empty n) w = written []
skip_empty _ w = w

-- `if (!bag.name().empty()) writer.Key(...)`.
abbrev pub keyed : Str → Written → Written
keyed name w = if null name then w else written (key name ∷ []) then_write w

module _ (registry : Registry) where
  unfoldable mutual
    unfolding property_to_json

    -- `propertyBagToJson`. `propertyToJson` on an empty bag lets an exception out of `property()`.
    pub bag_to_json : PropertyBag → Written
    bag_to_json (PropertyBag.empty name) = keyed name terminates
    bag_to_json (PropertyBag.property name p) = keyed name (property_to_json registry p)
    bag_to_json (PropertyBag.array name bs) =
        keyed name (
          written (start_array ∷ []) then_write bags_to_json bs then_write written (end_array ∷ []))
    bag_to_json (PropertyBag.table name es) = keyed name (
        written (start_object ∷ [])
        then_write entries_to_json es
        then_write written (end_object ∷ []))

    -- The loop of `arrayToJson`, which skips empty bags.
    pub bags_to_json : Bags → Written
    bags_to_json Bags.nil = written []
    bags_to_json (Bags.cons b bs) = skip_empty b (bag_to_json b) then_write bags_to_json bs

    -- The loop of `tableToJson`, which skips empty bags, and writes the name of the bag, not its key.
    pub entries_to_json : Entries → Written
    entries_to_json Entries.end = written []
    entries_to_json (Entries.entry k b es) =
        skip_empty b (bag_to_json b) then_write entries_to_json es
