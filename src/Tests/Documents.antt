-- ===== src/Tests/Documents.antt =====
-- A small document, and the table that is read from it and written again.
use kexplorer_server.Prelude.{ℕ, ◌≡◌, refl, Option, none, some, true, false, List, [], ◌∷◌, arith}
use kexplorer_server.Prelude.Int.{ℤ, pos, negsuc}
use kexplorer_server.Prelude.Text.{str_eq, codes}
use kexplorer_server.Prelude.Map.{or_else}
use kexplorer_server.Property.{PropertyInfo, TypeId, Any, any_type}
use kexplorer_server.Registry.{Registry, lookup_name, lookup_id}
use kexplorer_server.Bag.{PropertyBag, Entries, name, find, insert}
use kexplorer_server.Bag.Json.{Json, Members, Numbers, Event, start_object, end_object, key}
use kexplorer_server.Prelude.Text.{c_str}
use kexplorer_server.Bag.FromJson.{read_scalar, ok, bag_from_json}
use kexplorer_server.Bag.FromJson.Pure.{bag_from_json_lem}
use kexplorer_server.Bag.FromJson.Types.{IsTyped, Holds}
use kexplorer_server.Bag.FromJson.Typed.{bag_from_json-IsTyped}
use kexplorer_server.Bag.FromJson.Reference.{property_of, bag_of, entries_of}
use kexplorer_server.Bag.ToJson.{written, bag_to_json, property_to_json, write_value, written_type}
use kexplorer_server.Bag.RoundTrip.{Numerals, IsScalar, IsWhole, AreWhole, Writes}
use kexplorer_server.Bag.RoundTrip.Both.{bag_from_json-bag_to_json}
use kexplorer_server.Requests.{JsonErrors, handle}

-- Numbers that are all small naturals.
abbrev pub naturals : Numbers ℕ
naturals = record {
  as_int = λ n. some (pos n);
  as_int64 = λ n. some (pos n);
  as_uint = some;
  as_uint64 = some;
  as_double = λ n. none;
}

abbrev size_info : PropertyInfo
size_info = record {
  type = TypeId.uint;
  base = TypeId.uint;
  id = 1;
  idstr = codes "size";
  name = codes "Size";
}

abbrev sizes : Registry
sizes = record { props_by_id = (1, size_info) ∷ []; props_by_name = (codes "size", size_info) ∷ [] }

-- {"size": 4, "size": 5, "other": true}
abbrev members : Members ℕ
members = Members.member (codes "size") (Json.num 4) (
    Members.member (codes "size") (Json.num 5)
      (Members.member (codes "other") (Json.bool true) Members.end))

abbrev entries : Entries
entries =
    Entries.entry (codes "size")
      (PropertyBag.property (codes "size")
        (record { id = 1; value = Any.uint 4; info = some size_info }))
      Entries.end

read_back :
    find (codes "size") (entries_of naturals sizes members Entries.end)
    ≡ some (
        PropertyBag.property
          (codes "size")
          (record { id = 1; value = Any.uint 4; info = some size_info }))
unfolding bag_of entries_of find insert c_str property_of lookup_name str_eq read_scalar
    kexplorer_server.Prelude.Map.find
read_back = refl

written_out :
    bag_to_json sizes (PropertyBag.table [] entries)
    ≡ written (start_object ∷ key (codes "size") ∷ Event.uint 4 ∷ end_object ∷ [])
unfolding bag_to_json property_to_json write_value written_type any_type
written_out = refl

abbrev no_errors : JsonErrors
no_errors = record { errors = false; message = none }

bag_from_json_lem_example :
    (bag_from_json naturals handle sizes [] (Json.obj members) no_errors).1
    ≡ ok (bag_of naturals sizes [] (Json.obj members))
unfolding handle
bag_from_json_lem_example =
    bag_from_json_lem naturals handle sizes (λ h e. refl) [] (Json.obj members) no_errors

bag_from_json-IsTyped_example :
    Holds (IsTyped sizes) (bag_from_json naturals handle sizes [] (Json.obj members) no_errors).1
bag_from_json-IsTyped_example =
    bag_from_json-IsTyped naturals handle sizes [] (Json.obj members) no_errors

abbrev natural : ℤ → Option ℕ
natural (pos n) = some n
natural (negsuc n) = none

-- Numbers that are integers of any size.
abbrev integers : Numbers ℤ
integers = record {
  as_int = some;
  as_int64 = some;
  as_uint = natural;
  as_uint64 = natural;
  as_double = λ z. none;
}

abbrev plain : Numerals integers
plain = record {
  of_int = λ z. z;
  of_nat = pos;
  int_back = λ z h. refl;
  int64_back = λ z h. refl;
  uint_back = λ n h. refl;
  uint64_back = λ n h. refl;
}

-- {"size": 4, "box": {"size": 4}}
abbrev nested : Entries
nested =
    Entries.entry (codes "size")
      (PropertyBag.property (codes "size")
        (record { id = 1; value = Any.uint 4; info = some size_info }))
      (Entries.entry (codes "box") (PropertyBag.table (codes "box") entries) Entries.end)

entries-AreWhole : AreWhole sizes entries
unfolding name c_str find lookup_name str_eq kexplorer_server.Prelude.Map.find
entries-AreWhole =
    AreWhole.entry refl refl refl (IsWhole.property refl (IsScalar.uint 4 (omega arith)))
      AreWhole.end

nested-AreWhole : AreWhole sizes nested
unfolding name c_str find lookup_name str_eq kexplorer_server.Prelude.Map.find
nested-AreWhole =
    AreWhole.entry refl refl refl (IsWhole.property refl (IsScalar.uint 4 (omega arith)))
      (AreWhole.entry refl refl refl (IsWhole.table entries-AreWhole) AreWhole.end)

bag_from_json-bag_to_json_example :
    (events : List Event) × (doc : Json ℤ) × (bag_to_json sizes (PropertyBag.table [] nested)
      ≡ written events)
    × Writes plain events doc
    × (bag_from_json integers handle sizes [] doc no_errors
        ≡ (no_errors, ok (PropertyBag.table [] nested)))
unfolding lookup_id kexplorer_server.Prelude.Map.find
bag_from_json-bag_to_json_example =
    bag_from_json-bag_to_json plain sizes handle nested no_errors refl nested-AreWhole
