-- ===== src/Bag/RoundTrip/Writing.antt =====
-- The calls that write a whole bag make the text of its document.
use kexplorer_server.Prelude.{◌≡◌, refl, ap, ap₂, ◌∙◌, none, some, List, [], ◌∷◌, ◌++◌}
use kexplorer_server.Property.{Property, Any, TypeId, any_type, invalid_prop_id}
use kexplorer_server.Registry.{Registry, lookup_id}
use kexplorer_server.Bag.{PropertyBag, Bags, Entries, name}
use kexplorer_server.Bag.Json.{
  Numbers, Event, start_object, end_object, start_array, end_array, key,
}
use kexplorer_server.Bag.ToJson.{
  Written, written, ◌then_write◌, write_value, written_type, property_to_json, skip_empty, keyed,
  bag_to_json, bags_to_json, entries_to_json,
}
use kexplorer_server.Bag.RoundTrip.{
  Numerals, IsScalar, IsWhole, IsItem, AreItems, AreWhole, value_document, document, items, members,
  Writes, WritesItems, WritesMembers,
}

pub any_type-IsScalar : {type : TypeId} {v : Any} → IsScalar type v → any_type v ≡ some type
unfolding any_type
any_type-IsScalar (IsScalar.bool b) = refl
any_type-IsScalar (IsScalar.int z h) = refl
any_type-IsScalar (IsScalar.int64 z h) = refl
any_type-IsScalar (IsScalar.uint n h) = refl
any_type-IsScalar (IsScalar.uint64 n h) = refl
any_type-IsScalar (IsScalar.string s) = refl

module _ {N : Type 0} {numbers : Numbers N} (numerals : Numerals numbers) (r : Registry) where
  value-Writes :
      {type : TypeId} {v : Any}
      → IsScalar type v
      → (es : List Event) × (write_value (some type) v ≡ written es)
        × Writes numerals es (value_document numerals v)
  unfolding write_value
  value-Writes (IsScalar.bool b) = (_, refl, Writes.bool b)
  value-Writes (IsScalar.int z h) = (_, refl, Writes.int z)
  value-Writes (IsScalar.int64 z h) = (_, refl, Writes.int64 z)
  value-Writes (IsScalar.uint n h) = (_, refl, Writes.uint n)
  value-Writes (IsScalar.uint64 n h) = (_, refl, Writes.uint64 n)
  value-Writes (IsScalar.string s) = (_, refl, Writes.string s)

  -- A property with a value that is written as a value of its own type.
  property-Writes :
      {type : TypeId} (p : Property)
      → IsScalar type p.value
      → written_type r p ≡ some type
      → (es : List Event) × (property_to_json r p ≡ written es)
        × Writes numerals es (value_document numerals p.value)
  unfolding property_to_json
  property-Writes p v e =
      let (es, w, made) = value-Writes v in
      (es, rw (any_type-IsScalar v, property_to_json, e) w, made)

  item_type :
      {type : TypeId} {v : Any}
      → lookup_id r invalid_prop_id ≡ none
      → IsScalar type v
      → written_type r (record { id = invalid_prop_id; value = v; info = none }) ≡ some type
  unfolding written_type
  item_type unregistered v = rw (unregistered, written_type) (any_type-IsScalar v)

  within_object :
      {w : Written} {es : List Event}
      → w ≡ written es
      → (written (start_object ∷ []) then_write w then_write written (end_object ∷ []))
        ≡ written (start_object ∷ (es ++ (end_object ∷ [])))
  within_object e = rw e refl

  within_array :
      {w : Written} {es : List Event}
      → w ≡ written es
      → (written (start_array ∷ []) then_write w then_write written (end_array ∷ []))
        ≡ written (start_array ∷ (es ++ (end_array ∷ [])))
  within_array e = rw e refl

  module _ (unregistered : lookup_id r invalid_prop_id ≡ none) where
    mutual
      unfolding document bag_to_json name written_type

      pub whole-Writes :
          {b : PropertyBag}
          → IsWhole r b
          → (es : List Event) × (skip_empty b (bag_to_json r b) ≡ keyed (name b) (written es))
            × Writes numerals es (document numerals b)
      whole-Writes (IsWhole.property {name = k} {info = info} {v = u} there v) =
          let (es, w, made) =
            property-Writes (record { id = info.id; value = u; info = some info }) v refl in
          (es, ap (keyed k) w, made)
      whole-Writes (IsWhole.array {name = k} there e are) =
          let (es, w, made) = items-Writes are in
          (_, ap (keyed k) (within_array w), Writes.array made)
      whole-Writes (IsWhole.table {name = k} are) =
          let (es, w, made) = entries-Writes are in
          (_, ap (keyed k) (within_object w), Writes.object made)

      item-Writes :
          {base : TypeId} {b : PropertyBag}
          → IsItem r base b
          → (es : List Event) × (skip_empty b (bag_to_json r b) ≡ written es)
            × Writes numerals es (document numerals b)
      item-Writes (IsItem.value {v = u} v) =
          property-Writes (record { id = invalid_prop_id; value = u; info = none }) v
            (item_type unregistered v)
      item-Writes (IsItem.record_item are) =
          let (es, w, made) = entries-Writes are in (_, within_object w, Writes.object made)

      items-Writes :
          {base : TypeId} {bs : Bags}
          → AreItems r base bs
          → (es : List Event) × (bags_to_json r bs ≡ written es)
            × WritesItems numerals es (items numerals bs)
      items-Writes AreItems.nil = ([], refl, WritesItems.nil)
      items-Writes (AreItems.cons i is) =
          let (es, w, made) = item-Writes i in
          let (fs, u, more) = items-Writes is in
          (es ++ fs, ap₂ ◌then_write◌ w u, WritesItems.cons made more)

      entries-Writes :
          {entries : Entries}
          → AreWhole r entries
          → (es : List Event) × (entries_to_json r entries ≡ written es)
            × WritesMembers numerals es (members numerals entries)
      entries-Writes AreWhole.end = ([], refl, WritesMembers.end)
      entries-Writes (AreWhole.entry {c = c} {k = k} {b = b} same clean once whole rest) =
          let (es, w, made) = whole-Writes whole in
          let (fs, u, more) = entries-Writes rest in
          (
            key (c ∷ k) ∷ (es ++ fs),
            ap₂ ◌then_write◌ (w ∙ ap (λ n. keyed n (written es)) same) u,
            WritesMembers.member (c ∷ k) made more,
          )
