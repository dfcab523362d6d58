-- ===== src/Bag/FromJson/Reference.antt =====
-- The reader under an error handler that never aborts, as plain functions of the document.
use kexplorer_server.Prelude.{Option, none, some, []}
use kexplorer_server.Prelude.Text.{Str}
use kexplorer_server.Property.{Property, PropertyInfo, TypeId, no_property, invalid_prop_id}
use kexplorer_server.Registry.{Registry, lookup_name}
use kexplorer_server.Bag.Json.{Json, Items, Members, Numbers}
use kexplorer_server.Bag.{PropertyBag, Bags, Entries, no_bag, insert}
use kexplorer_server.Prelude.Text.{c_str}
use kexplorer_server.Bag.FromJson.{Reading, value, mismatch, unknown, read_scalar}

module _ {N : Type 0} (numbers : Numbers N) (registry : Registry) where
  unfoldable pub described : PropertyInfo → Reading → Property
  described info (value v) = record { id = info.id; value = v; info = some info }
  described info mismatch = no_property
  described info unknown = no_property

  -- A scalar under a known name of its type, else a property without a value.
  unfoldable pub property_of : Str → Json N → Property
  unfolding described
  property_of name v = elim (lookup_name registry name) [
    | none ↦ no_property
    | some info ↦ described info (read_scalar numbers info.type v)
  ]

  unfoldable pub item_value : Reading → PropertyBag
  item_value (value v) =
      PropertyBag.property [] (record { id = invalid_prop_id; value = v; info = none })
  item_value mismatch = no_bag
  item_value unknown = no_bag

  unfoldable pub base_of : TypeId → TypeId → Option TypeId
  base_of TypeId.array base = some base
  base_of _ base = none

  -- The base type of the array property of this name.
  unfoldable pub array_base : Str → Option TypeId
  unfolding base_of
  array_base name = elim (lookup_name registry name) [
    | none ↦ none
    | some info ↦ base_of info.type info.base
  ]

  abbrev pub listed : Option TypeId → (TypeId → Bags) → Bags
  listed none f = Bags.nil
  listed (some base) f = f base

  unfoldable mutual
    unfolding property_of item_value array_base

    pub bag_of : Str → Json N → PropertyBag
    bag_of name (Json.obj ms) = PropertyBag.table name (entries_of ms Entries.end)
    bag_of name (Json.arr xs) =
        PropertyBag.array name (listed (array_base name) (λ base. bags_of base xs))
    bag_of name Json.null = PropertyBag.property name (property_of name Json.null)
    bag_of name (Json.bool b) = PropertyBag.property name (property_of name (Json.bool b))
    bag_of name (Json.num n) = PropertyBag.property name (property_of name (Json.num n))
    bag_of name (Json.str s) = PropertyBag.property name (property_of name (Json.str s))

    pub item_of : TypeId → Json N → PropertyBag
    item_of base (Json.arr xs) = no_bag
    item_of base (Json.obj ms) = PropertyBag.table [] (entries_of ms Entries.end)
    item_of base Json.null = item_value (read_scalar numbers base Json.null)
    item_of base (Json.bool b) = item_value (read_scalar numbers base (Json.bool b))
    item_of base (Json.num n) = item_value (read_scalar numbers base (Json.num n))
    item_of base (Json.str s) = item_value (read_scalar numbers base (Json.str s))

    pub bags_of : TypeId → Items N → Bags
    bags_of base Items.nil = Bags.nil
    bags_of base (Items.cons v vs) = Bags.cons (item_of base v) (bags_of base vs)

    pub entries_of : Members N → Entries → Entries
    entries_of Members.end es = es
    entries_of (Members.member k v ms) es = entries_of ms (insert k (bag_of (c_str k) v) es)
