-- ===== src/Bag/FromJson.antt =====
-- src/kesrv/propertybag.cxx, the reading half: JSON documents to property bags.
pub mod Reference
pub mod Pure
pub mod Types
pub mod Typed
use kexplorer_server.Prelude.{
  ℕ, ◌+◌, Bool, true, false, Option, none, some, if◌then◌else◌, List, [], ◌∷◌, ◌==◌,
}
use kexplorer_server.Prelude.Int.{ℤ}
use kexplorer_server.Prelude.Text.{Str, c_str}
use kexplorer_server.Property.{Property, PropertyInfo, Any, TypeId, no_property, invalid_prop_id}
use kexplorer_server.Registry.{Registry, lookup_name}
use kexplorer_server.Session.{CallbackResult, continues, aborts}
use kexplorer_server.Bag.Json.{Json, Items, Members, Numbers}
use kexplorer_server.Bag.{PropertyBag, Bags, Entries, no_bag, insert}

-- The messages of `handleError`, before formatting.
pub data JsonError : Type 0 where
  array_for_scalar object_for_scalar unsupported : Str → JsonError
  wrong_type unsupported_type : Str → TypeId → JsonError
  item_is_array : Str → ℕ → JsonError
  item_wrong_type item_unsupported_type : Str → ℕ → TypeId → JsonError
  not_array_property : Str → JsonError

-- A value, or the exception of `handleError`.
pub data Result {ℓ} (A : Type ℓ) : Type ℓ where
  ok : A → Result A
  thrown : JsonError → Result A

pub data Reading : Type 0 where
  value : Any → Reading
  mismatch unknown : Reading

abbrev found {ℓ} : {A : Type ℓ} → (A → Any) → Option A → Reading
found f none = mismatch
found f (some a) = value (f a)

module _ {N : Type 0} (numbers : Numbers N) where
  abbrev as_number {ℓ} : {A : Type ℓ} → (N → Option A) → Json N → Option A
  as_number f (Json.num n) = f n
  as_number f _ = none

  abbrev as_bool : Json N → Option Bool
  as_bool (Json.bool b) = some b
  as_bool _ = none

  abbrev as_string : Json N → Option Str
  as_string (Json.str s) = some s
  as_string _ = none

  -- The chain of tests on `type`, with the test of `v` in each branch.
  unfoldable pub read_scalar : TypeId → Json N → Reading
  read_scalar TypeId.bool v = found Any.bool (as_bool v)
  read_scalar TypeId.int v = found Any.int (as_number numbers.as_int v)
  read_scalar TypeId.int64 v = found Any.int64 (as_number numbers.as_int64 v)
  read_scalar TypeId.uint v = found Any.uint (as_number numbers.as_uint v)
  read_scalar TypeId.uint64 v = found Any.uint64 (as_number numbers.as_uint64 v)
  read_scalar TypeId.double v = found Any.double (as_number numbers.as_double v)
  read_scalar TypeId.string v = found Any.string (as_string v)
  read_scalar TypeId.array v = unknown
  read_scalar TypeId.table v = unknown
  read_scalar TypeId.other v = unknown

-- The reader is given the registry, the state `H` of the error handler, and its `handle`.
abbrev pub Reader {ℓ} : Type 0 → Type ℓ → Type ℓ
Reader H A = H → H × Result A

abbrev pub pure {ℓ} : {H : Type 0} {A : Type ℓ} → A → Reader H A
pure a h = (h, ok a)

infixl 5 ◌>>=◌
abbrev pub ◌>>=◌ {ℓ κ} :
    {H : Type 0} {A : Type ℓ} {B : Type κ} → Reader H A → (A → Reader H B) → Reader H B
◌>>=◌ m f h = let (h', r) = m h in elim r [ ok a ↦ f a h' | thrown e ↦ (h', thrown e) ]

module _ {N : Type 0} (numbers : Numbers N) {H : Type 0}
    (handle : H → JsonError → H × CallbackResult) (registry : Registry) where
  -- `handleError`, and the value that the caller returns if it comes back.
  unfoldable pub report {ℓ} : {A : Type ℓ} → JsonError → A → Reader H A
  report e a h =
      let (h', action) = handle h e in
      elim action [ continues ↦ (h', ok a) | aborts ↦ (h', thrown e) ]

  unfoldable pub scalar_property : Str → PropertyInfo → Reading → Reader H Property
  unfolding report
  scalar_property name info (value v) = pure (record { id = info.id; value = v; info = some info })
  scalar_property name info mismatch = report (wrong_type name info.type) no_property
  scalar_property name info unknown = report (unsupported_type name info.type) no_property

  -- The part of `propertyFromJsonValue` behind its first two tests.
  unfoldable pub known_property : Str → Json N → Reader H Property
  unfolding scalar_property
  known_property name v = elim (lookup_name registry name) [
    | none ↦ report (unsupported name) no_property
    | some info ↦ scalar_property name info (read_scalar numbers info.type v)
  ]

  -- `propertyFromJsonValue`.
  unfoldable pub property_from_json : Str → Json N → Reader H Property
  property_from_json name (Json.arr xs) = report (array_for_scalar name) no_property
  property_from_json name (Json.obj ms) = report (object_for_scalar name) no_property
  property_from_json name v = known_property name v

  unfoldable pub scalar_item : Str → ℕ → TypeId → Reading → Reader H PropertyBag
  unfolding report
  scalar_item name i type (value v) =
      pure (PropertyBag.property [] (record { id = invalid_prop_id; value = v; info = none }))
  scalar_item name i type mismatch = report (item_wrong_type name i type) no_bag
  scalar_item name i type unknown = report (item_unsupported_type name i type) no_bag

  unfoldable pub typed_array : Str → TypeId → TypeId → (TypeId → Reader H Bags) → Reader H Bags
  unfolding report
  typed_array name TypeId.array base items = items base
  typed_array name _ base items = report (not_array_property name) Bags.nil

  -- `arrayFromJsonValue`; the argument is its loop, given the base type. The caller has tested
  -- `IsArray`.
  unfoldable pub array_from_json : Str → (TypeId → Reader H Bags) → Reader H Bags
  unfolding typed_array
  array_from_json name items = elim (lookup_name registry name) [
    | none ↦ report (unsupported name) Bags.nil
    | some info ↦ typed_array name info.type info.base items
  ]

  unfoldable mutual
    unfolding property_from_json scalar_item array_from_json

    -- `propertyBagFromJsonValue`.
    pub bag_from_json : Str → Json N → Reader H PropertyBag
    bag_from_json name (Json.obj ms) =
        members_from_json ms Entries.end >>= λ es. pure (PropertyBag.table name es)
    bag_from_json name (Json.arr xs) =
        array_from_json name (λ base. items_from_json name base 0 xs) >>= λ bs.
        pure (PropertyBag.array name bs)
    bag_from_json name Json.null =
        property_from_json name Json.null >>= λ p. pure (PropertyBag.property name p)
    bag_from_json name (Json.bool b) =
        property_from_json name (Json.bool b) >>= λ p. pure (PropertyBag.property name p)
    bag_from_json name (Json.num n) =
        property_from_json name (Json.num n) >>= λ p. pure (PropertyBag.property name p)
    bag_from_json name (Json.str s) =
        property_from_json name (Json.str s) >>= λ p. pure (PropertyBag.property name p)

    -- `arrayItemFromJson`; an object goes through `propertyBagFromJsonValue` with no name.
    pub item_from_json : Str → TypeId → ℕ → Json N → Reader H PropertyBag
    item_from_json name base i (Json.arr xs) = report (item_is_array name i) no_bag
    item_from_json name base i (Json.obj ms) =
        members_from_json ms Entries.end >>= λ es. pure (PropertyBag.table [] es)
    item_from_json name base i Json.null =
        scalar_item name i base (read_scalar numbers base Json.null)
    item_from_json name base i (Json.bool b) =
        scalar_item name i base (read_scalar numbers base (Json.bool b))
    item_from_json name base i (Json.num n) =
        scalar_item name i base (read_scalar numbers base (Json.num n))
    item_from_json name base i (Json.str s) =
        scalar_item name i base (read_scalar numbers base (Json.str s))

    -- The loop of `arrayFromJsonValue`.
    pub items_from_json : Str → TypeId → ℕ → Items N → Reader H Bags
    items_from_json name base i Items.nil = pure Bags.nil
    items_from_json name base i (Items.cons v vs) = item_from_json name base i v >>= λ b.
        items_from_json name base (i + 1) vs >>= λ bs. pure (Bags.cons b bs)

    -- The loop of `tableFromJsonValue`, with the table so far.
    pub members_from_json : Members N → Entries → Reader H Entries
    members_from_json Members.end es = pure es
    members_from_json (Members.member k v ms) es =
        bag_from_json (c_str k) v >>= λ b. members_from_json ms (insert k b es)
