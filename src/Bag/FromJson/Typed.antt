-- ===== src/Bag/FromJson/Typed.antt =====
-- The values that the reader makes have the types of the properties that they are values of.
use kexplorer_server.Prelude.{ℕ, ◌+◌, ◌≡◌, refl, some, [], inl, inr, Option-cases}
use kexplorer_server.Prelude.Text.{Str, c_str}
use kexplorer_server.Property.{PropertyInfo, TypeId}
use kexplorer_server.Registry.{Registry, lookup_name}
use kexplorer_server.Session.{CallbackResult}
use kexplorer_server.Bag.Json.{Json, Items, Members, Numbers}
use kexplorer_server.Bag.{PropertyBag, Bags, Entries, insert}
use kexplorer_server.Bag.FromJson.{
  JsonError, Reading, value, mismatch, unknown, Reader, pure, ◌>>=◌, report, scalar_property,
  known_property, typed_array, scalar_item, array_from_json, bag_from_json, item_from_json,
  items_from_json, members_from_json,
}
use kexplorer_server.Bag.FromJson.Types.{
  IsDescribed, IsTyped, IsOf, AreOf, AreTyped, insert-AreTyped, Reads, read_scalar-Reads, Holds,
  Holds-weaker, Gives, bind-Gives, report_result,
}

module _ {N : Type 0} (numbers : Numbers N) {H : Type 0}
    (handle : H → JsonError → H × CallbackResult) (registry : Registry) where
  report-Gives :
      {A : Type 0} (P : A → Type 0) (e : JsonError) (a : A)
      → P a
      → Gives P (report numbers handle registry e a)
  unfolding report
  report-Gives P e a p h = report_result P e a (handle h e) p

  scalar_property-Gives :
      (name : Str) (info : PropertyInfo) (r : Reading)
      → lookup_name registry name ≡ some info
      → Reads info.type r
      → Gives (IsDescribed registry name) (scalar_property numbers handle registry name info r)
  unfolding scalar_property
  scalar_property-Gives name info (value v) there t h = inr (info, there, refl, refl, t)
  scalar_property-Gives name info mismatch there t h =
      report-Gives (IsDescribed registry name) _ _ (inl refl) h
  scalar_property-Gives name info unknown there t h =
      report-Gives (IsDescribed registry name) _ _ (inl refl) h

  known_property-Gives :
      (name : Str) (v : Json N)
      → Gives (IsDescribed registry name) (known_property numbers handle registry name v)
  unfolding known_property
  known_property-Gives name v h = elim (Option-cases (lookup_name registry name)) [
    | inl missing ↦
        rw (missing, known_property) (report-Gives (IsDescribed registry name) _ _ (inl refl) h)
    | inr (info, there) ↦
        rw (there, known_property)
          (scalar_property-Gives name info _ there (read_scalar-Reads numbers info.type v) h)
  ]

  property-Gives :
      (name : Str) (v : Json N)
      → Gives (IsTyped registry) (
          known_property numbers handle registry name v >>= λ p. pure (PropertyBag.property name p))
  property-Gives name v =
      bind-Gives (IsDescribed registry name) (IsTyped registry)
        (known_property numbers handle registry name v) (λ p. pure (PropertyBag.property name p))
        (known_property-Gives name v) (λ p d h. IsTyped.property d)

  scalar_item-Gives :
      (name : Str) (i : ℕ) (type : TypeId) (r : Reading)
      → Reads type r
      → Gives (IsOf registry type) (scalar_item numbers handle registry name i type r)
  unfolding scalar_item
  scalar_item-Gives name i type (value v) t h = IsOf.item t
  scalar_item-Gives name i type mismatch t h =
      report-Gives (IsOf registry type) _ _ (IsOf.no_item) h
  scalar_item-Gives name i type unknown t h = report-Gives (IsOf registry type) _ _ (IsOf.no_item) h

  -- The elements that an array of this name may have.
  abbrev Elements : Str → Bags → Type 0
  Elements name bs = IsTyped registry (PropertyBag.array name bs)

  typed_array-Gives :
      (name : Str) (items : TypeId → Reader H Bags) (info : PropertyInfo) (type : TypeId)
      → ((base : TypeId) → Gives (AreOf registry base) (items base))
      → lookup_name registry name ≡ some info
      → info.type ≡ type
      → Gives (Elements name) (typed_array numbers handle registry name type info.base items)
  unfolding typed_array
  typed_array-Gives name items info TypeId.array g there e h =
      Holds-weaker (AreOf registry info.base) (Elements name) _
        (λ bs t. IsTyped.array (info, there, e, refl) t) (g info.base h)
  typed_array-Gives name items info _ g there e h =
      report-Gives (Elements name) _ _ (IsTyped.nothing name) h

  array-Gives :
      (name : Str) (items : TypeId → Reader H Bags)
      → ((base : TypeId) → Gives (AreOf registry base) (items base))
      → Gives (Elements name) (array_from_json numbers handle registry name items)
  unfolding array_from_json
  array-Gives name items g h = elim (Option-cases (lookup_name registry name)) [
    | inl missing ↦
        rw (missing, array_from_json) (report-Gives (Elements name) _ _ (IsTyped.nothing name) h)
    | inr (info, there) ↦
        rw (there, array_from_json) (typed_array-Gives name items info info.type g there refl h)
  ]

  mutual
    unfolding bag_from_json

    bag-Gives :
        (name : Str) (v : Json N)
        → Gives (IsTyped registry) (bag_from_json numbers handle registry name v)
    bag-Gives name (Json.obj ms) h =
        bind-Gives (AreTyped registry) (IsTyped registry)
          (members_from_json numbers handle registry ms Entries.end)
          (λ es. pure (PropertyBag.table name es)) (members-Gives ms Entries.end AreTyped.end)
          (λ es t h. IsTyped.table t) h
    bag-Gives name (Json.arr xs) h =
        bind-Gives (Elements name) (IsTyped registry)
          (array_from_json numbers handle registry name
            (λ base. items_from_json numbers handle registry name base 0 xs))
          (λ bs. pure (PropertyBag.array name bs))
          (array-Gives name (λ base. items_from_json numbers handle registry name base 0 xs)
            (λ base. items-Gives name base 0 xs))
          (λ bs t h. t) h
    bag-Gives name Json.null h = property-Gives name Json.null h
    bag-Gives name (Json.bool b) h = property-Gives name (Json.bool b) h
    bag-Gives name (Json.num n) h = property-Gives name (Json.num n) h
    bag-Gives name (Json.str s) h = property-Gives name (Json.str s) h

    item-Gives :
        (name : Str) (base : TypeId) (i : ℕ) (v : Json N)
        → Gives (IsOf registry base) (item_from_json numbers handle registry name base i v)
    item-Gives name base i (Json.arr xs) h = report-Gives (IsOf registry base) _ _ IsOf.no_item h
    item-Gives name base i (Json.obj ms) h =
        bind-Gives (AreTyped registry) (IsOf registry base)
          (members_from_json numbers handle registry ms Entries.end)
          (λ es. pure (PropertyBag.table [] es)) (members-Gives ms Entries.end AreTyped.end)
          (λ es t h. IsOf.table_item t) h
    item-Gives name base i Json.null h =
        scalar_item-Gives name i base _ (read_scalar-Reads numbers base Json.null) h
    item-Gives name base i (Json.bool b) h =
        scalar_item-Gives name i base _ (read_scalar-Reads numbers base (Json.bool b)) h
    item-Gives name base i (Json.num n) h =
        scalar_item-Gives name i base _ (read_scalar-Reads numbers base (Json.num n)) h
    item-Gives name base i (Json.str s) h =
        scalar_item-Gives name i base _ (read_scalar-Reads numbers base (Json.str s)) h

    items-Gives :
        (name : Str) (base : TypeId) (i : ℕ) (xs : Items N)
        → Gives (AreOf registry base) (items_from_json numbers handle registry name base i xs)
    items-Gives name base i Items.nil h = AreOf.nil
    items-Gives name base i (Items.cons v vs) h =
        bind-Gives (IsOf registry base) (AreOf registry base)
          (item_from_json numbers handle registry name base i v)
          (λ b. items_from_json numbers handle registry name base (i + 1) vs >>= λ bs.
            pure (Bags.cons b bs))
          (item-Gives name base i v)
          (λ b t.
            bind-Gives (AreOf registry base) (AreOf registry base)
              (items_from_json numbers handle registry name base (i + 1) vs)
              (λ bs. pure (Bags.cons b bs)) (items-Gives name base (i + 1) vs)
              (λ bs u h. AreOf.cons t u))
          h

    members-Gives :
        (ms : Members N) (es : Entries)
        → AreTyped registry es
        → Gives (AreTyped registry) (members_from_json numbers handle registry ms es)
    members-Gives Members.end es t h = t
    members-Gives (Members.member k v ms) es t h =
        bind-Gives (IsTyped registry) (AreTyped registry)
          (bag_from_json numbers handle registry (c_str k) v)
          (λ b. members_from_json numbers handle registry ms (insert k b es))
          (bag-Gives (c_str k) v)
          (λ b u. members-Gives ms (insert k b es) (insert-AreTyped k b es u t)) h

  -- Whatever the error handler does, each property of a bag that the reader returns is without a
  -- value or has the id and a value of the type that the registry holds for its name, and each
  -- element of an array is a table, nothing, or a value of the base type that the registry holds
  -- for the array.
  pub bag_from_json-IsTyped :
      (name : Str) (v : Json N) (h : H)
      → Holds (IsTyped registry) (bag_from_json numbers handle registry name v h).1
  bag_from_json-IsTyped name v h = bag-Gives name v h
