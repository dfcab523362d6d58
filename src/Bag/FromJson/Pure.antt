-- ===== src/Bag/FromJson/Pure.antt =====
-- What the reader returns under an error handler that never aborts.
use kexplorer_server.Prelude.{ℕ, ◌+◌, ◌≡◌, refl, [], inl, inr, Option-cases}
use kexplorer_server.Prelude.Text.{Str}
use kexplorer_server.Property.{PropertyInfo, TypeId}
use kexplorer_server.Registry.{Registry, lookup_name}
use kexplorer_server.Session.{CallbackResult, continues}
use kexplorer_server.Bag.Json.{Json, Items, Members, Numbers}
use kexplorer_server.Bag.{PropertyBag, Bags, Entries, insert}
use kexplorer_server.Bag.FromJson.{
  JsonError, ok, c_str, Reading, value, mismatch, unknown, Reader, pure, ◌>>=◌, report,
  scalar_property, known_property, typed_array, scalar_item, array_from_json, bag_from_json,
  item_from_json, items_from_json, members_from_json,
}
use kexplorer_server.Bag.FromJson.Reference.{
  described, property_of, item_value, base_of, array_base, listed, bag_of, item_of, bags_of,
  entries_of,
}

module _ {H : Type 0} where
  -- The reader returns `a`, whatever the handler's state.
  abbrev Yields {ℓ} : {A : Type ℓ} → Reader H A → A → Type ℓ
  Yields m a = (h : H) → (m h).1 ≡ ok a

  bind-Yields {ℓ κ} :
      {A : Type ℓ} {B : Type κ} (m : Reader H A) (f : A → Reader H B) {a : A} {b : B}
      → Yields m a
      → Yields (f a) b
      → Yields (m >>= f) b
  bind-Yields m f y z h = rw (y h, ◌>>=◌) (z (m h).0)

module _ {N : Type 0} (numbers : Numbers N) {H : Type 0}
    (handle : H → JsonError → H × CallbackResult) (registry : Registry)
    (patient : (h : H) (e : JsonError) → (handle h e).1 ≡ continues) where
  report-Yields {ℓ} :
      {A : Type ℓ} (e : JsonError) (a : A) → Yields (report numbers handle registry e a) a
  unfolding report
  report-Yields e a h = rw (patient h e, report)

  scalar_property-Yields :
      (name : Str) (info : PropertyInfo) (r : Reading)
      → Yields
          (scalar_property numbers handle registry name info r)
          (described numbers registry info r)
  unfolding scalar_property described
  scalar_property-Yields name info (value v) h = refl
  scalar_property-Yields name info mismatch h = report-Yields _ _ h
  scalar_property-Yields name info unknown h = report-Yields _ _ h

  known_property-Yields :
      (name : Str) (v : Json N)
      → Yields (known_property numbers handle registry name v) (property_of numbers registry name v)
  unfolding known_property property_of
  known_property-Yields name v h = elim (Option-cases (lookup_name registry name)) [
    | inl missing ↦ rw (missing, known_property, property_of) (report-Yields _ _ h)
    | inr (info, there) ↦
        rw (there, known_property, property_of) (scalar_property-Yields name info _ h)
  ]

  scalar_item-Yields :
      (name : Str) (i : ℕ) (type : TypeId) (r : Reading)
      → Yields (scalar_item numbers handle registry name i type r) (item_value numbers registry r)
  unfolding scalar_item item_value
  scalar_item-Yields name i type (value v) h = refl
  scalar_item-Yields name i type mismatch h = report-Yields _ _ h
  scalar_item-Yields name i type unknown h = report-Yields _ _ h

  by_type :
      (name : Str) (items : TypeId → Reader H Bags) (f : TypeId → Bags)
      → ((base : TypeId) → Yields (items base) (f base))
      → (type base : TypeId)
      → Yields
          (typed_array numbers handle registry name type base items)
          (listed numbers registry (base_of numbers registry type base) f)
  unfolding typed_array base_of
  by_type name items f y TypeId.array base h = y base h
  by_type name items f y _ base h = report-Yields _ _ h

  array-Yields :
      (name : Str) (items : TypeId → Reader H Bags) (f : TypeId → Bags)
      → ((base : TypeId) → Yields (items base) (f base))
      → Yields
          (array_from_json numbers handle registry name items)
          (listed numbers registry (array_base numbers registry name) f)
  unfolding array_from_json array_base
  array-Yields name items f y h = elim (Option-cases (lookup_name registry name)) [
    | inl missing ↦ rw (missing, array_from_json, array_base) (report-Yields _ _ h)
    | inr (info, there) ↦
        rw (there, array_from_json, array_base) (by_type name items f y info.type info.base h)
  ]

  mutual
    unfolding bag_from_json bag_of

    bag-Yields :
        (name : Str) (v : Json N)
        → Yields (bag_from_json numbers handle registry name v) (bag_of numbers registry name v)
    bag-Yields name (Json.obj ms) h =
        bind-Yields (members_from_json numbers handle registry ms Entries.end)
          (λ es. pure (PropertyBag.table name es)) (members-Yields ms Entries.end) (λ h. refl) h
    bag-Yields name (Json.arr xs) h =
        bind-Yields
          (array_from_json numbers handle registry name
            (λ base. items_from_json numbers handle registry name base 0 xs))
          (λ bs. pure (PropertyBag.array name bs))
          (array-Yields name (λ base. items_from_json numbers handle registry name base 0 xs)
            (λ base. bags_of numbers registry base xs) (λ base. items-Yields name base 0 xs))
          (λ h. refl) h
    bag-Yields name Json.null h =
        bind-Yields (known_property numbers handle registry name Json.null)
          (λ p. pure (PropertyBag.property name p)) (known_property-Yields name Json.null)
          (λ h. refl) h
    bag-Yields name (Json.bool b) h =
        bind-Yields (known_property numbers handle registry name (Json.bool b))
          (λ p. pure (PropertyBag.property name p)) (known_property-Yields name (Json.bool b))
          (λ h. refl) h
    bag-Yields name (Json.num n) h =
        bind-Yields (known_property numbers handle registry name (Json.num n))
          (λ p. pure (PropertyBag.property name p)) (known_property-Yields name (Json.num n))
          (λ h. refl) h
    bag-Yields name (Json.str s) h =
        bind-Yields (known_property numbers handle registry name (Json.str s))
          (λ p. pure (PropertyBag.property name p)) (known_property-Yields name (Json.str s))
          (λ h. refl) h

    item-Yields :
        (name : Str) (base : TypeId) (i : ℕ) (v : Json N)
        → Yields
            (item_from_json numbers handle registry name base i v)
            (item_of numbers registry base v)
    item-Yields name base i (Json.arr xs) h = report-Yields _ _ h
    item-Yields name base i (Json.obj ms) h =
        bind-Yields (members_from_json numbers handle registry ms Entries.end)
          (λ es. pure (PropertyBag.table [] es)) (members-Yields ms Entries.end) (λ h. refl) h
    item-Yields name base i Json.null h = scalar_item-Yields name i base _ h
    item-Yields name base i (Json.bool b) h = scalar_item-Yields name i base _ h
    item-Yields name base i (Json.num n) h = scalar_item-Yields name i base _ h
    item-Yields name base i (Json.str s) h = scalar_item-Yields name i base _ h

    items-Yields :
        (name : Str) (base : TypeId) (i : ℕ) (xs : Items N)
        → Yields
            (items_from_json numbers handle registry name base i xs)
            (bags_of numbers registry base xs)
    items-Yields name base i Items.nil h = refl
    items-Yields name base i (Items.cons v vs) h =
        bind-Yields (item_from_json numbers handle registry name base i v)
          (λ b. items_from_json numbers handle registry name base (i + 1) vs >>= λ bs.
            pure (Bags.cons b bs))
          (item-Yields name base i v)
          (bind-Yields (items_from_json numbers handle registry name base (i + 1) vs)
            (λ bs. pure (Bags.cons (item_of numbers registry base v) bs))
            (items-Yields name base (i + 1) vs) (λ h. refl))
          h

    members-Yields :
        (ms : Members N) (es : Entries)
        → Yields
            (members_from_json numbers handle registry ms es)
            (entries_of numbers registry ms es)
    members-Yields Members.end es h = refl
    members-Yields (Members.member k v ms) es h =
        bind-Yields (bag_from_json numbers handle registry (c_str k) v)
          (λ b. members_from_json numbers handle registry ms (insert k b es))
          (bag-Yields (c_str k) v)
          (members-Yields ms (insert k (bag_of numbers registry (c_str k) v) es)) h

  -- Under an error handler that never aborts, the reader throws nothing, and what it returns is
  -- the plain function `bag_of` of the document and the registry.
  pub bag_from_json_lem :
      (name : Str) (v : Json N) (h : H)
      → (bag_from_json numbers handle registry name v h).1 ≡ ok (bag_of numbers registry name v)
  bag_from_json_lem name v h = bag-Yields name v h
