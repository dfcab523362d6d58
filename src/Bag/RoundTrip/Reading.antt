-- ===== src/Bag/RoundTrip/Reading.antt =====
-- The document of a whole bag is read as that bag.
use kexplorer_server.Prelude.{ℕ, ◌+◌, ◌≡◌, refl, ap, sym, ◌∙◌, none, some, [], ◌∷◌}
use kexplorer_server.Prelude.Text.{Str, c_str}
use kexplorer_server.Property.{Property, PropertyInfo, Any, TypeId, invalid_prop_id}
use kexplorer_server.Registry.{Registry, lookup_name}
use kexplorer_server.Session.{CallbackResult}
use kexplorer_server.Bag.{PropertyBag, Bags, Entries, name, find, snoc, insert}
use kexplorer_server.Bag.Json.{Json, Numbers}
use kexplorer_server.Bag.FromJson.{
  JsonError, value, read_scalar, Result, ok, thrown, Reader, pure, ◌>>=◌, known_property,
  scalar_property, scalar_item, typed_array, array_from_json, bag_from_json, item_from_json,
  items_from_json, members_from_json,
}
use kexplorer_server.Bag.RoundTrip.{
  Numerals, IsScalar, IsWhole, IsItem, AreItems, AreWhole, value_document, document, items, members,
}
use kexplorer_server.Bag.RoundTrip.Apart.{
  append_entries, Apart, append_entries-end, append_entries-snoc, Apart-end, absent_here,
  Apart-snoc, insert_absent,
}

bind_ok :
    {H A B : Type 0} (m : Reader H A) (f : A → Reader H B) {h h' : H} {a : A}
    → m h ≡ (h', ok a)
    → (m >>= f) h ≡ f a h'
bind_ok {H} {A} {B} m f e =
    ap
      (λ (x : H × Result A). elim x.1 as (λ c. H × Result B) [
        | ok a ↦ f a x.0
        | thrown d ↦ (x.0, thrown d)
      ])
      e

module _ {N : Type 0} {numbers : Numbers N} (numerals : Numerals numbers) where
  value-read :
      {type : TypeId} {v : Any}
      → IsScalar type v
      → read_scalar numbers type (value_document numerals v) ≡ value v
  unfolding read_scalar
  value-read (IsScalar.bool b) = refl
  value-read (IsScalar.int z h) = rw (numerals.int_back z h) refl
  value-read (IsScalar.int64 z h) = rw (numerals.int64_back z h) refl
  value-read (IsScalar.uint n h) = rw (numerals.uint_back n h) refl
  value-read (IsScalar.uint64 n h) = rw (numerals.uint64_back n h) refl
  value-read (IsScalar.string s) = refl

  module _ {H : Type 0} (handle : H → JsonError → H × CallbackResult) (r : Registry) where
    property-read :
        (k : Str) {info : PropertyInfo} {v : Any} (h : H)
        → lookup_name r k ≡ some info
        → IsScalar info.type v
        → known_property numbers handle r k (value_document numerals v) h
          ≡ (h, ok (record { id = info.id; value = v; info = some info }))
    unfolding known_property scalar_property
    property-read k h there v = rw (there, known_property, value-read v) refl

    scalar_bag :
        (k : Str) (doc : Json N) {p : Property} (h : H)
        → known_property numbers handle r k doc h ≡ (h, ok p)
        → (known_property numbers handle r k doc >>= λ q. pure (PropertyBag.property k q)) h
          ≡ (h, ok (PropertyBag.property k p))
    scalar_bag k doc h e =
        bind_ok (known_property numbers handle r k doc) (λ q. pure (PropertyBag.property k q)) e

    scalar-read :
        (k : Str) {type : TypeId} {v : Any} {p : Property} (h : H)
        → IsScalar type v
        → known_property numbers handle r k (value_document numerals v) h ≡ (h, ok p)
        → bag_from_json numbers handle r k (value_document numerals v) h
          ≡ (h, ok (PropertyBag.property k p))
    unfolding bag_from_json
    scalar-read k h (IsScalar.bool b) e = scalar_bag k (Json.bool b) h e
    scalar-read k h (IsScalar.int z f) e = scalar_bag k (Json.num (numerals.of_int z)) h e
    scalar-read k h (IsScalar.int64 z f) e = scalar_bag k (Json.num (numerals.of_int z)) h e
    scalar-read k h (IsScalar.uint n f) e = scalar_bag k (Json.num (numerals.of_nat n)) h e
    scalar-read k h (IsScalar.uint64 n f) e = scalar_bag k (Json.num (numerals.of_nat n)) h e
    scalar-read k h (IsScalar.string s) e = scalar_bag k (Json.str s) h e

    scalar_item-read :
        (k : Str) (i : ℕ) {base : TypeId} {v : Any} (h : H)
        → IsScalar base v
        → item_from_json numbers handle r k base i (value_document numerals v) h
          ≡ scalar_item numbers handle r k i base
              (read_scalar numbers base (value_document numerals v))
              h
    unfolding bag_from_json
    scalar_item-read k i h (IsScalar.bool b) = refl
    scalar_item-read k i h (IsScalar.int z f) = refl
    scalar_item-read k i h (IsScalar.int64 z f) = refl
    scalar_item-read k i h (IsScalar.uint n f) = refl
    scalar_item-read k i h (IsScalar.uint64 n f) = refl
    scalar_item-read k i h (IsScalar.string s) = refl

    array-read :
        (k : Str) {info : PropertyInfo} {bs : Bags} (vs : TypeId → Reader H Bags) (h : H)
        → lookup_name r k ≡ some info
        → info.type ≡ TypeId.array
        → vs info.base h ≡ (h, ok bs)
        → array_from_json numbers handle r k vs h ≡ (h, ok bs)
    unfolding array_from_json typed_array
    array-read k vs h there e read = rw (there, array_from_json, e) read

    read_item :
        (k : Str) (i : ℕ) {base : TypeId} {v : Any} (h : H)
        → IsScalar base v
        → scalar_item numbers handle r k i base
            (read_scalar numbers base (value_document numerals v))
            h
          ≡ (
            h,
            ok (PropertyBag.property [] (record { id = invalid_prop_id; value = v; info = none })),
          )
    unfolding scalar_item
    read_item k i h v = rw (value-read v) refl

    mutual
      unfolding document bag_from_json name

      pub whole-read :
          {b : PropertyBag} (h : H)
          → IsWhole r b
          → bag_from_json numbers handle r (name b) (document numerals b) h ≡ (h, ok b)
      whole-read h (IsWhole.property {name = k} there v) =
          scalar-read k h v (property-read k h there v)
      whole-read h (IsWhole.array {name = k} {bs = bs} there e are) =
          let read_items : TypeId → Reader H Bags =
            λ base. items_from_json numbers handle r k base 0 (items numerals bs) in
          bind_ok (array_from_json numbers handle r k read_items)
            (λ vs. pure (PropertyBag.array k vs))
            (array-read k read_items h there e (items-read k 0 h are))
      whole-read h (IsWhole.table {name = k} {es = es} are) =
          bind_ok (members_from_json numbers handle r (members numerals es) Entries.end)
            (λ ms. pure (PropertyBag.table k ms)) (members-read Entries.end h are (Apart-end _))

      item-read :
          (k : Str) (i : ℕ) {base : TypeId} {b : PropertyBag} (h : H)
          → IsItem r base b
          → item_from_json numbers handle r k base i (document numerals b) h ≡ (h, ok b)
      item-read k i h (IsItem.value v) = scalar_item-read k i h v ∙ read_item k i h v
      item-read k i h (IsItem.record_item {es = es} are) =
          bind_ok (members_from_json numbers handle r (members numerals es) Entries.end)
            (λ ms. pure (PropertyBag.table [] ms)) (members-read Entries.end h are (Apart-end _))

      items-read :
          (k : Str) (i : ℕ) {base : TypeId} {bs : Bags} (h : H)
          → AreItems r base bs
          → items_from_json numbers handle r k base i (items numerals bs) h ≡ (h, ok bs)
      items-read k i h AreItems.nil = refl
      items-read k i h (AreItems.cons {base = base} {b = b} {bs = bs} one more) =
          let rest = items_from_json numbers handle r k base (i + 1) (items numerals bs) in
          bind_ok (item_from_json numbers handle r k base i (document numerals b))
            (λ c. rest >>= λ cs. pure (Bags.cons c cs)) (item-read k i h one)
          ∙ bind_ok rest (λ cs. pure (Bags.cons b cs)) (items-read k (i + 1) h more)

      members-read :
          (acc : Entries) {es : Entries} (h : H)
          → AreWhole r es
          → Apart acc es
          → members_from_json numbers handle r (members numerals es) acc h
            ≡ (h, ok (append_entries acc es))
      members-read acc h AreWhole.end apart = ap (λ es. (h, ok es)) (sym (append_entries-end acc))
      members-read acc h
            (AreWhole.entry {c = c} {k = k} {b = b} {es = es} same clean once whole rest) apart =
          let absent : find (c ∷ k) acc ≡ none = absent_here acc (c ∷ k) b es apart in
          bind_ok (bag_from_json numbers handle r (c_str (c ∷ k)) (document numerals b))
            (λ d. members_from_json numbers handle r (members numerals es) (insert (c ∷ k) d acc))
            (ap (λ n. bag_from_json numbers handle r n (document numerals b) h) (clean ∙ sym same)
              ∙ whole-read h whole)
          ∙ ap (λ t. members_from_json numbers handle r (members numerals es) t h)
              (insert_absent (c ∷ k) b acc absent)
          ∙ members-read (snoc acc (c ∷ k) b) h rest (Apart-snoc acc (c ∷ k) b es apart once)
          ∙ ap (λ t. (h, ok t)) (append_entries-snoc acc (c ∷ k) b es)
