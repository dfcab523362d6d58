-- ===== src/Bag/RoundTrip.antt =====
-- src/kesrv/propertybag.cxx, both halves together: bags that survive being written and read.
pub mod Writing
pub mod Apart
pub mod Reading
pub mod Both
use kexplorer_server.Prelude.{ℕ, ◌^◌, ◌<◌, ◌≡◌, Bool, Option, none, some, List, [], ◌∷◌, ◌++◌}
use kexplorer_server.Prelude.Int.{ℤ, pos, negsuc}
use kexplorer_server.Prelude.Text.{Str, c_str}
use kexplorer_server.Property.{Property, PropertyInfo, Any, TypeId, invalid_prop_id}
use kexplorer_server.Registry.{Registry, lookup_name}
use kexplorer_server.Bag.{PropertyBag, Bags, Entries, name, find}
use kexplorer_server.Bag.Json.{
  Json, Items, Members, Numbers, Event, start_object, end_object, start_array, end_array, key,
}

-- An integer of `n` bits and a sign.
abbrev pub IsSigned : ℕ → ℤ → Type 0
IsSigned n (pos m) = m < 2 ^ n
IsSigned n (negsuc m) = m < 2 ^ n

-- The numbers of the parser that the texts of integers become; those in range have their type.
pub record Numerals {N : Type 0} (numbers : Numbers N) : Type 0 where
  pub of_int : ℤ → N
  pub of_nat : ℕ → N
  pub int_back : (z : ℤ) → IsSigned 31 z → numbers.as_int (of_int z) ≡ some z
  pub int64_back : (z : ℤ) → IsSigned 63 z → numbers.as_int64 (of_int z) ≡ some z
  pub uint_back : (n : ℕ) → n < 2 ^ 32 → numbers.as_uint (of_nat n) ≡ some n
  pub uint64_back : (n : ℕ) → n < 2 ^ 64 → numbers.as_uint64 (of_nat n) ≡ some n

-- A value in the range of its type, of a type that is written.
pub data IsScalar : TypeId → Any → Type 0 where
  bool : (b : Bool) → IsScalar TypeId.bool (Any.bool b)
  int : (z : ℤ) → IsSigned 31 z → IsScalar TypeId.int (Any.int z)
  int64 : (z : ℤ) → IsSigned 63 z → IsScalar TypeId.int64 (Any.int64 z)
  uint : (n : ℕ) → n < 2 ^ 32 → IsScalar TypeId.uint (Any.uint n)
  uint64 : (n : ℕ) → n < 2 ^ 64 → IsScalar TypeId.uint64 (Any.uint64 n)
  string : (s : Str) → IsScalar TypeId.string (Any.string s)

-- A bag as the reader makes them, all of whose properties have values. An entry has its key for a name,
-- and no other entry has it; a key is not empty and has no NUL.
mutual
  pub data IsWhole (r : Registry) : PropertyBag → Type 0 where
    property :
        {name : Str} {info : PropertyInfo} {v : Any}
        → lookup_name r name ≡ some info
        → IsScalar info.type v
        → IsWhole r
            (PropertyBag.property name (record { id = info.id; value = v; info = some info }))
    array :
        {name : Str} {info : PropertyInfo} {bs : Bags}
        → lookup_name r name ≡ some info
        → info.type ≡ TypeId.array
        → AreItems r info.base bs
        → IsWhole r (PropertyBag.array name bs)
    table : {name : Str} {es : Entries} → AreWhole r es → IsWhole r (PropertyBag.table name es)

  pub data IsItem (r : Registry) : TypeId → PropertyBag → Type 0 where
    value :
        {base : TypeId} {v : Any}
        → IsScalar base v
        → IsItem r base
            (PropertyBag.property [] (record { id = invalid_prop_id; value = v; info = none }))
    record_item :
        {base : TypeId} {es : Entries} → AreWhole r es → IsItem r base (PropertyBag.table [] es)

  pub data AreItems (r : Registry) : TypeId → Bags → Type 0 where
    nil : {base : TypeId} → AreItems r base Bags.nil
    cons :
        {base : TypeId} {b : PropertyBag} {bs : Bags}
        → IsItem r base b
        → AreItems r base bs
        → AreItems r base (Bags.cons b bs)

  pub data AreWhole (r : Registry) : Entries → Type 0 where
    end : AreWhole r Entries.end
    entry :
        {c : ℕ} {k : Str} {b : PropertyBag} {es : Entries}
        → name b ≡ c ∷ k
        → c_str (c ∷ k) ≡ c ∷ k
        → find (c ∷ k) es ≡ none
        → IsWhole r b
        → AreWhole r es
        → AreWhole r (Entries.entry (c ∷ k) b es)

module _ {N : Type 0} {numbers : Numbers N} (numerals : Numerals numbers) where
  -- The document that a bag stands for.
  abbrev pub value_document : Any → Json N
  value_document Any.empty = Json.null
  value_document (Any.bool b) = Json.bool b
  value_document (Any.int z) = Json.num (numerals.of_int z)
  value_document (Any.int64 z) = Json.num (numerals.of_int z)
  value_document (Any.uint n) = Json.num (numerals.of_nat n)
  value_document (Any.uint64 n) = Json.num (numerals.of_nat n)
  value_document (Any.double d) = Json.null
  value_document (Any.string s) = Json.str s

  unfoldable mutual
    pub document : PropertyBag → Json N
    document (PropertyBag.empty name) = Json.null
    document (PropertyBag.property name p) = value_document p.value
    document (PropertyBag.array name bs) = Json.arr (items bs)
    document (PropertyBag.table name es) = Json.obj (members es)

    pub items : Bags → Items N
    items Bags.nil = Items.nil
    items (Bags.cons b bs) = Items.cons (document b) (items bs)

    pub members : Entries → Members N
    members Entries.end = Members.end
    members (Entries.entry k b es) = Members.member k (document b) (members es)

  -- The calls of a writer that make the text of a document.
  mutual
    pub data Writes : List Event → Json N → Type 0 where
      bool : (b : Bool) → Writes (Event.bool b ∷ []) (Json.bool b)
      int : (z : ℤ) → Writes (Event.int z ∷ []) (Json.num (numerals.of_int z))
      int64 : (z : ℤ) → Writes (Event.int64 z ∷ []) (Json.num (numerals.of_int z))
      uint : (n : ℕ) → Writes (Event.uint n ∷ []) (Json.num (numerals.of_nat n))
      uint64 : (n : ℕ) → Writes (Event.uint64 n ∷ []) (Json.num (numerals.of_nat n))
      string : (s : Str) → Writes (Event.string s ∷ []) (Json.str s)
      array :
          {es : List Event} {vs : Items N}
          → WritesItems es vs
          → Writes (start_array ∷ (es ++ (end_array ∷ []))) (Json.arr vs)
      object :
          {es : List Event} {ms : Members N}
          → WritesMembers es ms
          → Writes (start_object ∷ (es ++ (end_object ∷ []))) (Json.obj ms)

    pub data WritesItems : List Event → Items N → Type 0 where
      nil : WritesItems [] Items.nil
      cons :
          {es fs : List Event} {v : Json N} {vs : Items N}
          → Writes es v
          → WritesItems fs vs
          → WritesItems (es ++ fs) (Items.cons v vs)

    pub data WritesMembers : List Event → Members N → Type 0 where
      end : WritesMembers [] Members.end
      member :
          {es fs : List Event} {v : Json N} {ms : Members N} (k : Str)
          → Writes es v
          → WritesMembers fs ms
          → WritesMembers (key k ∷ (es ++ fs)) (Members.member k v ms)
