-- ===== src/Bag.antt =====
-- include/kesrv/propertybag.hxx and include/kesrv/util/requestutil.hxx: trees of properties.
pub mod Json
pub mod FromJson
pub mod ToJson
pub mod Table
pub mod RoundTrip
use kexplorer_server.Prelude.{
  ℕ, Bool, true, false, List, [], ◌∷◌, Option, none, some, if◌then◌else◌,
}
use kexplorer_server.Prelude.Text.{Str, str_eq}
use kexplorer_server.Property.{Property, PropertyInfo, Any}

-- `PropertyBag`: its name, and the variant of `Empty`, `Property`, `Array` and `Table`. A table is an
-- `unordered_map`, with its entries in the order of iteration; the order of the model is that of
-- insertion.
mutual
  pub data PropertyBag : Type 0 where
    empty : Str → PropertyBag
    property : Str → Property → PropertyBag
    array : Str → Bags → PropertyBag
    table : Str → Entries → PropertyBag

  pub data Bags : Type 0 where
    nil : Bags
    cons : PropertyBag → Bags → Bags

  pub data Entries : Type 0 where
    end : Entries
    entry : Str → PropertyBag → Entries → Entries

-- `PropertyBag()`.
abbrev pub no_bag : PropertyBag
no_bag = empty []

unfoldable pub is_empty : PropertyBag → Bool
is_empty (empty n) = true
is_empty _ = false

unfoldable pub is_property : PropertyBag → Bool
is_property (property n p) = true
is_property _ = false

unfoldable pub is_array : PropertyBag → Bool
is_array (array n xs) = true
is_array _ = false

unfoldable pub is_table : PropertyBag → Bool
is_table (table n es) = true
is_table _ = false

unfoldable pub name : PropertyBag → Str
name (empty n) = n
name (property n p) = n
name (array n xs) = n
name (table n es) = n

-- The accessors `property`, `array` and `table`: `std::get` throws on another alternative, and the
-- accessors are `noexcept`, so `none` is `std::terminate`.
unfoldable pub get_property : PropertyBag → Option Property
get_property (property n p) = some p
get_property _ = none

unfoldable pub get_table : PropertyBag → Option Entries
get_table (table n es) = some es
get_table _ = none

-- `Table::find`.
unfoldable pub find : Str → Entries → Option PropertyBag
find k end = none
find k (entry j b es) = if str_eq j k then some b else find k es

abbrev pub snoc : Entries → Str → PropertyBag → Entries
snoc end k b = entry k b end
snoc (entry j c es) k b = entry j c (snoc es k b)

-- `Table::insert`, which leaves an entry that is there.
unfoldable pub insert : Str → PropertyBag → Entries → Entries
insert k b es = elim (find k es) [ none ↦ snoc es k b | some _ ↦ es ]

-- `Array::push_back`.
unfoldable pub push_back : Bags → PropertyBag → Bags
push_back nil b = cons b nil
push_back (cons c cs) b = cons c (push_back cs b)

-- `Util::addToTable` with a value, and with a bag. On another alternative `table()` terminates; the
-- callers pass tables.
unfoldable pub add_bag : PropertyInfo → PropertyBag → Entries → Entries
add_bag pi b es = insert pi.idstr b es

unfoldable pub add_value : PropertyInfo → Any → Entries → Entries
add_value pi v es =
    insert pi.idstr (property pi.idstr (record { id = pi.id; value = v; info = none })) es

-- `Util::addToArray` with a value; with a bag it is `push_back`.
unfoldable pub add_item : PropertyInfo → Any → Bags → Bags
add_item pi v xs = push_back xs (property [] (record { id = pi.id; value = v; info = none }))
