-- ===== src/Property.antt =====
-- include/kesrv/property.hxx: typed values and the descriptions of known properties.
use kexplorer_server.Prelude.{ℕ, Bool, Option, none, some}
use kexplorer_server.Prelude.Int.{ℤ}
use kexplorer_server.Prelude.Text.{Str}

-- The types whose `typeid` the program compares; `other` stands for any further type, such as the
-- `Process` that `ProcessList` names as its base.
pub data TypeId : Type 0 where
  bool int int64 uint uint64 double string array table other : TypeId

-- `std::any` with what the program stores in it. A `double` is its bit pattern: it is only copied.
pub data Any : Type 0 where
  empty : Any
  bool : Bool → Any
  int : ℤ → Any
  int64 : ℤ → Any
  uint : ℕ → Any
  uint64 : ℕ → Any
  double : ℕ → Any
  string : Str → Any

-- `PropertyInfo`, behind its `IPropertyInfo` interface.
pub record PropertyInfo : Type 0 where
  pub type : TypeId
  pub base : TypeId
  pub id : ℕ
  pub idstr : Str
  pub name : Str

-- `PropId(-1)`.
abbrev pub invalid_prop_id : ℕ
invalid_prop_id = 0xFFFFFFFF

pub record Property : Type 0 where
  pub id : ℕ
  pub value : Any
  pub info : Option PropertyInfo

-- `Property()`.
abbrev pub no_property : Property
no_property = record { id = invalid_prop_id; value = Any.empty; info = none }

-- `std::any::type`; `none` is `typeid(void)`.
unfoldable pub any_type : Any → Option TypeId
any_type Any.empty = none
any_type (Any.bool b) = some TypeId.bool
any_type (Any.int z) = some TypeId.int
any_type (Any.int64 z) = some TypeId.int64
any_type (Any.uint n) = some TypeId.uint
any_type (Any.uint64 n) = some TypeId.uint64
any_type (Any.double d) = some TypeId.double
any_type (Any.string s) = some TypeId.string

-- `std::any_cast<int>` and `std::any_cast<std::string>`; `none` is `std::bad_any_cast`.
unfoldable pub cast_int : Any → Option ℤ
cast_int (Any.int z) = some z
cast_int _ = none

unfoldable pub cast_string : Any → Option Str
cast_string (Any.string s) = some s
cast_string _ = none
