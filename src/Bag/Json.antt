-- ===== src/Bag/Json.antt =====
-- JSON documents and writer calls, as the program sees them. The parser and the writer are those of
-- the rapidjson library; so is the classification of numbers, which is an argument here.
use kexplorer_server.Prelude.{ℕ, Bool, Option}
use kexplorer_server.Prelude.Int.{ℤ}
use kexplorer_server.Prelude.Text.{Str}

-- `Json::Value`, with numbers of a type `N`.
mutual
  pub data Json (N : Type 0) : Type 0 where
    null : Json N
    bool : Bool → Json N
    num : N → Json N
    str : Str → Json N
    arr : Items N → Json N
    obj : Members N → Json N

  pub data Items (N : Type 0) : Type 0 where
    nil : Items N
    cons : Json N → Items N → Items N

  pub data Members (N : Type 0) : Type 0 where
    end : Members N
    member : Str → Json N → Members N → Members N

-- `IsInt` with `GetInt`, and so on: `none` where the test fails. A double is its bit pattern.
pub record Numbers (N : Type 0) : Type 0 where
  pub as_int : N → Option ℤ
  pub as_int64 : N → Option ℤ
  pub as_uint : N → Option ℕ
  pub as_uint64 : N → Option ℕ
  pub as_double : N → Option ℕ

-- The calls of `Json::Writer`.
pub data Event : Type 0 where
  start_object end_object start_array end_array : Event
  key : Str → Event
  string : Str → Event
  bool : Bool → Event
  int : ℤ → Event
  int64 : ℤ → Event
  uint : ℕ → Event
  uint64 : ℕ → Event
