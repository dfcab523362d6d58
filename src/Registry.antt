-- ===== src/Registry.antt =====
-- src/kesrv/knownprops.cxx: the registry of known properties, by id and by name. Its mutex is held
-- through each call, so a call is one step.
pub mod Laws
use kexplorer_server.Prelude.{
  ℕ, Bool, true, false, List, [], ◌∷◌, Option, none, some, if◌then◌else◌,
}
use kexplorer_server.Prelude.Text.{Str}
use kexplorer_server.Prelude.Map.{find, insert, nat_eq, text_eq}
use kexplorer_server.Property.{PropertyInfo}

pub record Registry : Type 0 where
  pub props_by_id : List (ℕ × PropertyInfo)
  pub props_by_name : List (Str × PropertyInfo)

abbrev pub empty_registry : Registry
empty_registry = record { props_by_id = []; props_by_name = [] }

-- The two exceptions of `registerProperty`.
pub data RegistryError : Type 0 where
  duplicate_id : ℕ → RegistryError
  duplicate_name : Str → RegistryError

-- `registerProperty`: the registry that it leaves, and what it throws. An exception for the name
-- leaves the entry by id in place.
unfoldable pub register : Registry → PropertyInfo → Registry × Option RegistryError
register r pi =
    let (by_id, new_id) = insert pi.id pi r.props_by_id in
    let (by_name, new_name) = insert pi.idstr pi r.props_by_name in
    if new_id
    then (
      record { props_by_id = by_id; props_by_name = by_name },
      if new_name then none else some (duplicate_name pi.idstr),
    )
    else (record r { props_by_id = by_id }, some (duplicate_id pi.id))

-- `lookupProperty`, its two overloads; `none` is the null pointer.
unfoldable pub lookup_id : Registry → ℕ → Option PropertyInfo
lookup_id r id = find id r.props_by_id

unfoldable pub lookup_name : Registry → Str → Option PropertyInfo
lookup_name r name = find name r.props_by_name

-- A sequence of `registerProperty` calls, which the first exception ends.
unfoldable pub register_all : Registry → List PropertyInfo → Registry × Option RegistryError
register_all r [] = (r, none)
register_all r (pi ∷ pis) =
    let (r', thrown) = register r pi in
    let rest = register_all r' pis in elim thrown [ none ↦ rest | some e ↦ (r', some e) ]
