-- ===== src/Tests/Registries.antt =====
-- The known properties in an empty registry, and a name that is taken.
use kexplorer_server.Prelude.{◌≡◌, refl, List, [], ◌∷◌, none, some, ◌==◌, arith}
use Prim.Native.Nat.{bit_xor}
use kexplorer_server.Crc32.{crc32}
use kexplorer_server.Crc32.Bitwise.{AreBytes, divide, crc32_bitwise}
use kexplorer_server.Prelude.Text.{codes, str_eq}
use kexplorer_server.Prelude.Map.{or_else, find, insert}
use kexplorer_server.Property.{PropertyInfo, TypeId}
use kexplorer_server.Registry.{
  duplicate_id, duplicate_name, empty_registry, register, lookup_id, lookup_name,
}
use kexplorer_server.Registry.Laws.{AllFree, AllDistinct, AllFound, Keeps, register_lem, hit}
use kexplorer_server.KnownProps.{known_props, initialize}
use kexplorer_server.KnownProps.Laws.{initialize_lem}

AllFree-empty : (ps : List PropertyInfo) → AllFree empty_registry ps
unfolding lookup_id lookup_name find
AllFree-empty [] = tt
AllFree-empty (pi ∷ ps) = (refl, refl, AllFree-empty ps)

abbrev size_info : PropertyInfo
size_info = record {
  type = TypeId.uint;
  base = TypeId.uint;
  id = 1;
  idstr = codes "size";
  name = codes "Size";
}

abbrev rate_info : PropertyInfo
rate_info = record {
  type = TypeId.uint;
  base = TypeId.uint;
  id = 2;
  idstr = codes "rate";
  name = codes "Rate";
}

-- A second property named "size", under another id.
abbrev other_size : PropertyInfo
other_size = record size_info { id = 3 }

other_size_refused :
    (register (register empty_registry size_info).0 other_size).1
    ≡ some (duplicate_name (codes "size"))
unfolding register insert find str_eq
other_size_refused = refl

register_lem_example :
    let (r', thrown) = register empty_registry size_info in
    (lookup_id r' 1 ≡ or_else (lookup_id empty_registry 1) (hit (1 == 1) size_info))
    × (lookup_name r' (codes "size") ≡ elim (lookup_id empty_registry 1) [
      | none ↦
          or_else
            (lookup_name empty_registry (codes "size"))
            (hit (str_eq (codes "size") (codes "size")) size_info)
      | some _ ↦ lookup_name empty_registry (codes "size")
    ])
    × (thrown ≡ elim (lookup_id empty_registry 1) [
      | some _ ↦ some (duplicate_id 1)
      | none ↦ elim (lookup_name empty_registry (codes "size")) [
        | some _ ↦ some (duplicate_name (codes "size"))
        | none ↦ none
      ]
    ])
register_lem_example = register_lem empty_registry size_info 1 (codes "size")

two_distinct : AllDistinct (size_info ∷ rate_info ∷ [])
unfolding str_eq
two_distinct = ((refl, refl, tt), (tt, tt))

size_free : lookup_id empty_registry 1 ≡ none
unfolding lookup_id find
size_free = refl

initialize_lem_example :
    ((initialize empty_registry).1 ≡ none)
    × AllFound (initialize empty_registry).0 known_props
    × Keeps empty_registry (initialize empty_registry).0
initialize_lem_example = initialize_lem empty_registry (AllFree-empty known_props)

ascii-AreBytes : AreBytes (codes "Pid")
ascii-AreBytes = AreBytes.cons (omega arith) (omega arith) (
    AreBytes.cons (omega arith) (omega arith)
      (AreBytes.cons (omega arith) (omega arith) AreBytes.nil))

crc32_bitwise_example : crc32 (codes "Pid") ≡ bit_xor (divide 0xFFFFFFFF (codes "Pid")) 0xFFFFFFFF
crc32_bitwise_example = crc32_bitwise (codes "Pid") ascii-AreBytes
