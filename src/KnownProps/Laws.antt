-- ===== src/KnownProps/Laws.antt =====
-- `initialize`: the checksums number the known properties apart, so all can be registered, once.
use kexplorer_server.Prelude.{
  ◌≡◌, refl, Bool, true, ◌&&◌, not, List, [], ◌∷◌, none, some, ◌==◌, arith,
}
use kexplorer_server.Prelude.Text.{str_eq}
use kexplorer_server.Crc32.{crc32}
use kexplorer_server.Property.{PropertyInfo}
use kexplorer_server.Registry.{Registry, duplicate_id}
use kexplorer_server.Registry.Laws.{
  AllFree, AllApart, AllDistinct, AllFound, Keeps, register_all_lem, register_all_taken,
}
use kexplorer_server.KnownProps.{
  known_props, initialize, scalar, decoded_error, posix_error_code, request_id, request_command,
  response_status, response_reason, response_srv_version, process_process, process_deleted_process,
  process_process_list, process_deleted_process_list, process_error, process_pid, process_ppid,
  process_pgrp, process_tpgid, process_session, process_stat_comm, process_comm, process_cmdline,
  process_exe,
}

apart : PropertyInfo → List PropertyInfo → Bool
apart pi [] = true
apart pi (p ∷ ps) = not (pi.id == p.id) && (not (str_eq pi.idstr p.idstr) && apart pi ps)

distinct : List PropertyInfo → Bool
distinct [] = true
distinct (pi ∷ pis) = apart pi pis && distinct pis

apart-AllApart : (pi : PropertyInfo) (ps : List PropertyInfo) → apart pi ps ≡ true → AllApart pi ps
unfolding apart
apart-AllApart pi [] h = tt
apart-AllApart pi (p ∷ ps) h = (ground arith, ground arith, apart-AllApart pi ps (ground arith))

distinct-AllDistinct : (ps : List PropertyInfo) → distinct ps ≡ true → AllDistinct ps
unfolding distinct
distinct-AllDistinct [] h = tt
distinct-AllDistinct (pi ∷ pis) h =
    (apart-AllApart pi pis (ground arith), distinct-AllDistinct pis (ground arith))

known_distinct : distinct known_props ≡ true
unfolding distinct apart str_eq crc32 scalar decoded_error posix_error_code request_id
    request_command response_status response_reason response_srv_version process_process
    process_deleted_process process_process_list process_deleted_process_list process_error
    process_pid process_ppid process_pgrp process_tpgid process_session process_stat_comm
    process_comm process_cmdline process_exe
known_distinct = refl

-- In a registry that holds none of the known properties, `initialize` registers them all without
-- an exception: each is found by its checksum and by its name, and what was there is still found.
pub initialize_lem :
    (r : Registry)
    → AllFree r known_props
    → ((initialize r).1 ≡ none) × AllFound (initialize r).0 known_props × Keeps r (initialize r).0
unfolding initialize
initialize_lem r free =
    register_all_lem r known_props free (distinct-AllDistinct known_props known_distinct)

-- After `initialize` in a registry that held none of the known properties, a second `initialize`
-- throws.
pub initialize_twice :
    (r : Registry)
    → AllFree r known_props
    → (initialize (initialize r).0).1 ≡ some (duplicate_id decoded_error.id)
unfolding initialize
initialize_twice r free =
    register_all_taken (initialize r).0 decoded_error decoded_error _ (initialize_lem r free).1.0
