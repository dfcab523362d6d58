-- ===== src/Handlers/Commands.antt =====
-- src/kexplorer-server/globalcmdhandler.cxx: the commands "stop" and "version". The text of the
-- version comes from a generated header and is an argument; the state is the flag of the exit
-- condition (include/kesrv/condition.hxx).
pub mod Laws
pub mod Served
use kexplorer_server.Prelude.{ℕ, Bool, true, false, List, [], ◌∷◌, if◌then◌else◌}
use kexplorer_server.Prelude.Int.{ℤ}
use kexplorer_server.Prelude.Text.{Str, codes, str_eq}
use kexplorer_server.Property.{Any}
use kexplorer_server.KnownProps.{request_id, response_status, response_srv_version}
use kexplorer_server.Bag.{PropertyBag, Entries, add_value}
use kexplorer_server.Prelude.Text.{c_str}
use kexplorer_server.Requests.{RequestProcessor, register_handler, unregister_handler}

abbrev pub commands : List Str
commands = codes "stop" ∷ codes "version" ∷ []

-- The loops of a handler's constructor and of its destructor.
unfoldable pub register_commands :
    (List (Str × ℕ) → List (Str × ℕ)) → List Str → RequestProcessor → ℕ → RequestProcessor
register_commands arrange [] rp h = rp
register_commands arrange (k ∷ ks) rp h =
    register_commands arrange ks (register_handler arrange rp k h) h

unfoldable pub unregister_commands : List Str → RequestProcessor → ℕ → RequestProcessor
unregister_commands [] rp h = rp
unregister_commands (k ∷ ks) rp h = unregister_commands ks (unregister_handler rp k h) h

-- The request's id and the status, which every response starts with.
unfoldable pub succeed : ℤ → Entries → Entries
succeed id response =
    add_value response_status (Any.string (codes "success"))
      (add_value request_id (Any.int id) response)

-- `GlobalCmdHandler::process`; the flag is that of the exit condition.
unfoldable pub process_command : Str → Bool → Str → ℤ → Entries → Bool × Entries × Bool
process_command version exiting k id response =
    if str_eq (c_str k) (codes "stop")
    then (true, succeed id response, true)
    else (if str_eq (c_str k) (codes "version")
        then (
          exiting,
          add_value response_srv_version (Any.string version) (succeed id response),
          true,
        )
        else (exiting, response, false))
