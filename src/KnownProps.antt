-- ===== src/KnownProps.antt =====
-- The properties that src/kesrv/init.cxx registers: those of include/kesrv/exception.hxx,
-- include/kesrv/request.hxx and include/kesrv/processmanager/processprops.hxx.
pub mod Laws
use kexplorer_server.Prelude.{ℕ, List, [], ◌∷◌, ◌++◌, Option}
use kexplorer_server.Prelude.Text.{Str, codes}
use kexplorer_server.Crc32.{crc32}
use kexplorer_server.Property.{PropertyInfo, TypeId}
use kexplorer_server.Registry.{Registry, RegistryError, register_all}

-- `PropertyInfo<ValueT, KES_PROPID(s), name, formatter, BaseT>`.
unfoldable pub property_info : TypeId → TypeId → Str → Str → PropertyInfo
property_info type base s name = record {
  type = type;
  base = base;
  id = crc32 s;
  idstr = s;
  name = name;
}

-- A property whose base type is its value type.
unfoldable pub scalar : TypeId → Str → Str → PropertyInfo
unfolding property_info
scalar type s name = property_info type type s name

-- include/kesrv/exception.hxx.
abbrev pub decoded_error_key : Str
decoded_error_key = codes "decoded_error"

unfoldable pub decoded_error : PropertyInfo
decoded_error = scalar TypeId.string decoded_error_key (codes "Error message")

abbrev pub posix_error_code_key : Str
posix_error_code_key = codes "posix_error_code"

unfoldable pub posix_error_code : PropertyInfo
posix_error_code = scalar TypeId.int posix_error_code_key (codes "POSIX error code")

-- include/kesrv/request.hxx.
abbrev pub request_id_key : Str
request_id_key = codes "request.id"

unfoldable pub request_id : PropertyInfo
request_id = scalar TypeId.int request_id_key (codes "RequestId")

abbrev pub request_command_key : Str
request_command_key = codes "request.request"

unfoldable pub request_command : PropertyInfo
request_command = scalar TypeId.string request_command_key (codes "Request")

abbrev pub response_status_key : Str
response_status_key = codes "response.status"

unfoldable pub response_status : PropertyInfo
response_status = scalar TypeId.string response_status_key (codes "Status")

abbrev pub response_reason_key : Str
response_reason_key = codes "response.reason"

unfoldable pub response_reason : PropertyInfo
response_reason = scalar TypeId.string response_reason_key (codes "Reason")

abbrev pub response_srv_version_key : Str
response_srv_version_key = codes "response.srv_version"

unfoldable pub response_srv_version : PropertyInfo
response_srv_version = scalar TypeId.string response_srv_version_key (codes "Server Version")

-- include/kesrv/processmanager/processprops.hxx.
abbrev pub process_process_key : Str
process_process_key = codes "process.process"

unfoldable pub process_process : PropertyInfo
process_process = scalar TypeId.table process_process_key (codes "Process Info")

abbrev pub process_deleted_process_key : Str
process_deleted_process_key = codes "process.deleted_process"

unfoldable pub process_deleted_process : PropertyInfo
process_deleted_process = scalar TypeId.int process_deleted_process_key (codes "Deleted Process")

abbrev pub process_process_list_key : Str
process_process_list_key = codes "process.process_list"

unfoldable pub process_process_list : PropertyInfo
process_process_list =
    property_info TypeId.array TypeId.other process_process_list_key (codes "Process List")

abbrev pub process_deleted_process_list_key : Str
process_deleted_process_list_key = codes "process.deleted_process_list"

unfoldable pub process_deleted_process_list : PropertyInfo
process_deleted_process_list =
    property_info TypeId.array TypeId.int process_deleted_process_list_key
      (codes "Deleted Process List")

abbrev pub process_error_key : Str
process_error_key = codes "process.error"

unfoldable pub process_error : PropertyInfo
process_error = scalar TypeId.string process_error_key (codes "__Error")

abbrev pub process_newcomer_key : Str
process_newcomer_key = codes "process.newcomer"

unfoldable pub process_newcomer : PropertyInfo
process_newcomer = scalar TypeId.bool process_newcomer_key (codes "__New")

abbrev pub process_pid_key : Str
process_pid_key = codes "process.pid"

unfoldable pub process_pid : PropertyInfo
process_pid = scalar TypeId.int process_pid_key (codes "PID")

abbrev pub process_ppid_key : Str
process_ppid_key = codes "process.ppid"

unfoldable pub process_ppid : PropertyInfo
process_ppid = scalar TypeId.int process_ppid_key (codes "Parent PID")

abbrev pub process_pgrp_key : Str
process_pgrp_key = codes "process.pgrp"

unfoldable pub process_pgrp : PropertyInfo
process_pgrp = scalar TypeId.int process_pgrp_key (codes "Process Group ID")

abbrev pub process_tpgid_key : Str
process_tpgid_key = codes "process.tpgid"

unfoldable pub process_tpgid : PropertyInfo
process_tpgid = scalar TypeId.int process_tpgid_key (codes "Process Group ID of the Terminal")

abbrev pub process_session_key : Str
process_session_key = codes "process.session"

unfoldable pub process_session : PropertyInfo
process_session = scalar TypeId.int process_session_key (codes "Session ID")

abbrev pub process_ruid_key : Str
process_ruid_key = codes "process.ruid"

unfoldable pub process_ruid : PropertyInfo
process_ruid = scalar TypeId.int process_ruid_key (codes "User ID")

abbrev pub process_stat_comm_key : Str
process_stat_comm_key = codes "process.stat_comm"

unfoldable pub process_stat_comm : PropertyInfo
process_stat_comm = scalar TypeId.string process_stat_comm_key (codes "Command Name")

abbrev pub process_comm_key : Str
process_comm_key = codes "process.comm"

unfoldable pub process_comm : PropertyInfo
process_comm = scalar TypeId.string process_comm_key (codes "Program Name")

abbrev pub process_cmdline_key : Str
process_cmdline_key = codes "process.cmdline"

unfoldable pub process_cmdline : PropertyInfo
process_cmdline = scalar TypeId.string process_cmdline_key (codes "Command Line")

abbrev pub process_exe_key : Str
process_exe_key = codes "process.exe"

unfoldable pub process_exe : PropertyInfo
process_exe = scalar TypeId.string process_exe_key (codes "Executable Name")

-- `ExceptionProps::Private::registerAll`.
abbrev pub exception_props : List PropertyInfo
exception_props = decoded_error ∷ posix_error_code ∷ []

-- `Util::Request::Props::Private::registerAll`.
abbrev pub request_props : List PropertyInfo
request_props = request_id ∷ request_command ∷ []

-- `Util::Response::Props::Private::registerAll`.
abbrev pub response_props : List PropertyInfo
response_props = response_status ∷ response_reason ∷ response_srv_version ∷ []

-- `ProcessProps::Private::registerAll`, which leaves out `Newcomer` and `Ruid`.
abbrev pub process_props : List PropertyInfo
process_props =
    process_process ∷ process_deleted_process ∷ process_process_list ∷ process_deleted_process_list
    ∷ process_error ∷ process_pid ∷ process_ppid ∷ process_pgrp ∷ process_tpgid ∷ process_session
    ∷ process_stat_comm ∷ process_comm ∷ process_cmdline ∷ process_exe ∷ []

abbrev pub known_props : List PropertyInfo
known_props = exception_props ++ (request_props ++ (response_props ++ process_props))

-- `initialize` on Linux: the four sequences in order.
unfoldable pub initialize : Registry → Registry × Option RegistryError
initialize r = register_all r known_props
