-- ===== src/Handlers/Commands/Served.antt =====
-- The commands "stop" and "version" as the request processor serves them.
use kexplorer_server.Prelude.{ℕ, ◌≡◌, refl, ◌∙◌, Bool, true, List, [], ◌∷◌, ◌++◌, some, inl, ◌⊎◌}
use kexplorer_server.Prelude.Int.{ℤ}
use kexplorer_server.Prelude.Text.{Str, codes, str_eq}
use kexplorer_server.Prelude.Outcome.{returns}
use kexplorer_server.Property.{Any, any_type}
use kexplorer_server.Registry.{Registry, lookup_id}
use kexplorer_server.KnownProps.{
  request_id, request_id_key, response_status, response_status_key, response_srv_version, scalar,
}
use kexplorer_server.Bag.Json.{Event, start_object, end_object, key}
use kexplorer_server.Bag.ToJson.{
  bag_to_json, entries_to_json, property_to_json, written_type, write_value,
}
use kexplorer_server.Bag.{Entries, add_value, insert, find}
use kexplorer_server.Prelude.Text.{c_str}
use kexplorer_server.Requests.{
  Environment, Handler, Request, RequestProcessor, ok, decode, respond, process,
}
use kexplorer_server.Requests.Laws.{serving, process-in_turn}
use kexplorer_server.Handlers.Commands.{process_command, succeed}

-- `GlobalCmdHandler` as a handler; its sessions have no state.
unfoldable pub command_handler : Str → Handler Bool
unfolding process_command
command_handler version = record {
  process =
      λ exiting session k id bag response. returns (process_command version exiting k id response);
  start_session = λ exiting id. exiting;
  end_session = λ exiting id. exiting;
}

-- The response to a request whose handler has only added its id and the status.
succeeded_response :
    {N S : Type 0} (env : Environment N S) (registry : Registry) (s : S) (id : ℤ)
    → lookup_id registry request_id.id ≡ some request_id
    → lookup_id registry response_status.id ≡ some response_status
    → respond env registry id (s, succeed id Entries.end, true)
      ≡ returns (
        s,
        env.render (
            start_object
            ∷ key request_id_key
            ∷ Event.int id
            ∷ key response_status_key
            ∷ Event.string (codes "success")
            ∷ end_object
            ∷ []),
      )
unfolding respond succeed add_value bag_to_json entries_to_json property_to_json written_type
    write_value insert find any_type str_eq request_id response_status scalar
succeeded_response env registry s id a b = rw (a, b)

module _ {N : Type 0} (env : Environment N Bool) (registry : Registry) (rp : RequestProcessor)
    (exiting : Bool) (session : ℕ) (text : Str) (rq : Request)
    (understood : decode env registry text ≡ ok rq) (version : Str) (h : ℕ)
    (handler : env.handler h ≡ command_handler version)
    (served : serving rq.key rp.handlers ≡ h ∷ []) where
  command_request :
      process env registry rp exiting session text
      ≡ respond env registry rq.id (process_command version exiting rq.key rq.id Entries.end)
  unfolding command_handler
  command_request =
      process-in_turn env registry rp exiting session text rq understood ∙ rw (served, handler)

  -- If the registry knows the id of a request as an integer and the status of a response as a
  -- text, then an understood request with the key "stop", under which the handler of the global
  -- commands is the only one, sets the exit condition, and the response is an object with two
  -- members, in one order or the other: the request's id, and the status "success".
  pub stop_request :
      lookup_id registry request_id.id ≡ some request_id
      → lookup_id registry response_status.id ≡ some response_status
      → rq.key ≡ codes "stop"
      → let id : List Event = key request_id_key ∷ Event.int rq.id ∷ [] in
        let status : List Event = key response_status_key ∷ Event.string (codes "success") ∷ [] in
        (es : List Event) × (process env registry rp exiting session text
          ≡ returns (true, env.render es))
        × ((es ≡ start_object ∷ (id ++ status ++ (end_object ∷ [])))
            ⊎ (es ≡ start_object ∷ (status ++ id ++ (end_object ∷ []))))
  unfolding process_command str_eq c_str
  stop_request known_id known_status stop = (
    _,
    command_request ∙ rw stop (succeeded_response env registry true rq.id known_id known_status),
    inl refl,
  )

  -- If an understood request has the key "version", and the handler of the global commands is the
  -- only one under that key, then the request processor responds from the table of the request's
  -- id, success and the version, and the exit condition stays as it was.
  pub version_request :
      rq.key ≡ codes "version"
      → process env registry rp exiting session text
        ≡ respond env registry rq.id (
          exiting,
          add_value response_srv_version (Any.string version) (succeed rq.id Entries.end),
          true,
        )
  unfolding process_command str_eq c_str
  version_request asked = command_request ∙ rw asked
