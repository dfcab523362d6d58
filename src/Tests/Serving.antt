-- ===== src/Tests/Serving.antt =====
-- A request processor with the handler of the global commands, asked for each of them.
use kexplorer_server.Prelude.{
  ℕ, ◌≡◌, refl, ◌∙◌, Option, some, true, false, Bool, List, [], ◌∷◌, ◌++◌, ◌⊎◌, if◌then◌else◌,
}
use kexplorer_server.Prelude.Int.{pos}
use kexplorer_server.Prelude.Text.{Str, codes, str_eq}
use kexplorer_server.Property.{cast_string}
use kexplorer_server.Registry.{Registry, lookup_id, lookup_name}
use kexplorer_server.KnownProps.{
  request_id, request_id_key, response_status, response_status_key, request_command_key,
  request_command, scalar,
}
use kexplorer_server.Prelude.Outcome.{returns}
use kexplorer_server.Bag.{insert, find, get_property, get_table}
use kexplorer_server.Bag.Json.{Json, Members, Event, start_object, end_object, key}
use kexplorer_server.Prelude.Text.{c_str}
use kexplorer_server.Bag.FromJson.{read_scalar}
use kexplorer_server.Bag.FromJson.Reference.{bag_of, property_of}
use kexplorer_server.Requests.{
  ok, RequestProcessor, Request, Environment, decode, read_request, read_id, read_key, process,
}
use kexplorer_server.Requests.Laws.{serving}
use kexplorer_server.Requests.Decode.{decode_lem}
use kexplorer_server.Handlers.Commands.Served.{command_handler, stop_request}
use kexplorer_server.Tests.Documents.{naturals}

-- {"request.request": "..."}
abbrev document : Str → Json ℕ
document k = Json.obj (Members.member request_command_key (Json.str k) Members.end)

abbrev commanding : Environment ℕ Bool
commanding = record {
  numbers = naturals;
  parse = λ text. some (document text);
  render = λ es. [];
  what = λ e. [];
  stops_within = λ bytes. false;
  handler = λ h. command_handler (codes "1.0");
}

abbrev known : Registry
known = record { props_by_id = []; props_by_name = (request_command_key, request_command) ∷ [] }

-- The two properties that a response starts with.
abbrev described : Registry
described = record known {
  props_by_id = (request_id.id, request_id) ∷ (response_status.id, response_status) ∷ [];
}

abbrev global : RequestProcessor
global = record { handlers = (codes "stop", 4) ∷ (codes "version", 4) ∷ [] }

abbrev request : Str → Request
request k = record { id = pos 0; key = k; bag = bag_of naturals described [] (document k) }

request_understood : (k : Str) → decode commanding described k ≡ ok (request k)
unfolding str_eq bag_of property_of insert find lookup_name c_str read_scalar read_request read_id
    read_key get_table get_property cast_string request_command scalar
    kexplorer_server.Prelude.Map.find
request_understood k = decode_lem commanding described k ∙ refl

stop_request_example :
    let id : List Event = key request_id_key ∷ Event.int (pos 0) ∷ [] in
    let status : List Event = key response_status_key ∷ Event.string (codes "success") ∷ [] in
    (es : List Event) × (process commanding described global false 1 (codes "stop")
      ≡ returns (true, commanding.render es))
    × ((es ≡ start_object ∷ (id ++ status ++ (end_object ∷ [])))
        ⊎ (es ≡ start_object ∷ (status ++ id ++ (end_object ∷ []))))
unfolding serving str_eq lookup_id kexplorer_server.Prelude.Map.find request_id scalar
    kexplorer_server.Crc32.crc32 response_status
stop_request_example =
    stop_request commanding described global false 1 (codes "stop") (request (codes "stop"))
      (request_understood (codes "stop")) (codes "1.0") 4 refl refl refl refl refl
