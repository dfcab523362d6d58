-- ===== src/Tests/Processing.antt =====
-- A request processor with one handler, which answers "list" requests and counts them.
use kexplorer_server.Prelude.{
  ℕ, ◌+◌, ◌-◌, ◌≤◌, ◌≡◌, not, sym, ap, subst, length, arith, refl, ◌∙◌, Option, none, some, true,
  false, List, [], ◌∷◌, if◌then◌else◌,
}
use kexplorer_server.Prelude.Int.{pos}
use kexplorer_server.Prelude.Text.{Str, codes, str_eq}
use kexplorer_server.Prelude.Outcome.{Outcome, returns, terminates, ◌>>=◌}
use kexplorer_server.Property.{cast_string}
use kexplorer_server.Registry.{Registry, lookup_name}
use kexplorer_server.KnownProps.{request_id_key, request_command_key, request_command, scalar}
use kexplorer_server.Bag.Table.{first_member}
use kexplorer_server.Bag.{Entries, insert, find, get_property, get_table}
use kexplorer_server.Bag.Json.{Json, Members}
use kexplorer_server.Prelude.Text.{c_str}
use kexplorer_server.Bag.FromJson.{read_scalar}
use kexplorer_server.Bag.ToJson.{bag_to_json, entries_to_json}
use kexplorer_server.Bag.FromJson.Reference.{bag_of, property_of}
use kexplorer_server.Requests.{
  ok, Handler, RequestProcessor, Request, Environment, decode, read_request, read_id, read_key,
  respond, process, call_handlers,
}
use kexplorer_server.Requests.Laws.{serving, in_turn, process-in_turn}
use kexplorer_server.Requests.Decode.{understood, decode_lem}
use kexplorer_server.Requests.Fatal.{fatal_id, is_container}
use kexplorer_server.Requests.Answers.{AllReturn, CallsReturn, process_answers, process_terminates}
use kexplorer_server.Tests.Documents.{naturals}

abbrev counter : Handler ℕ
counter = record {
  process = λ n session k id bag response. returns (n + 1, response, true);
  start_session = λ n session. n;
  end_session = λ n session. n;
}

-- {"request.request": "list"}, and {"request.id": {}} for the text "id".
abbrev pub list_document : Json ℕ
list_document = Json.obj (Members.member request_command_key (Json.str (codes "list")) Members.end)

abbrev pub id_document : Json ℕ
id_document = Json.obj (Members.member request_id_key (Json.obj Members.end) Members.end)

abbrev pub env : Environment ℕ ℕ
env = record {
  numbers = naturals;
  parse = λ text. if str_eq text (codes "id") then some id_document else some list_document;
  render = λ es. codes "rendered";
  what = λ e. codes "failed";
  stops_within = λ bytes. not (str_eq bytes (codes "{}"));
  handler = λ h. counter;
}

abbrev pub registry : Registry
registry = record { props_by_id = []; props_by_name = (request_command_key, request_command) ∷ [] }

abbrev nobody : RequestProcessor
nobody = record { handlers = [] }

abbrev pub somebody : RequestProcessor
somebody = record { handlers = (codes "list", 9) ∷ [] }

abbrev list_request : Request
list_request = record {
  id = pos 0;
  key = codes "list";
  bag = bag_of naturals registry [] list_document;
}

list_understood :
    (text : Str) → str_eq text (codes "id") ≡ false → decode env registry text ≡ ok list_request
unfolding str_eq bag_of property_of insert find lookup_name c_str read_scalar read_request read_id
    read_key get_table get_property cast_string request_command scalar
    kexplorer_server.Prelude.Map.find
list_understood text other =
    decode_lem env registry text
    ∙ ap (λ b. understood env registry (if b then some id_document else some list_document) text)
        other

process-in_turn_example : process env registry somebody 0 1 (codes "list") ≡ (
    in_turn env registry 1 list_request
      (serving (codes "list") somebody.handlers)
      0
      Entries.end
      false
    >>= respond env registry (pos 0))
unfolding str_eq
process-in_turn_example =
    process-in_turn env registry somebody 0 1 (codes "list") list_request
      (list_understood (codes "list") refl)

pub env-AllReturn : AllReturn env
env-AllReturn h s session k id bag response = ((s + 1, response, true), refl)

process_terminates_example : process env registry somebody 0 1 (codes "id") ≡ terminates
unfolding fatal_id str_eq first_member is_container
process_terminates_example = process_terminates env registry somebody 0 1 (codes "id") refl

process_answers_example :
    (r : ℕ × Str) × (process env registry somebody 0 1 (codes "list") ≡ returns r)
unfolding fatal_id str_eq first_member is_container
process_answers_example =
    process_answers env registry somebody 0 1 (codes "list") env-AllReturn refl

-- The text "{}" is understood, its handler comes back, and its response has eight bytes.
braces_other : str_eq (codes "{}") (codes "id") ≡ false
unfolding str_eq
braces_other = refl

pub braces_return :
    (n : ℕ) → CallsReturn env registry somebody n 0 (codes "{}") (decode env registry (codes "{}"))
unfolding call_handlers str_eq
braces_return n =
    subst (CallsReturn env registry somebody n 0 (codes "{}"))
      (sym (list_understood (codes "{}") braces_other)) ((n + 1, Entries.end, true), refl)

braces_processed :
    (n : ℕ) → process env registry somebody n 0 (codes "{}") ≡ returns (n + 1, codes "rendered")
unfolding serving str_eq respond bag_to_json entries_to_json
braces_processed n =
    process-in_turn env registry somebody n 0 (codes "{}") list_request
      (list_understood (codes "{}") braces_other)
    ∙ refl

pub braces_short :
    (n : ℕ) (r : ℕ × Str)
    → process env registry somebody n 0 (codes "{}") ≡ returns r
    → length r.1 ≤ 100
braces_short n r e =
    let both : returns (n + 1, codes "rendered") ≡ returns r = sym (braces_processed n) ∙ e in
    let same : codes "rendered" ≡ r.1 = ap (λ o. response_of o) both in
    subst (λ t. length t ≤ 100) same (omega arith)
  where
    response_of : Outcome (ℕ × Str) → Str
    response_of (returns p) = p.1
    response_of o = []
