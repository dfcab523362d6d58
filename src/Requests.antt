-- ===== src/Requests.antt =====
-- src/kexplorer-server/requestprocessor.cxx and requestprocessor.hxx, include/kesrv/requestprocessor.hxx
-- and src/kesrv/util/requestutil.cxx: one request text to one response text, through the handlers
-- that are registered for its key. The mutex is held through each pass over the handlers.
pub mod Answers
pub mod Decode
pub mod Fatal
pub mod Laws
pub mod Registration
use kexplorer_server.Prelude.{
  ℕ, Bool, true, false, Option, none, some, if◌then◌else◌, List, [], ◌∷◌, ◌++◌, ◌==◌, ◌&&◌,
}
use kexplorer_server.Prelude.Int.{ℤ, pos}
use kexplorer_server.Prelude.Text.{Str, TextAt, terminated, unterminated, codes, str_eq}
use kexplorer_server.Prelude.Outcome.{Outcome, returns, terminates, undefined}
use kexplorer_server.Property.{Any, cast_int, cast_string}
use kexplorer_server.Registry.{Registry}
use kexplorer_server.KnownProps.{
  request_id_key, request_command_key, response_status_key, response_reason_key,
}
use kexplorer_server.Session.{CallbackResult, continues}
use kexplorer_server.Bag.{PropertyBag, Entries, find, get_property, get_table}
use kexplorer_server.Bag.Json.{Json, Numbers, Event, start_object, end_object, key}
use kexplorer_server.Bag.FromJson.{JsonError, Result, bag_from_json}
use kexplorer_server.Bag.ToJson.{WriteError, Written, written, bag_to_json}

-- `IRequestHandler`, over the state `S` of all handlers. `process` is given the session, the key, the
-- request's id, the request and the entries of the response table so far.
pub record Handler (S : Type 0) : Type 0 where
  pub process : S → ℕ → Str → ℤ → PropertyBag → Entries → Outcome (S × Entries × Bool)
  pub start_session : S → ℕ → S
  pub end_session : S → ℕ → S

-- The multimap, in its order of iteration; a handler is named by its address.
pub record RequestProcessor : Type 0 where
  pub handlers : List (Str × ℕ)

-- `registerHandler`. Where `std::unordered_multimap` puts a new entry, and what its insertion does to the
-- order of the others, is left to the library: `arrange`.
unfoldable pub register_handler :
    (List (Str × ℕ) → List (Str × ℕ)) → RequestProcessor → Str → ℕ → RequestProcessor
register_handler arrange rp k h = record { handlers = arrange ((k, h) ∷ rp.handlers) }

remove_first : Str → ℕ → List (Str × ℕ) → List (Str × ℕ)
remove_first k h [] = []
remove_first k h ((j, i) ∷ m) = if str_eq j k && (i == h) then m else (j, i) ∷ remove_first k h m

-- `unregisterHandler` erases one entry of this handler under the key.
unfoldable pub unregister_handler : RequestProcessor → Str → ℕ → RequestProcessor
unfolding remove_first
unregister_handler rp k h = record { handlers = remove_first k h rp.handlers }

-- `JsonErrorHandler`, which keeps the last message and never aborts.
pub record JsonErrors : Type 0 where
  pub errors : Bool
  pub message : Option JsonError

unfoldable pub handle : JsonErrors → JsonError → JsonErrors × CallbackResult
handle eh e = (record { errors = true; message = some e }, continues)

-- What ends the `try` block of `process` by an exception.
pub data Failure : Type 0 where
  parse_failed : Str → Failure
  json_failed : JsonError → Failure
  bad_any_cast : Failure
  write_failed : WriteError → Failure

-- How far the request is understood: an early `return` of a response, an exception, `std::terminate`.
pub data Attempt {ℓ} (A : Type ℓ) : Type ℓ where
  ok : A → Attempt A
  answer : ℤ → Str → Attempt A
  raise : Failure → Attempt A
  terminate : Attempt A

infixl 5 ◌>>=◌
abbrev pub ◌>>=◌ {ℓ κ} : {A : Type ℓ} {B : Type κ} → Attempt A → (A → Attempt B) → Attempt B
ok a >>= f = f a
answer id reason >>= f = answer id reason
raise e >>= f = raise e
terminate >>= f = terminate

pub record Request : Type 0 where
  pub id : ℤ
  pub key : Str
  pub bag : PropertyBag

-- `Util::Response::fail`.
unfoldable pub fail_events : ℤ → Str → List Event
fail_events id reason =
    start_object
    ∷ key request_id_key
    ∷ Event.int id
    ∷ key response_status_key
    ∷ Event.string (codes "fail")
    ∷ key response_reason_key
    ∷ Event.string reason
    ∷ end_object
    ∷ []

-- `Util::Request::simple`.
unfoldable pub simple_events : ℤ → Str → List Event
simple_events id command =
    start_object
    ∷ key request_id_key
    ∷ Event.int id
    ∷ key request_command_key
    ∷ Event.string command
    ∷ end_object
    ∷ []

abbrev or_raise {ℓ} : {A : Type ℓ} → Option A → Failure → Attempt A
or_raise none e = raise e
or_raise (some a) e = ok a

-- The id of the request: `idIt->second->property()` terminates on a table or an array.
unfoldable pub read_id : Entries → Attempt ℤ
read_id es = elim (find request_id_key es) [
  | none ↦ ok (pos 0)
  | some b ↦ elim (get_property b) [
    | none ↦ terminate
    | some p ↦ or_raise (cast_int p.value) bad_any_cast
  ]
]

-- The key of the request.
unfoldable pub read_key : ℤ → Entries → Attempt Str
read_key id es = elim (find request_command_key es) [
  | none ↦ answer id (codes "Unsupported request")
  | some b ↦ elim (get_property b) [
    | none ↦ answer id (codes "Ill-formed request")
    | some p ↦ or_raise (cast_string p.value) bad_any_cast
  ]
]

-- The checks on a parsed request.
unfoldable pub read_request : PropertyBag → Attempt Request
unfolding read_id read_key
read_request bag = elim (get_table bag) [
  | none ↦ answer (pos 0) (codes "Not a JSON object")
  | some es ↦ do id ← read_id es; k ← read_key id es; ok (record { id = id; key = k; bag = bag })
]

-- What comes from outside: the JSON parser (`none` is a parse error), its numbers, the JSON writer's
-- text, whether the parser meets an error within bytes that no NUL follows (else it reads on), the texts of exceptions, and the handlers behind the addresses.
pub record Environment (N S : Type 0) : Type 0 where
  pub numbers : Numbers N
  pub parse : Str → Option (Json N)
  pub render : List Event → Str
  pub what : Failure → Str
  pub stops_within : Str → Bool
  pub handler : ℕ → Handler S

module _ {N S : Type 0} (env : Environment N S) (registry : Registry) where
  -- `propertyBagFromJson` with a fresh `JsonErrorHandler`, and the checks.
  unfoldable pub decode : Str → Attempt Request
  unfolding read_request handle
  decode text = elim (env.parse text) [
    | none ↦ raise (parse_failed text)
    | some doc ↦
        let eh : JsonErrors = record { errors = false; message = none } in
        elim (bag_from_json env.numbers handle registry [] doc eh).1 [
          | Result.ok bag ↦ read_request bag
          | Result.thrown e ↦ raise (json_failed e)
        ]
  ]

  -- The loop over `equal_range(key)`: each handler is called, and the last one's result stands.
  unfoldable pub call_handlers :
      List (Str × ℕ) → ℕ → Request → S → Entries → Bool → Outcome (S × Entries × Bool)
  call_handlers [] session rq s response found = returns (s, response, found)
  call_handlers ((k, h) ∷ m) session rq s response found =
      if str_eq k rq.key
      then (elim ((env.handler h).process s session rq.key rq.id rq.bag response) [
        | returns (s', response', found') ↦ call_handlers m session rq s' response' found'
        | terminates ↦ terminates
        | undefined ↦ undefined
      ])
      else call_handlers m session rq s response found

  -- The response to what the handlers left.
  unfoldable pub respond : ℤ → S × Entries × Bool → Outcome (S × Str)
  respond id (s, response, found) =
      if found
      then (elim (bag_to_json registry (PropertyBag.table [] response)) [
        | written es ↦ returns (s, env.render es)
        | Written.thrown e ↦
            returns (s, env.render (fail_events (pos 0) (env.what (write_failed e))))
        | Written.terminates ↦ terminates
      ])
      else returns (s, env.render (fail_events id (codes "Unsupported request")))

  -- `RequestProcessor::process`.
  unfoldable pub process : RequestProcessor → S → ℕ → Str → Outcome (S × Str)
  unfolding decode call_handlers respond
  process rp s session text = elim (decode text) [
    | ok rq ↦ elim (call_handlers rp.handlers session rq s Entries.end false) [
      | returns r ↦ respond rq.id r
      | terminates ↦ terminates
      | undefined ↦ undefined
    ]
    | answer id reason ↦ returns (s, env.render (fail_events id reason))
    | raise e ↦ returns (s, env.render (fail_events (pos 0) (env.what e)))
    | terminate ↦ terminates
  ]

  -- The same on what is at the pointer `request`.
  unfoldable pub process_at : RequestProcessor → S → ℕ → TextAt → Outcome (S × Str)
  unfolding process
  process_at rp s session (terminated text) = process rp s session text
  process_at rp s session (unterminated bytes) =
      if env.stops_within bytes
      then returns (s, env.render (fail_events (pos 0) (env.what (parse_failed bytes))))
      else undefined

  -- `startSession` and `endSession` call every entry of the multimap.
  unfoldable pub start_session : List (Str × ℕ) → S → ℕ → S
  start_session [] s id = s
  start_session ((k, h) ∷ m) s id = start_session m ((env.handler h).start_session s id) id

  unfoldable pub end_session : List (Str × ℕ) → S → ℕ → S
  end_session [] s id = s
  end_session ((k, h) ∷ m) s id = end_session m ((env.handler h).end_session s id) id
