-- ===== src/Requests/Answers.antt =====
-- Which texts get a response, and which end the server.
use kexplorer_server.Prelude.{ℕ, ◌≡◌, refl, ◌∙◌, Bool, true, false, inl, inr, List, [], ◌∷◌}
use kexplorer_server.Prelude.Int.{ℤ, pos}
use kexplorer_server.Prelude.Text.{Str}
use kexplorer_server.Prelude.Outcome.{returns, terminates}
use kexplorer_server.Registry.{Registry}
use kexplorer_server.Bag.{PropertyBag, Entries}
use kexplorer_server.Bag.ToJson.{bag_to_json}
use kexplorer_server.Bag.ToJson.Laws.{Finishes, finished, table_to_json-Finishes}
use kexplorer_server.Requests.{
  Environment, write_failed, Attempt, ok, answer, raise, terminate, Request, decode, process,
  call_handlers, respond, RequestProcessor, fail_events,
}
use kexplorer_server.Requests.Fatal.{fatal_id, is_terminate, terminate_of, is_terminate-decode}
use kexplorer_server.Requests.Laws.{serving, in_turn, process-in_turn}

-- Every call of a handler comes back.
abbrev pub AllReturn : {N S : Type 0} → Environment N S → Type 0
AllReturn {S = S} env =
    (h : ℕ) (s : S) (session : ℕ) (k : Str) (id : ℤ) (bag : PropertyBag) (response : Entries)
    → (r : S × Entries × Bool) × ((env.handler h).process s session k id bag response ≡ returns r)

module _ {N S : Type 0} (env : Environment N S) (registry : Registry) (rp : RequestProcessor)
    (s : S) (session : ℕ) (text : Str) where
  -- The handlers that this request calls come back.
  abbrev pub CallsReturn : Attempt Request → Type 0
  CallsReturn (ok rq) =
      (r : S × Entries × Bool) × (call_handlers env registry rp.handlers session rq s Entries.end
          false
        ≡ returns r)
  CallsReturn _ = Unit {0}

  in_turn_returns :
      (rq : Request) (hs : List ℕ) (s : S) (response : Entries) (found : Bool)
      → AllReturn env
      → (r : S × Entries × Bool) × (in_turn env registry session rq hs s response found ≡ returns r)
  in_turn_returns rq [] s response found a = ((s, response, found), refl)
  in_turn_returns rq (h ∷ hs) s response found a =
      let ((s', response', found'), back) = a h s session rq.key rq.id rq.bag response in
      let (r, rest) = in_turn_returns rq hs s' response' found' a in (r, rw back rest)

  responded :
      (id : ℤ) (s : S) (response : Entries)
      → Finishes (bag_to_json registry (PropertyBag.table [] response))
      → (r : S × Str) × (respond env registry id (s, response, true) ≡ returns r)
  unfolding respond
  responded id s response f = elim (finished f) [
    | inl (es, e) ↦ ((s, env.render es), rw (e, respond))
    | inr (x, e) ↦
        ((s, env.render (fail_events (pos 0) (env.what (write_failed x)))), rw (e, respond))
  ]

  respond_returns :
      (id : ℤ) (s : S) (response : Entries) (found : Bool)
      → (r : S × Str) × (respond env registry id (s, response, found) ≡ returns r)
  unfolding respond
  respond_returns id s response false = (_, refl)
  respond_returns id s response true =
      responded id s response (table_to_json-Finishes registry [] response)

  -- A text whose document is an object whose first member named "request.id" is an object or an
  -- array ends the server.
  pub process_terminates :
      fatal_id (env.parse text) ≡ true → process env registry rp s session text ≡ terminates
  unfolding process
  process_terminates fatal =
      let ended : decode env registry text ≡ terminate =
        terminate_of (decode env registry text) (is_terminate-decode env registry text ∙ fatal) in
      rw (ended, process)

  answered :
      (m : Attempt Request)
      → decode env registry text ≡ m
      → is_terminate m ≡ false
      → AllReturn env
      → (r : S × Str) × (process env registry rp s session text ≡ returns r)
  unfolding process is_terminate
  answered (ok rq) e h a =
      let ((s', response, found), back) =
        in_turn_returns rq (serving rq.key rp.handlers) s Entries.end false a in
      let (r, done) = respond_returns rq.id s' response found in
      (r, process-in_turn env registry rp s session text rq e ∙ rw back done)
  answered (answer id reason) e h a = ((s, env.render (fail_events id reason)), rw (e, process))
  answered (raise x) e h a = ((s, env.render (fail_events (pos 0) (env.what x))), rw (e, process))
  answered terminate e h a = cc

  -- If every call of a handler comes back, then each text gets a response, unless its document is
  -- an object whose first member named "request.id" is an object or an array.
  pub process_answers :
      AllReturn env
      → fatal_id (env.parse text) ≡ false
      → (r : S × Str) × (process env registry rp s session text ≡ returns r)
  process_answers a harmless =
      answered (decode env registry text) refl (is_terminate-decode env registry text ∙ harmless) a

  answered_calls :
      (m : Attempt Request)
      → decode env registry text ≡ m
      → is_terminate m ≡ false
      → CallsReturn m
      → (r : S × Str) × (process env registry rp s session text ≡ returns r)
  unfolding process is_terminate
  answered_calls (ok rq) e h ((s', response, found), back) =
      let (r, done) = respond_returns rq.id s' response found in (r, rw (e, process, back) done)
  answered_calls (answer id reason) e h a =
      ((s, env.render (fail_events id reason)), rw (e, process))
  answered_calls (raise x) e h a =
      ((s, env.render (fail_events (pos 0) (env.what x))), rw (e, process))
  answered_calls terminate e h a = cc

  -- The same for a text whose own calls come back.
  pub process_returns :
      CallsReturn (decode env registry text)
      → fatal_id (env.parse text) ≡ false
      → (r : S × Str) × (process env registry rp s session text ≡ returns r)
  process_returns a harmless =
      answered_calls (decode env registry text) refl
        (is_terminate-decode env registry text ∙ harmless) a
