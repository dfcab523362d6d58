-- ===== src/Requests/Laws.antt =====
-- What the request processor answers, and which handlers it calls.
use kexplorer_server.Prelude.{
  ℕ, ◌+◌, ◌≡◌, refl, ap, ◌∙◌, Bool, false, inl, inr, Bool-cases, List, [], ◌∷◌, ◌++◌, if◌then◌else◌,
  ◌&&◌, ◌==◌,
}
use kexplorer_server.Prelude.Text.{Str, codes, str_eq}
use kexplorer_server.Prelude.Outcome.{Outcome, returns, terminates, undefined, ◌>>=◌}
use kexplorer_server.Registry.{Registry}
use kexplorer_server.Bag.{Entries}
use kexplorer_server.Requests.{
  Environment, Request, RequestProcessor, ok, decode, call_handlers, respond, process, fail_events,
}

-- The handlers of a key, in the order of the multimap.
unfoldable pub serving : Str → List (Str × ℕ) → List ℕ
serving k [] = []
serving k ((j, h) ∷ m) = if str_eq j k then h ∷ serving k m else serving k m

-- How often a handler stands under a key.
unfoldable pub times : Str → ℕ → List (Str × ℕ) → ℕ
times k h [] = 0
times k h ((j, i) ∷ m) = if str_eq j k && (i == h) then times k h m + 1 else times k h m

pub serving-append :
    (k : Str) (m m' : List (Str × ℕ)) → serving k (m ++ m') ≡ serving k m ++ serving k m'
unfolding serving
serving-append k [] m' = refl
serving-append k ((j, h) ∷ m) m' = elim (Bool-cases (str_eq j k)) [
  | inl same ↦ rw (same, serving) (ap (λ t. h ∷ t) (serving-append k m m'))
  | inr other ↦ rw (other, serving) (serving-append k m m')
]

bind_cong {ℓ κ} :
    {A : Type ℓ} {B : Type κ} (o : Outcome A) (f g : A → Outcome B)
    → ((a : A) → f a ≡ g a)
    → (elim o [ returns a ↦ f a | terminates ↦ terminates | undefined ↦ undefined ]) ≡ (o >>= g)
bind_cong (returns a) f g e = e a
bind_cong terminates f g e = refl
bind_cong undefined f g e = refl

module _ {N S : Type 0} (env : Environment N S) (registry : Registry) (session : ℕ)
    (rq : Request) where
  -- Handlers called one after another, each on the state and the response table of the one before.
  abbrev pub in_turn : List ℕ → S → Entries → Bool → Outcome (S × Entries × Bool)
  in_turn [] s response found = returns (s, response, found)
  in_turn (h ∷ hs) s response found =
      (env.handler h).process s session rq.key rq.id rq.bag response >>= λ (s', response', found').
      in_turn hs s' response' found'

  call_handlers-in_turn :
      (m : List (Str × ℕ)) (s : S) (response : Entries) (found : Bool)
      → call_handlers env registry m session rq s response found
        ≡ in_turn (serving rq.key m) s response found
  unfolding call_handlers serving
  call_handlers-in_turn [] s response found = refl
  call_handlers-in_turn ((k, h) ∷ m) s response found = elim (Bool-cases (str_eq k rq.key)) [
    | inl same ↦
        rw (same, call_handlers, serving)
          (bind_cong ((env.handler h).process s session rq.key rq.id rq.bag response)
            (λ (s', response', found'). call_handlers env registry m session rq s' response' found')
            (λ (s', response', found'). in_turn (serving rq.key m) s' response' found')
            (λ (s', response', found'). call_handlers-in_turn m s' response' found'))
    | inr other ↦ rw (other, call_handlers, serving) (call_handlers-in_turn m s response found)
  ]

module _ {N S : Type 0} (env : Environment N S) (registry : Registry) (rp : RequestProcessor)
    (s : S) (session : ℕ) (text : Str) (rq : Request)
    (understood : decode env registry text ≡ ok rq) where
  -- An understood request is answered from what the handlers of its key leave, called one after
  -- another in the order in which the multimap iterates over them, each on the state and the
  -- response table of the one before, from an empty response table that no handler has claimed.
  pub process-in_turn : process env registry rp s session text ≡ (
      in_turn env registry session rq (serving rq.key rp.handlers) s Entries.end false
      >>= respond env registry rq.id)
  unfolding process
  process-in_turn =
      rw (understood, process)
        (rw (call_handlers-in_turn env registry session rq rp.handlers s Entries.end false) (
          bind_cong
            (in_turn env registry session rq (serving rq.key rp.handlers) s Entries.end false)
            (respond env registry rq.id) (respond env registry rq.id) (λ r. refl)))

  -- An understood request under a key that no handler serves is refused with the request's own id,
  -- and no state changes.
  pub process_unserved :
      serving rq.key rp.handlers ≡ []
      → process env registry rp s session text
        ≡ returns (s, env.render (fail_events rq.id (codes "Unsupported request")))
  unfolding respond
  process_unserved none_here = process-in_turn ∙ rw (none_here, respond)
