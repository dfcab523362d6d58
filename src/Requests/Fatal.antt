-- ===== src/Requests/Fatal.antt =====
-- The requests whose id ends the server while they are read.
use kexplorer_server.Prelude.{
  ◌≡◌, refl, ap, ◌∙◌, Bool, true, false, Option, none, some, inl, inr, Bool-cases, arith, [],
}
use kexplorer_server.Prelude.Int.{ℤ}
use kexplorer_server.Prelude.Text.{Str, str_eq}
use kexplorer_server.Registry.{Registry}
use kexplorer_server.KnownProps.{request_id_key}
use kexplorer_server.Bag.{PropertyBag, Entries, find, get_property, get_table}
use kexplorer_server.Bag.Json.{Json, Members}
use kexplorer_server.Bag.Table.{first_member, find-entries_of}
use kexplorer_server.Bag.FromJson.Reference.{bag_of, entries_of}
use kexplorer_server.Requests.{
  ◌>>=◌, Environment, Attempt, ok, answer, raise, terminate, read_id, read_key, read_request,
  decode,
}
use kexplorer_server.Requests.Decode.{decode_lem, understood}

unfoldable pub is_container : {N : Type 0} → Json N → Bool
is_container (Json.arr xs) = true
is_container (Json.obj ms) = true
is_container _ = false

-- The document is an object whose first member named "request.id" is an object or an array.
unfoldable pub fatal_id : {N : Type 0} → Option (Json N) → Bool
unfolding is_container
fatal_id (some (Json.obj ms)) = elim (first_member request_id_key (λ n v. is_container v) ms) [
  | none ↦ false
  | some b ↦ b
]
fatal_id _ = false

no_property_in : PropertyBag → Bool
no_property_in b = elim (get_property b) [ none ↦ true | some p ↦ false ]

unfoldable pub is_terminate : {A : Type 0} → Attempt A → Bool
is_terminate terminate = true
is_terminate _ = false

pub terminate_of : {A : Type 0} (m : Attempt A) → is_terminate m ≡ true → m ≡ terminate
unfolding is_terminate
terminate_of terminate h = refl
terminate_of (ok a) h = cc
terminate_of (answer id reason) h = cc
terminate_of (raise e) h = cc

is_terminate-bind :
    {A B : Type 0} (m : Attempt A) (f : A → Attempt B)
    → ((a : A) → is_terminate (f a) ≡ false)
    → is_terminate (m >>= f) ≡ is_terminate m
unfolding is_terminate
is_terminate-bind (ok a) f h = h a
is_terminate-bind (answer id reason) f h = refl
is_terminate-bind (raise e) f h = refl
is_terminate-bind terminate f h = refl

module _ {N S : Type 0} (env : Environment N S) (registry : Registry) where
  no_property_in-bag_of :
      (n : Str) (v : Json N) → no_property_in (bag_of env.numbers registry n v) ≡ is_container v
  unfolding no_property_in is_container bag_of get_property
  no_property_in-bag_of n (Json.arr xs) = refl
  no_property_in-bag_of n (Json.obj ms) = refl
  no_property_in-bag_of n Json.null = refl
  no_property_in-bag_of n (Json.bool b) = refl
  no_property_in-bag_of n (Json.num b) = refl
  no_property_in-bag_of n (Json.str b) = refl

  -- What the id's entry means for the request, in the table and in the document.
  first_container :
      (k : Str) (ms : Members N)
      → (elim (first_member k (bag_of env.numbers registry) ms) [
        | none ↦ false
        | some b ↦ no_property_in b
      ])
        ≡ (elim (first_member k (λ n v. is_container v) ms) [ none ↦ false | some b ↦ b ])
  unfolding first_member
  first_container k Members.end = refl
  first_container k (Members.member j v ms) = elim (Bool-cases (str_eq j k)) [
    | inl same ↦ rw (same, first_member) (no_property_in-bag_of _ v)
    | inr other ↦ rw (other, first_member) (first_container k ms)
  ]

  -- `std::terminate` is called on a request exactly if its id has no property.
  is_terminate-read_id :
      (es : Entries)
      → is_terminate (read_id es)
        ≡ (elim (find request_id_key es) [ none ↦ false | some b ↦ no_property_in b ])
  unfolding read_id no_property_in is_terminate
  is_terminate-read_id es = ground arith

  is_terminate-read_key : (id : ℤ) (es : Entries) → is_terminate (read_key id es) ≡ false
  unfolding read_key is_terminate
  is_terminate-read_key id es = ground arith

  is_terminate-read_request :
      (es : Entries) (n : Str)
      → is_terminate (read_request (PropertyBag.table n es)) ≡ is_terminate (read_id es)
  unfolding read_request get_table is_terminate
  is_terminate-read_request es n = is_terminate-bind (read_id es) _ (λ id.
      is_terminate-bind (read_key id es)
        (λ k. ok (record { id = id; key = k; bag = PropertyBag.table n es })) (λ k. refl)
      ∙ is_terminate-read_key id es)

  understood_fatal :
      (doc : Option (Json N)) (text : Str)
      → is_terminate (understood env registry doc text) ≡ fatal_id doc
  unfolding is_terminate fatal_id bag_of read_request get_table find first_member
  understood_fatal none text = refl
  understood_fatal (some (Json.obj ms)) text =
      is_terminate-read_request (entries_of env.numbers registry ms Entries.end) []
      ∙ is_terminate-read_id (entries_of env.numbers registry ms Entries.end)
      ∙ rw (find-entries_of env.numbers registry request_id_key ms Entries.end)
          (first_container request_id_key ms)
  understood_fatal (some (Json.arr xs)) text = refl
  understood_fatal (some Json.null) text = refl
  understood_fatal (some (Json.bool b)) text = refl
  understood_fatal (some (Json.num n)) text = refl
  understood_fatal (some (Json.str s)) text = refl

  -- The server is ended by the reading of a text exactly if its document has a fatal id.
  pub is_terminate-decode :
      (text : Str) → is_terminate (decode env registry text) ≡ fatal_id (env.parse text)
  is_terminate-decode text =
      ap is_terminate (decode_lem env registry text) ∙ understood_fatal (env.parse text) text
