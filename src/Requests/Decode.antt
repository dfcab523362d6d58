-- ===== src/Requests/Decode.antt =====
-- What the request processor understands of a text, for each document the parser can return.
use kexplorer_server.Prelude.{◌≡◌, refl, false, Option, none, some, inl, inr, Option-cases, []}
use kexplorer_server.Prelude.Text.{Str}
use kexplorer_server.Registry.{Registry}
use kexplorer_server.Bag.{PropertyBag, Bags, Entries, get_property}
use kexplorer_server.Bag.Json.{Json}
use kexplorer_server.Bag.FromJson.Pure.{bag_from_json_lem}
use kexplorer_server.Bag.FromJson.Reference.{bag_of}
use kexplorer_server.Requests.{
  Environment, JsonErrors, Attempt, raise, Request, parse_failed, handle, read_request, decode,
}

-- A table entry that is no property.
pub data IsCompound : PropertyBag → Type 0 where
  is_array : (n : Str) (bs : Bags) → IsCompound (PropertyBag.array n bs)
  is_table : (n : Str) (es : Entries) → IsCompound (PropertyBag.table n es)

get_property-IsCompound : {b : PropertyBag} → IsCompound b → get_property b ≡ none
unfolding get_property
get_property-IsCompound (is_array n bs) = refl
get_property-IsCompound (is_table n es) = refl

-- A fresh `JsonErrorHandler`.
abbrev no_errors : JsonErrors
no_errors = record { errors = false; message = none }

module _ {N S : Type 0} (env : Environment N S) (registry : Registry) where
  -- What a text is understood as, the bag of its document being a plain function of the document.
  abbrev pub understood : Option (Json N) → Str → Attempt Request
  understood none text = raise (parse_failed text)
  understood (some doc) text = read_request (bag_of env.numbers registry [] doc)

  -- Whether a text is a request depends on its document alone: a text that does not parse is an
  -- error, and on one that parses the checks are made on `bag_of` of the document.
  pub decode_lem : (text : Str) → decode env registry text ≡ understood (env.parse text) text
  unfolding handle decode
  decode_lem text = elim (Option-cases (env.parse text)) [
    | inl bad ↦ rw (bad, decode)
    | inr (doc, good) ↦
        rw (good, decode)
          (rw (bag_from_json_lem env.numbers handle registry (λ h e. refl) [] doc no_errors))
  ]
