-- ===== src/Bag/RoundTrip/Both.antt =====
-- Writing a table and reading it again.
use kexplorer_server.Prelude.{◌≡◌, none, List, []}
use kexplorer_server.Property.{invalid_prop_id}
use kexplorer_server.Registry.{Registry, lookup_id}
use kexplorer_server.Session.{CallbackResult}
use kexplorer_server.Bag.{PropertyBag, Entries, name}
use kexplorer_server.Bag.Json.{Json, Numbers, Event}
use kexplorer_server.Bag.FromJson.{JsonError, ok, bag_from_json}
use kexplorer_server.Bag.ToJson.{written, bag_to_json}
use kexplorer_server.Bag.RoundTrip.{Numerals, IsWhole, AreWhole, document, Writes}
use kexplorer_server.Bag.RoundTrip.Writing.{whole-Writes}
use kexplorer_server.Bag.RoundTrip.Reading.{whole-read}

module _ {N : Type 0} {numbers : Numbers N} (numerals : Numerals numbers) (registry : Registry)
    {H : Type 0} (handle : H → JsonError → H × CallbackResult) where
  -- If the registry does not know the invalid id, let a table hold properties that are described
  -- as the registry knows their names, with values of these types in their range, doubles
  -- excepted; arrays that are registered as such, of values of their base type, doubles excepted,
  -- or of tables of the same kind; and tables of the same kind. If the entries of each table have
  -- different keys, which are their names, are not empty and have no NUL, then the table is
  -- written without an exception, as the text of a document from which the reader gets the same
  -- table and reports no error.
  pub bag_from_json-bag_to_json :
      (es : Entries) (h : H)
      → lookup_id registry invalid_prop_id ≡ none
      → AreWhole registry es
      → (events : List Event) × (doc : Json N) × (bag_to_json registry (PropertyBag.table [] es)
          ≡ written events)
        × Writes numerals events doc
        × (bag_from_json numbers handle registry [] doc h ≡ (h, ok (PropertyBag.table [] es)))
  unfolding name
  bag_from_json-bag_to_json es h unregistered whole =
      let (events, made, writes) =
        whole-Writes numerals registry unregistered (IsWhole.table {name = []} whole) in
      (
        events,
        document numerals (PropertyBag.table [] es),
        made,
        writes,
        whole-read numerals handle registry h (IsWhole.table whole),
      )
