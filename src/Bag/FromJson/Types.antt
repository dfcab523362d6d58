-- ===== src/Bag/FromJson/Types.antt =====
-- What it is for a bag to have the types of the registry, and for a reader to give such bags.
use kexplorer_server.Prelude.{◌≡◌, refl, Option, none, some, [], ◌⊎◌, inl, inr, Option-cases}
use kexplorer_server.Prelude.Text.{Str}
use kexplorer_server.Property.{Any, any_type, Property, PropertyInfo, TypeId, no_property}
use kexplorer_server.Registry.{Registry, lookup_name}
use kexplorer_server.Session.{CallbackResult, continues, aborts}
use kexplorer_server.Bag.Json.{Json, Numbers}
use kexplorer_server.Bag.{PropertyBag, Bags, Entries, find, snoc, insert}
use kexplorer_server.Bag.FromJson.{
  JsonError, Result, ok, thrown, Reading, value, mismatch, unknown, found, read_scalar, Reader,
  ◌>>=◌,
}

-- A property under a name: without a value, or a value of the registered type.
abbrev pub IsDescribed : Registry → Str → Property → Type 0
IsDescribed r name p =
    (p ≡ no_property)
    ⊎ ((info : PropertyInfo) × (lookup_name r name ≡ some info)
        × (p.info ≡ some info)
        × (p.id ≡ info.id)
        × (any_type p.value ≡ some info.type))

-- The elements of an array are of this type.
abbrev pub HasBase : Registry → Str → TypeId → Type 0
HasBase r name base =
    (info : PropertyInfo) × (lookup_name r name ≡ some info)
    × (info.type ≡ TypeId.array)
    × (info.base ≡ base)

mutual
  pub data IsTyped (r : Registry) : PropertyBag → Type 0 where
    property :
        {name : Str} {p : Property} → IsDescribed r name p → IsTyped r (PropertyBag.property name p)
    nothing : (name : Str) → IsTyped r (PropertyBag.array name Bags.nil)
    array :
        {name : Str} {base : TypeId} {bs : Bags}
        → HasBase r name base
        → AreOf r base bs
        → IsTyped r (PropertyBag.array name bs)
    table : {name : Str} {es : Entries} → AreTyped r es → IsTyped r (PropertyBag.table name es)

  -- One element of an array: a table, or a value of the base type, or nothing.
  pub data IsOf (r : Registry) : TypeId → PropertyBag → Type 0 where
    no_item : {base : TypeId} → IsOf r base (PropertyBag.empty [])
    item :
        {base : TypeId} {p : Property}
        → any_type p.value ≡ some base
        → IsOf r base (PropertyBag.property [] p)
    table_item :
        {base : TypeId} {es : Entries} → AreTyped r es → IsOf r base (PropertyBag.table [] es)

  pub data AreOf (r : Registry) : TypeId → Bags → Type 0 where
    nil : {base : TypeId} → AreOf r base Bags.nil
    cons :
        {base : TypeId} {b : PropertyBag} {bs : Bags}
        → IsOf r base b
        → AreOf r base bs
        → AreOf r base (Bags.cons b bs)

  pub data AreTyped (r : Registry) : Entries → Type 0 where
    end : AreTyped r Entries.end
    entry :
        {k : Str} {b : PropertyBag} {es : Entries}
        → IsTyped r b
        → AreTyped r es
        → AreTyped r (Entries.entry k b es)

snoc-AreTyped :
    {r : Registry} (es : Entries) (k : Str) (b : PropertyBag)
    → AreTyped r es
    → IsTyped r b
    → AreTyped r (snoc es k b)
snoc-AreTyped Entries.end k b t u = AreTyped.entry u AreTyped.end
snoc-AreTyped (Entries.entry j c es) k b (AreTyped.entry s t) u =
    AreTyped.entry s (snoc-AreTyped es k b t u)

pub insert-AreTyped :
    {r : Registry} (k : Str) (b : PropertyBag) (es : Entries)
    → IsTyped r b
    → AreTyped r es
    → AreTyped r (insert k b es)
unfolding insert
insert-AreTyped k b es u t = elim (Option-cases (find k es)) [
  | inl absent ↦ rw (absent, insert) (snoc-AreTyped es k b t u)
  | inr (c, there) ↦ rw (there, insert) t
]

-- What was read has the type.
abbrev pub Reads : TypeId → Reading → Type 0
Reads type (value v) = any_type v ≡ some type
Reads type mismatch = Unit {0}
Reads type unknown = Unit {0}

found-Reads {ℓ} :
    {A : Type ℓ} (type : TypeId) (f : A → Any) (o : Option A)
    → ((a : A) → any_type (f a) ≡ some type)
    → Reads type (found f o)
found-Reads type f none t = tt
found-Reads type f (some a) t = t a

pub read_scalar-Reads :
    {N : Type 0} (numbers : Numbers N) (type : TypeId) (v : Json N)
    → Reads type (read_scalar numbers type v)
unfolding read_scalar any_type
read_scalar-Reads numbers TypeId.bool v = found-Reads TypeId.bool Any.bool _ (λ a. refl)
read_scalar-Reads numbers TypeId.int v = found-Reads TypeId.int Any.int _ (λ a. refl)
read_scalar-Reads numbers TypeId.int64 v = found-Reads TypeId.int64 Any.int64 _ (λ a. refl)
read_scalar-Reads numbers TypeId.uint v = found-Reads TypeId.uint Any.uint _ (λ a. refl)
read_scalar-Reads numbers TypeId.uint64 v = found-Reads TypeId.uint64 Any.uint64 _ (λ a. refl)
read_scalar-Reads numbers TypeId.double v = found-Reads TypeId.double Any.double _ (λ a. refl)
read_scalar-Reads numbers TypeId.string v = found-Reads TypeId.string Any.string _ (λ a. refl)
read_scalar-Reads numbers TypeId.array v = tt
read_scalar-Reads numbers TypeId.table v = tt
read_scalar-Reads numbers TypeId.other v = tt

-- A result that is no exception satisfies the predicate.
abbrev pub Holds : {A : Type 0} → (A → Type 0) → Result A → Type 0
Holds P (ok a) = P a
Holds P (thrown e) = Unit {0}

pub Holds-weaker :
    {A : Type 0} (P Q : A → Type 0) (r : Result A) → ((a : A) → P a → Q a) → Holds P r → Holds Q r
Holds-weaker P Q (ok a) f p = f a p
Holds-weaker P Q (thrown e) f p = tt

abbrev pub Gives : {H : Type 0} {A : Type 0} → (A → Type 0) → Reader H A → Type 0
Gives {H} P m = (h : H) → Holds P (m h).1

bind_result :
    {H A B : Type 0} (P : A → Type 0) (Q : B → Type 0) (f : A → Reader H B) (x : H × Result A)
    → Holds P x.1
    → ((a : A) → P a → Gives Q (f a))
    → Holds Q (elim x.1 as (λ c. H × Result B) [ ok a ↦ f a x.0 | thrown e ↦ (x.0, thrown e) ]).1
bind_result P Q f (h, ok a) p k = k a p h
bind_result P Q f (h, thrown e) p k = tt

pub bind-Gives :
    {H A B : Type 0} (P : A → Type 0) (Q : B → Type 0) (m : Reader H A) (f : A → Reader H B)
    → Gives P m
    → ((a : A) → P a → Gives Q (f a))
    → Gives Q (m >>= f)
bind-Gives P Q m f g k h = bind_result P Q f (m h) (g h) k

pub report_result :
    {H A : Type 0} (P : A → Type 0) (e : JsonError) (a : A) (x : H × CallbackResult)
    → P a
    → Holds P
        (elim x.1 as (λ c. H × Result A) [ continues ↦ (x.0, ok a) | aborts ↦ (x.0, thrown e) ]).1
report_result P e a (h, continues) p = p
report_result P e a (h, aborts) p = tt
