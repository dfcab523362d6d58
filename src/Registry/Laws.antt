-- ===== src/Registry/Laws.antt =====
-- What a registration changes, and what a lookup then finds.
use kexplorer_server.Prelude.{
  ℕ, ◌≡◌, refl, ap, sym, ◌∙◌, Bool, true, false, List, [], ◌∷◌, Option, none, some, if◌then◌else◌,
  ◌==◌, inl, inr, ==_refl, ==_iff, subst, Bool-cases, Option-cases,
}
use kexplorer_server.Prelude.Text.{Str, str_eq, str_eq_refl}
use kexplorer_server.Prelude.Map.{
  find, insert, nat_eq, text_eq, or_else, find-insert, insert_missing, insert_present,
}
use kexplorer_server.Property.{PropertyInfo}
use kexplorer_server.Registry.{
  Registry, duplicate_id, duplicate_name, register, register_all, lookup_id, lookup_name,
}

abbrev pub hit {ℓ} : {A : Type ℓ} → Bool → A → Option A
hit b a = if b then some a else none

-- Every branch of `registerProperty`: a free id and name are both entered; a taken id changes
-- nothing; under a free id with a taken name the property is entered by id, and an exception
-- follows.
pub register_lem :
    (r : Registry) (pi : PropertyInfo) (i : ℕ) (s : Str)
    → let (r', thrown) = register r pi in
      (lookup_id r' i ≡ or_else (lookup_id r i) (hit (pi.id == i) pi))
      × (lookup_name r' s ≡ elim (lookup_id r pi.id) [
        | none ↦ or_else (lookup_name r s) (hit (str_eq pi.idstr s) pi)
        | some _ ↦ lookup_name r s
      ])
      × (thrown ≡ elim (lookup_id r pi.id) [
        | some _ ↦ some (duplicate_id pi.id)
        | none ↦ elim (lookup_name r pi.idstr) [
          | some _ ↦ some (duplicate_name pi.idstr)
          | none ↦ none
        ]
      ])
unfolding register lookup_id lookup_name
register_lem r pi i s = elim (Option-cases (find pi.id r.props_by_id)) [
  | inl free ↦
      let by_id : (insert pi.id pi r.props_by_id).1 ≡ true =
        ap (λ t. t.1) (insert_missing pi.id pi r.props_by_id free) in
      rw (by_id, free)
        (
          find-insert pi.id i pi r.props_by_id,
          find-insert pi.idstr s pi r.props_by_name,
          elim (Option-cases (find pi.idstr r.props_by_name)) [
            | inl unused ↦ rw (insert_missing pi.idstr pi r.props_by_name unused, unused)
            | inr (w, used) ↦ rw (insert_present pi.idstr pi w r.props_by_name used, used)
          ],
        )
  | inr (old, taken) ↦
      let by_id : (insert pi.id pi r.props_by_id).1 ≡ false =
        ap (λ t. t.1) (insert_present pi.id pi old r.props_by_id taken) in
      rw (by_id, taken) (find-insert pi.id i pi r.props_by_id, refl, refl)
]

-- A property that is free under both keys is registered, and the lookups find it there.
register_free :
    (r : Registry) (pi : PropertyInfo)
    → lookup_id r pi.id ≡ none
    → lookup_name r pi.idstr ≡ none
    → ((register r pi).1 ≡ none)
      × ((i : ℕ) → lookup_id (register r pi).0 i ≡ or_else (lookup_id r i) (hit (pi.id == i) pi))
      × ((s : Str)
          → lookup_name (register r pi).0 s
            ≡ or_else (lookup_name r s) (hit (str_eq pi.idstr s) pi))
register_free r pi free unused = (
  (register_lem r pi 0 []).2 ∙ rw (free, unused) refl,
  λ i. (register_lem r pi i []).0,
  λ s. (register_lem r pi 0 s).1 ∙ rw free refl,
)

-- No two of the properties share an id or a name, and the registry has none of them.
abbrev pub AllFree : Registry → List PropertyInfo → Type 0
AllFree r [] = Unit {0}
AllFree r (pi ∷ pis) = (lookup_id r pi.id ≡ none) × (lookup_name r pi.idstr ≡ none) × AllFree r pis

abbrev pub AllApart : PropertyInfo → List PropertyInfo → Type 0
AllApart pi [] = Unit {0}
AllApart pi (p ∷ ps) =
    ((pi.id == p.id) ≡ false) × (str_eq pi.idstr p.idstr ≡ false) × AllApart pi ps

abbrev pub AllDistinct : List PropertyInfo → Type 0
AllDistinct [] = Unit {0}
AllDistinct (pi ∷ pis) = AllApart pi pis × AllDistinct pis

-- Each of the properties is found by its id and by its name.
abbrev pub AllFound : Registry → List PropertyInfo → Type 0
AllFound r [] = Unit {0}
AllFound r (pi ∷ pis) =
    (lookup_id r pi.id ≡ some pi) × (lookup_name r pi.idstr ≡ some pi) × AllFound r pis

AllFree-register :
    (r : Registry) (pi : PropertyInfo) (ps : List PropertyInfo)
    → lookup_id r pi.id ≡ none
    → lookup_name r pi.idstr ≡ none
    → AllApart pi ps
    → AllFree r ps
    → AllFree (register r pi).0 ps
AllFree-register r pi [] free unused a f = tt
AllFree-register r pi (p ∷ ps) free unused a f =
    let (_, ids, names) = register_free r pi free unused in
    (
      ids p.id ∙ rw (f.0, a.0) refl,
      names p.idstr ∙ rw (f.1, a.1) refl,
      AllFree-register r pi ps free unused a.2 f.2,
    )

-- What a registry holds stays there.
abbrev pub Keeps : Registry → Registry → Type 0
Keeps r r' =
    ((i : ℕ) (pi : PropertyInfo) → lookup_id r i ≡ some pi → lookup_id r' i ≡ some pi)
    × ((s : Str) (pi : PropertyInfo) → lookup_name r s ≡ some pi → lookup_name r' s ≡ some pi)

register-Keeps :
    (r : Registry) (pi : PropertyInfo)
    → lookup_id r pi.id ≡ none
    → lookup_name r pi.idstr ≡ none
    → Keeps r (register r pi).0
register-Keeps r pi free unused =
    let (_, ids, names) = register_free r pi free unused in
    (λ i p h. ids i ∙ rw h refl, λ s p h. names s ∙ rw h refl)

register_all-cons :
    (r : Registry) (pi : PropertyInfo) (ps : List PropertyInfo)
    → (register r pi).1 ≡ none
    → register_all r (pi ∷ ps) ≡ register_all (register r pi).0 ps
unfolding register_all
register_all-cons r pi ps h = rw (h, register_all)

-- If a list of properties is apart, and free in a registry, then they are all registered without
-- an exception, every one is found by its id and by its name, and what was there is still found.
pub register_all_lem :
    (r : Registry) (ps : List PropertyInfo)
    → AllFree r ps
    → AllDistinct ps
    → ((register_all r ps).1 ≡ none)
      × AllFound (register_all r ps).0 ps
      × Keeps r (register_all r ps).0
register_all_lem r [] f d = unfold register_all in (refl, tt, (λ i p h. h, λ s p h. h))
register_all_lem r (pi ∷ ps) (free, unused, f) (a, d) =
    let (clean, ids, names) = register_free r pi free unused in
    let (keep_ids, keep_names) = register-Keeps r pi free unused in
    let (thrown, found, (later_ids, later_names)) =
      register_all_lem (register r pi).0 ps (AllFree-register r pi ps free unused a f) d in
    subst (λ t. (t.1 ≡ none) × AllFound t.0 (pi ∷ ps) × Keeps r t.0)
      (sym (register_all-cons r pi ps clean))
      (
        thrown,
        (
          later_ids pi.id pi (ids pi.id ∙ rw (free, ==_refl pi.id) refl),
          later_names pi.idstr pi (names pi.idstr ∙ rw (unused, str_eq_refl pi.idstr) refl),
          found,
        ),
        (λ i p h. later_ids i p (keep_ids i p h), λ s p h. later_names s p (keep_names s p h)),
      )

or_else-hit :
    (pi : PropertyInfo) (i : ℕ) (o : Option PropertyInfo)
    → (pi.id ≡ i → o ≡ some pi)
    → or_else o (hit (pi.id == i) pi) ≡ o
or_else-hit pi i (some p) h = refl
or_else-hit pi i none h = elim (Bool-cases (pi.id == i)) [
  | inl same ↦ rw same (sym (h ((==_iff pi.id i).0 same)))
  | inr other ↦ rw other
]

-- A second registration of a property whose id was free is refused, and the registry stays as it
-- was.
pub register_twice :
    (r : Registry) (pi : PropertyInfo)
    → lookup_id r pi.id ≡ none
    → let r' = (register r pi).0 in
      ((register r' pi).1 ≡ some (duplicate_id pi.id))
      × ((i : ℕ) → lookup_id (register r' pi).0 i ≡ lookup_id r' i)
      × ((s : Str) → lookup_name (register r' pi).0 s ≡ lookup_name r' s)
register_twice r pi free =
    let r' = (register r pi).0 in
    let there : lookup_id r' pi.id ≡ some pi =
      (register_lem r pi pi.id []).0 ∙ rw (free, ==_refl pi.id) refl in
    (
      (register_lem r' pi 0 []).2 ∙ rw there refl,
      λ i.
          (register_lem r' pi i []).0
          ∙ or_else-hit pi i (lookup_id r' i) (λ e. ap (lookup_id r') (sym e) ∙ there),
      λ s. (register_lem r' pi 0 s).1 ∙ rw there refl,
    )

-- A sequence of registrations whose first id is taken throws at once.
pub register_all_taken :
    (r : Registry) (pi old : PropertyInfo) (ps : List PropertyInfo)
    → lookup_id r pi.id ≡ some old
    → (register_all r (pi ∷ ps)).1 ≡ some (duplicate_id pi.id)
unfolding register_all
register_all_taken r pi old ps there =
    let thrown : (register r pi).1 ≡ some (duplicate_id pi.id) =
      (register_lem r pi 0 []).2 ∙ rw there refl in
    rw (thrown, register_all)
