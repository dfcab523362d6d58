-- ===== src/Bag/RoundTrip/Apart.antt =====
-- Entries one behind the other, without a common key.
use kexplorer_server.Prelude.{◌≡◌, refl, ap, sym, ◌∙◌, none, some, ◌⊎◌, inl, inr, Bool-cases}
use kexplorer_server.Prelude.Map.{some-ne-none}
use kexplorer_server.Prelude.Text.{Str, str_eq, str_eq_iff, str_eq_refl}
use kexplorer_server.Bag.{PropertyBag, Entries, find, snoc, insert}
use kexplorer_server.Bag.Table.{find-snoc}

abbrev pub append_entries : Entries → Entries → Entries
append_entries Entries.end fs = fs
append_entries (Entries.entry k b es) fs = Entries.entry k b (append_entries es fs)

pub append_entries-end : (es : Entries) → append_entries es Entries.end ≡ es
append_entries-end Entries.end = refl
append_entries-end (Entries.entry k b es) = ap (Entries.entry k b) (append_entries-end es)

pub append_entries-snoc :
    (es : Entries) (k : Str) (b : PropertyBag) (fs : Entries)
    → append_entries (snoc es k b) fs ≡ append_entries es (Entries.entry k b fs)
append_entries-snoc Entries.end k b fs = refl
append_entries-snoc (Entries.entry j c es) k b fs =
    ap (Entries.entry j c) (append_entries-snoc es k b fs)

-- No key is in both.
abbrev pub Apart : Entries → Entries → Type 0
Apart es fs = (k : Str) → (find k es ≡ none) ⊎ (find k fs ≡ none)

pub Apart-end : (fs : Entries) → Apart Entries.end fs
unfolding find
Apart-end fs k = inl refl

find-head : (k : Str) (b : PropertyBag) (fs : Entries) → find k (Entries.entry k b fs) ≡ some b
unfolding find
find-head k b fs = rw (str_eq_refl k) refl

pub absent_here :
    (es : Entries) (k : Str) (b : PropertyBag) (fs : Entries)
    → Apart es (Entries.entry k b fs)
    → find k es ≡ none
absent_here es k b fs apart = elim (apart k) [
  | inl absent ↦ absent
  | inr absent ↦ absurd (some-ne-none (sym (find-head k b fs) ∙ absent))
]

-- The first of the keys behind goes to the entries before.
pub Apart-snoc :
    (es : Entries) (k : Str) (b : PropertyBag) (fs : Entries)
    → Apart es (Entries.entry k b fs)
    → find k fs ≡ none
    → Apart (snoc es k b) fs
unfolding find
Apart-snoc es k b fs apart once j = elim (Bool-cases (str_eq k j)) [
  | inl same ↦ inr (ap (λ i. find i fs) (sym ((str_eq_iff k j).0 same)) ∙ once)
  | inr other ↦ elim (apart j) [
    | inl absent ↦ inl (find-snoc j k b es ∙ rw (absent, other) refl)
    | inr absent ↦ inr (sym (rw other refl) ∙ absent)
  ]
]

pub insert_absent :
    (k : Str) (b : PropertyBag) (es : Entries) → find k es ≡ none → insert k b es ≡ snoc es k b
unfolding insert
insert_absent k b es absent = rw (absent, insert) refl
