-- ===== src/Prelude/Map.antt =====
-- `std::unordered_map` as an association list. Iteration goes along the list: the order that the
-- library leaves open is the order of the entries, and a theorem about every list holds for each.
use Prim.Native.Nat.{ℕ}
use mathlib.Core.Path.{◌≡◌, refl, sym, ap, ◌∙◌}
use mathlib.Core.Logic.{◌↔◌, inl, inr}
use mathlib.Core.Bool.{Bool, true, false}
use mathlib.Core.Option.{Option, none, some}
use mathlib.Core.List.{List, [], ◌∷◌, ◌++◌}
use native.Mathlib.Omega.{arith}
use kexplorer_server.Prelude.Tests.{◌==◌, ==_iff, if◌then◌else◌, Bool-cases, Option-cases}
use kexplorer_server.Prelude.Int.{ℤ, eq_ℤ, eq_ℤ_iff}
use kexplorer_server.Prelude.Text.{Str, str_eq, str_eq_iff}

-- The keys' equality.
pub record Eq {ℓ} (K : Type ℓ) : Type ℓ where
  pub beq : K → K → Bool
  pub beq_iff : (a b : K) → (beq a b ≡ true) ↔ (a ≡ b)

instance abbrev pub nat_eq : Eq ℕ
nat_eq = record { beq = ◌==◌; beq_iff = ==_iff }

instance abbrev pub int_eq : Eq ℤ
int_eq = record { beq = eq_ℤ; beq_iff = eq_ℤ_iff }

instance abbrev pub text_eq : Eq Str
text_eq = record { beq = str_eq; beq_iff = str_eq_iff }

abbrev pub or_else {ℓ} : {A : Type ℓ} → Option A → Option A → Option A
or_else (some a) b = some a
or_else none b = b

pub or_else-none {ℓ} : {A : Type ℓ} (o : Option A) → or_else o none ≡ o
or_else-none none = refl
or_else-none (some a) = refl

pub some-ne-none {ℓ} : {A : Type ℓ} {a : A} → some a ≡ none → ⊥
some-ne-none h = cc

pub beq_refl {ℓ} : {K : Type ℓ} ⦃e : Eq K⦄ (k : K) → e.beq k k ≡ true
beq_refl ⦃e⦄ k = (e.beq_iff k k).1 refl

module _ {ℓ κ} {K : Type ℓ} {V : Type κ} ⦃e : Eq K⦄ where
  -- `find`; `none` is `end()`.
  unfoldable pub find : K → List (K × V) → Option V
  find k [] = none
  find k ((j, v) ∷ m) = if e.beq j k then some v else find k m

  -- `insert`, which leaves an entry that is there, and says whether it inserted.
  unfoldable pub insert : K → V → List (K × V) → List (K × V) × Bool
  insert k v m = elim (find k m) [ none ↦ (m ++ ((k, v) ∷ []), true) | some w ↦ (m, false) ]

  -- `erase` of a key.
  unfoldable pub erase : K → List (K × V) → List (K × V)
  erase k [] = []
  erase k ((j, v) ∷ m) = if e.beq j k then erase k m else (j, v) ∷ erase k m

  -- Assignment through an iterator that `find` returned.
  unfoldable pub replace : K → V → List (K × V) → List (K × V)
  replace k v [] = []
  replace k v ((j, w) ∷ m) = if e.beq j k then (j, v) ∷ m else (j, w) ∷ replace k v m

  pub find-append :
      (k : K) (m m' : List (K × V)) → find k (m ++ m') ≡ or_else (find k m) (find k m')
  unfolding find
  find-append k [] m' = refl
  find-append k ((j, v) ∷ m) m' = elim (Bool-cases (e.beq j k)) [
    | inl h ↦ rw h
    | inr h ↦ rw h (find-append k m m')
  ]

  pub insert_missing :
      (k : K) (v : V) (m : List (K × V))
      → find k m ≡ none
      → insert k v m ≡ (m ++ ((k, v) ∷ []), true)
  unfolding insert
  insert_missing k v m h = rw (h, insert)

  pub insert_present :
      (k : K) (v w : V) (m : List (K × V)) → find k m ≡ some w → insert k v m ≡ (m, false)
  unfolding insert
  insert_present k v w m h = rw (h, insert)

  find-single : (k j : K) (v : V) → find j ((k, v) ∷ []) ≡ (if e.beq k j then some v else none)
  unfolding find
  find-single k j v = refl

  -- What is found after an insertion: the entry that was there, else the new one under its key.
  pub find-insert :
      (k j : K) (v : V) (m : List (K × V))
      → find j (insert k v m).0 ≡ or_else (find j m) (if e.beq k j then some v else none)
  find-insert k j v m = elim (Option-cases (find k m)) [
    | inl missing ↦
        rw (insert_missing k v m missing)
          (find-append j m ((k, v) ∷ []) ∙ ap (or_else (find j m)) (find-single k j v))
    | inr (w, present) ↦ rw (insert_present k v w m present) (elim (Option-cases (find j m)) [
      | inr (u, found) ↦ rw found
      | inl not_found ↦ elim (Bool-cases (e.beq k j)) [
        | inr other ↦ rw (not_found, other)
        | inl same ↦
            absurd
              (some-ne-none (sym present ∙ ap (λ i. find i m) ((e.beq_iff k j).0 same) ∙ not_found))
      ]
    ])
  ]

  -- An insertion succeeds exactly if the key was missing.
  pub insert-inserted :
      (k : K) (v : V) (m : List (K × V)) → ((insert k v m).1 ≡ true) ↔ (find k m ≡ none)
  insert-inserted k v m = elim (Option-cases (find k m)) [
    | inl missing ↦ rw (insert_missing k v m missing) (λ _. missing, λ _. refl)
    | inr (w, present) ↦ rw (insert_present k v w m present, present) (λ h. cc, λ h. cc)
  ]

  pub find-erase :
      (k j : K) (m : List (K × V)) → find j (erase k m) ≡ (if e.beq k j then none else find j m)
  unfolding find erase
  find-erase k j [] = elim (Bool-cases (e.beq k j)) [ inl h ↦ rw h | inr h ↦ rw h ]
  find-erase k j ((i, v) ∷ m) =
      ground (arith, e.beq_iff i k, e.beq_iff i j, e.beq_iff k j, find-erase k j m)

  pub find-replace :
      (k j : K) (v : V) (m : List (K × V))
      → find j (replace k v m)
        ≡ (if e.beq k j then elim (find k m) [ none ↦ none | some w ↦ some v ] else find j m)
  unfolding find replace
  find-replace k j v [] = elim (Bool-cases (e.beq k j)) [ inl h ↦ rw h | inr h ↦ rw h ]
  find-replace k j v ((i, w) ∷ m) =
      ground (arith, e.beq_iff i k, e.beq_iff i j, e.beq_iff k j, find-replace k j v m)
