-- ===== src/Requests/Registration.antt =====
-- Registration of handlers in the multimap.
use kexplorer_server.Prelude.{
  ℕ, ◌+◌, ◌-◌, ◌≡◌, ◌∙◌, List, [], ◌∷◌, if◌then◌else◌, ◌&&◌, ◌==◌, arith,
}
use kexplorer_server.Prelude.Text.{Str, str_eq, str_eq_iff}
use kexplorer_server.Requests.{RequestProcessor, register_handler, remove_first, unregister_handler}
use kexplorer_server.Requests.Laws.{times}

-- 1 where both name the same entry.
pub hits : Str → ℕ → Str → ℕ → ℕ
hits k h j i = if str_eq j k && (i == h) then 1 else 0

times_cons :
    (k : Str) (h : ℕ) (j : Str) (i : ℕ) (m : List (Str × ℕ))
    → times k h ((j, i) ∷ m) ≡ times k h m + hits k h j i
unfolding times hits
times_cons k h j i m = ground arith

-- The order that an insertion makes has the same entries.
abbrev pub Arranges : (List (Str × ℕ) → List (Str × ℕ)) → Type 0
Arranges arrange = (m : List (Str × ℕ)) (k : Str) (h : ℕ) → times k h (arrange m) ≡ times k h m

times-remove_first :
    (k : Str) (h : ℕ) (m : List (Str × ℕ)) (j : Str) (i : ℕ)
    → times k h (remove_first j i m) ≡ times k h m - hits k h j i
unfolding times hits remove_first
times-remove_first k h [] j i = ground arith
times-remove_first k h ((j', i') ∷ m) j i =
    ground (arith, times-remove_first k h m j i, str_eq_iff j' j, str_eq_iff j' k, str_eq_iff j k)

-- The multimap is a bag of entries: registering adds one, unregistering takes one away if there is
-- one, and all others stay.
pub times_registered :
    (arrange : List (Str × ℕ) → List (Str × ℕ)) (kept : Arranges arrange) (rp : RequestProcessor)
    (k j : Str) (h i : ℕ)
    → (times k h (register_handler arrange rp j i).handlers ≡ times k h rp.handlers + hits k h j i)
      × (times k h (unregister_handler rp j i).handlers ≡ times k h rp.handlers - hits k h j i)
unfolding register_handler unregister_handler
times_registered arrange kept rp k j h i = (
  kept ((j, i) ∷ rp.handlers) k h ∙ times_cons k h j i rp.handlers,
  times-remove_first k h rp.handlers j i,
)
