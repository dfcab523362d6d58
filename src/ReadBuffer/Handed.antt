-- ===== src/ReadBuffer/Handed.antt =====
-- What was read is handed over whole, whatever the next read has written by then.
use kexplorer_server.Prelude.{
  ℕ, ◌+◌, ◌≤◌, ◌≡◌, refl, sym, ◌∙◌, subst, List, [], ◌∷◌, length, take, drop, ◌⊎◌, inl, inr, arith,
  length-replicate, take-append_left, take-all, ap₂, Bool-cases, ◌==◌,
}
use kexplorer_server.Buffer.{overwrite}
use kexplorer_server.Buffer.Inv.{length-overwrite}
use kexplorer_server.ReadBuffer.{
  ReadBuffer, create_buffers, data_at, w_index, r_index, swap, fill, handed, upcoming, deliver,
}

-- Both buffers have their size, and one of them is active.
pub record IsPair (b : ReadBuffer) : Type 0 where
  pub first_full : length b.first ≡ b.size
  pub second_full : length b.second ≡ b.size
  pub one : (b.active ≡ 0) ⊎ (b.active ≡ 1)

create-IsPair : (size : ℕ) → IsPair (create_buffers size)
unfolding create_buffers
create-IsPair size = record {
  first_full = length-replicate {A = ℕ} size 0;
  second_full = length-replicate {A = ℕ} size 0;
  one = inl refl;
}

-- No read is longer than a buffer.
pub data AllShort (size : ℕ) : List (List ℕ) → Type 0 where
  nil : AllShort size []
  cons :
      {xs : List ℕ} {xss : List (List ℕ)}
      → length xs ≤ size
      → AllShort size xss
      → AllShort size (xs ∷ xss)

upcoming-AllShort :
    {size : ℕ} {xss : List (List ℕ)} → AllShort size xss → length (upcoming xss) ≤ size
upcoming-AllShort AllShort.nil = omega arith
upcoming-AllShort (AllShort.cons h s) = h

written_first : (xs m : List ℕ) → length xs ≤ length m → take (length xs) (overwrite 0 xs m) ≡ xs
written_first xs m h =
    take-append_left (length xs) xs (drop (0 + length xs) m) (omega arith)
    ∙ take-all (length xs) xs (omega arith)

-- The bytes of a read are in the buffer that is written.
abbrev Holding : List ℕ → ReadBuffer → Type 0
Holding xs b = IsPair b × (take (length xs) (data_at (w_index b) b) ≡ xs)

fill-Holding :
    (xs : List ℕ) (b : ReadBuffer) → IsPair b → length xs ≤ b.size → Holding xs (fill xs b)
unfolding fill w_index data_at
fill-Holding xs b p h = elim p.one [
  | inl e ↦ rw e (
    record {
      first_full = length-overwrite 0 xs b.first (omega (arith, p.first_full)) ∙ p.first_full;
      second_full = p.second_full;
      one = inl refl;
    },
    written_first xs b.first (omega (arith, p.first_full)),
  )
  | inr e ↦ rw e (
    record {
      first_full = p.first_full;
      second_full = length-overwrite 0 xs b.second (omega (arith, p.second_full)) ∙ p.second_full;
      one = inr refl;
    },
    written_first xs b.second (omega (arith, p.second_full)),
  )
]

swap-IsPair : (b : ReadBuffer) → IsPair b → IsPair (swap b)
unfolding swap
swap-IsPair b p = record {
  first_full = p.first_full;
  second_full = p.second_full;
  one = elim p.one [ inl e ↦ inr (rw e refl) | inr e ↦ inl (rw e refl) ];
}

-- A write behind a swap leaves what is read.
handed_other :
    (n : ℕ) (ys : List ℕ) (b : ReadBuffer)
    → IsPair b
    → handed n (fill ys (swap b)) ≡ take n (data_at (w_index b) b)
unfolding handed fill swap w_index r_index data_at
handed_other n ys b p = elim p.one [ inl e ↦ rw e refl | inr e ↦ rw e refl ]

fill_size : (xs : List ℕ) (b : ReadBuffer) → (fill xs b).size ≡ b.size
unfolding fill w_index
fill_size xs b = elim (Bool-cases (b.active == 0)) [ inl e ↦ rw e refl | inr e ↦ rw e refl ]

next_size : (xs : List ℕ) (b : ReadBuffer) → (fill xs (swap b)).size ≡ b.size
unfolding swap
next_size xs b = fill_size xs (swap b)

deliver_lem :
    (xss : List (List ℕ)) (b : ReadBuffer)
    → AllShort b.size xss
    → Holding (upcoming xss) b
    → deliver xss b ≡ xss
unfolding deliver swap
deliver_lem [] b s h = refl
deliver_lem (xs ∷ xss) b (AllShort.cons short s) (p, there) =
    ap₂ ◌∷◌ (handed_other (length xs) (upcoming xss) b p ∙ there) (
      deliver_lem xss (fill (upcoming xss) (swap b))
        (subst (λ n. AllShort n xss) (sym (next_size (upcoming xss) b)) s)
        (fill-Holding (upcoming xss) (swap b) (swap-IsPair b p) (upcoming-AllShort s)))

-- If no read is longer than a buffer, then from a new pair of buffers each read is handed over as
-- it was received, even if the next one has written all its bytes by then.
pub deliver-create :
    (size : ℕ) (xss : List (List ℕ))
    → AllShort size xss
    → deliver xss (fill (upcoming xss) (create_buffers size)) ≡ xss
unfolding create_buffers
deliver-create size xss s =
    let b = create_buffers size in
    deliver_lem xss (fill (upcoming xss) b)
      (subst (λ n. AllShort n xss) (sym (fill_size (upcoming xss) b)) s)
      (fill-Holding (upcoming xss) b (create-IsPair size) (upcoming-AllShort s))
