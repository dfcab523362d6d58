-- ===== src/Session/Spec.antt =====
-- The abstract session: the text received so far and two counters, and what it does with bytes.
use kexplorer_server.Prelude.{
  ℕ, ◌+◌, ◌≤◌, ◌≡◌, [], ◌∷◌, ◌++◌, length, leb, null, if◌then◌else◌, ◌==◌, arith,
}
use kexplorer_server.Prelude.Outcome.{Outcome, returns, terminates, undefined, map_outcome}
use kexplorer_server.Prelude.Text.{Str, text_at}
use kexplorer_server.Buffer.Inv.{IsValid, contents}
use kexplorer_server.Buffer.Push.{bound}
use kexplorer_server.Session.{
  SessionHandler, CallbackResult, continues, aborts, scan, Processor, Answer,
}

-- The counters never pass the number of bytes held, so they cannot wrap.
pub record IsOpen (h : SessionHandler) : Type 0 where
  pub valid : IsValid h.buffer
  pub ordered : h.json_depth ≤ h.json_depth_max
  pub counted : h.json_depth_max ≤ h.buffer.used

pub record View : Type 0 where
  pub text : Str
  pub depth : ℕ
  pub depth_max : ℕ

abbrev pub view : SessionHandler → View
view h = record { text = contents h.buffer; depth = h.json_depth; depth_max = h.json_depth_max }

abbrev pub fresh : View
fresh = record { text = []; depth = 0; depth_max = 0 }

-- The terminator that still fits `n` bytes.
abbrev pub terminator : ℕ → Str → Str
terminator n q = if leb (length q + 1) n then 0 ∷ [] else []

pub length-terminator : (n : ℕ) (q : Str) → length (terminator n q) ≤ 1
length-terminator n q = ground arith

abbrev pub Reaction {ℓ} : Type ℓ → Type ℓ
Reaction S = S × View × CallbackResult × Str

module _ {ℓ} {S : Type ℓ} (processor : Processor S) (n id : ℕ) where
  -- A complete request is processed once, and the session starts again.
  abbrev pub hand_over : S → Str → Outcome (Reaction S)
  hand_over s q =
      map_outcome (λ r. (r.0, fresh, continues, r.1))
        (processor s id (text_at (q ++ terminator n q)) (length q))

  abbrev pub settle : S → Str → ℕ → ℕ → Outcome (Reaction S)
  settle s q depth depth_max =
      if depth == 0
      then (if depth_max == 0
          then returns (s, record { text = q; depth = depth; depth_max = depth_max }, continues, [])
          else hand_over s q)
      else returns (s, record { text = q; depth = depth; depth_max = depth_max }, continues, [])

  -- What a session does with the next bytes.
  abbrev pub react : S → View → Str → Outcome (Reaction S)
  react s v xs =
      if leb (length v.text + length xs) n
      then (if null xs
          then returns (s, v, continues, [])
          else (let r = scan xs v.depth v.depth_max in
              if r.valid
              then settle s (v.text ++ xs) r.depth r.depth_max
              else returns (s, fresh, aborts, [])))
      else returns (s, fresh, aborts, [])

module _ {ℓ} {S : Type ℓ} where
  abbrev pub viewed : Answer S → Reaction S
  viewed a = (a.0, view a.1, a.2, a.3)

  -- The session that a call leaves is open, with the same bound and id.
  abbrev pub StaysOpen : ℕ → ℕ → Outcome (Answer S) → Type 0
  StaysOpen n id (returns a) = IsOpen a.1 × (bound a.1.buffer ≡ n) × (a.1.id ≡ id)
  StaysOpen n id terminates = Unit
  StaysOpen n id undefined = Unit

  abbrev pub Implements : ℕ → ℕ → Outcome (Answer S) → Outcome (Reaction S) → Type ℓ
  Implements n id o r = (map_outcome viewed o ≡ r) × StaysOpen n id o
