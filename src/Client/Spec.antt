-- ===== src/Client/Spec.antt =====
-- The abstract receiver of a response, and what it is for a client to implement it.
use kexplorer_server.Prelude.{
  ℕ, ◌+◌, ◌≤◌, ◌≡◌, Bool, true, false, [], ◌∷◌, ◌++◌, List, length, leb, null, if◌then◌else◌, ◌==◌,
}
use kexplorer_server.Prelude.Text.{Str}
use kexplorer_server.Buffer.Inv.{IsValid, contents}
use kexplorer_server.Buffer.Push.{bound}
use kexplorer_server.Session.{scan}
use kexplorer_server.Session.Spec.{View, fresh}
use kexplorer_server.Client.{Client, Output}

-- The counters never pass the number of bytes held, so they cannot wrap.
pub record IsOpen (c : Client) : Type 0 where
  pub valid : IsValid c.buffer
  pub ordered : c.json_depth ≤ c.json_depth_max
  pub counted : c.json_depth_max ≤ c.buffer.used

abbrev pub view : Client → View
view c = record { text = contents c.buffer; depth = c.json_depth; depth_max = c.json_depth_max }

-- What is left, what is said, and whether the response is over.
abbrev pub Reaction : Type 0
Reaction = View × List Output × Bool

abbrev pub settle : View → Reaction
settle v =
    if v.depth == 0
    then (if v.depth_max == 0 then (v, [], false) else (fresh, Output.printed v.text ∷ [], true))
    else (v, [], false)

-- What a receiver that holds `n` bytes at most does with the next bytes.
abbrev pub react : ℕ → View → Str → Reaction
react n v xs =
    if leb (length v.text + length xs) n
    then (if null xs
        then (v, [], false)
        else (let r = scan xs v.depth v.depth_max in
            let v' : View = record {
              text = v.text ++ xs;
              depth = r.depth;
              depth_max = r.depth_max;
            } in
            if r.valid then settle v' else (v', Output.response_failed ∷ [], true)))
    else (v, Output.response_failed ∷ [], true)

-- An answer is what the abstract receiver does, and the client stays open with the same bound.
pub record Receives (n : ℕ) (out : List Output) (a : Client × Bool) (r : Reaction) : Type 0 where
  pub left : view a.0 ≡ r.0
  pub said : a.0.out ≡ out ++ r.1
  pub over : a.1 ≡ r.2
  pub stays : IsOpen a.0
  pub same : bound a.0.buffer ≡ n
