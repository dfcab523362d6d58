-- ===== src/Tests/Buffers.antt =====
-- A buffer of two bytes that may grow to four.
use kexplorer_server.Prelude.{◌≡◌, refl, List, [], ◌∷◌, true, false, arith}
use kexplorer_server.Prelude.Text.{codes}
use kexplorer_server.Buffer.{ContinuousBuffer, create, push, pop, reset, shift, enlarge, append}
use kexplorer_server.ReadBuffer.{create_buffers, fill, deliver}
use kexplorer_server.ReadBuffer.Handed.{AllShort, deliver-create}
use kexplorer_server.Buffer.Inv.{IsValid, contents}
use kexplorer_server.Buffer.Push.{bound}
use kexplorer_server.Buffer.Refine.{
  Op, pushes, pops, resets, pushed, popped, done, run, run_queue, create-IsValid, run_refines,
}

abbrev pub small : ContinuousBuffer
small = create 2 4

pub small-IsValid : IsValid small
small-IsValid = create-IsValid 2 4 (omega arith) (omega arith)

-- Grow, refuse, pop, shift, and reset.
abbrev history : List Op
history = pushes (codes "abc") ∷ pushes (codes "de") ∷ pops 2 ∷ pushes (codes "de") ∷ resets ∷ []

history_lem :
    run small history
    ≡ (pushed true, codes "abc")
      ∷ (pushed false, codes "abc")
      ∷ (popped 2, codes "c")
      ∷ (pushed true, codes "cde")
      ∷ (done, [])
      ∷ []
unfolding run create push pop reset shift enlarge append
history_lem = refl

run_refines_example : run small history ≡ run_queue (bound small) (contents small) history
run_refines_example =
    run_refines history small-IsValid (omega arith, (omega arith, (omega arith, tt)))

deliver-create_example :
    deliver (codes "ab" ∷ codes "c" ∷ []) (fill (codes "ab") (create_buffers 4))
    ≡ codes "ab" ∷ codes "c" ∷ []
deliver-create_example =
    deliver-create 4 (codes "ab" ∷ codes "c" ∷ [])
      (AllShort.cons (omega arith) (AllShort.cons (omega arith) AllShort.nil))
