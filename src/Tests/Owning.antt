-- ===== src/Tests/Owning.antt =====
-- Two owners of pointers, of which one takes over from the other.
use kexplorer_server.Prelude.{◌≡◌, [], ◌∷◌, arith}
use kexplorer_server.AutoPtr.{Owners, construct, move_assign, reset_handle, destroy_owners}
use kexplorer_server.AutoPtr.Ownership.{Call, History, count, deleted-History}
use kexplorer_server.AutoPtr.Handles.{HandleHistory, closed-HandleHistory}

abbrev nobody : Owners
nobody = record { slots = []; deleted = [] }

-- The pointer 8 takes the place of 7, which is deleted.
abbrev taken_over : Owners
taken_over = record { slots = 8 ∷ 0 ∷ []; deleted = 7 ∷ [] }

life : History nobody (8 ∷ 7 ∷ []) taken_over
unfolding construct move_assign
life = History.then_call (Call.constructs 8) tt (
    History.then_call (Call.constructs 7) tt
      (History.then_call (Call.move_assigns 0 1) (omega arith, omega arith) History.done))

deleted-History_example : count 7 (destroy_owners taken_over).deleted ≡ count 7 (8 ∷ 7 ∷ [])
deleted-History_example = deleted-History 7 (omega arith) life

-- The handle 5 is given to an empty owner and lost, 6 is kept.
abbrev reset_twice : Owners
reset_twice = record { slots = 6 ∷ 0 ∷ []; deleted = 4 ∷ [] }

handle_life : HandleHistory nobody (0 ∷ 4 ∷ 6 ∷ []) reset_twice
unfolding construct reset_handle
handle_life = HandleHistory.then_call (Call.constructs 0) tt (
    HandleHistory.then_call (Call.resets 0 5) (omega arith) (
      HandleHistory.then_call (Call.constructs 4) tt
        (HandleHistory.then_call (Call.resets 0 6) (omega arith) HandleHistory.done)))

closed-HandleHistory_example :
    count 4 (destroy_owners reset_twice).deleted ≡ count 4 (0 ∷ 4 ∷ 6 ∷ [])
closed-HandleHistory_example = closed-HandleHistory 4 (omega arith) handle_life
