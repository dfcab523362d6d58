-- ===== src/Tests/Signals.antt =====
-- A signal that resets itself, with two threads.
use kexplorer_server.Prelude.{true, false, List, [], ◌∷◌}
use kexplorer_server.Condition.{create_condition, Op, run_ops}
use kexplorer_server.Condition.Wakeups.{Live, no_lost_signal}

abbrev two_waits : List Op
two_waits =
    Op.waits ∷ Op.waits ∷ Op.sets ∷ Op.notifies ∷ Op.rechecks ∷ Op.stirs ∷ Op.rechecks ∷ Op.expires
    ∷ []

no_lost_signal_example : Live (run_ops (create_condition true false) two_waits)
no_lost_signal_example = no_lost_signal true false two_waits
