-- ===== src/Condition.antt =====
-- include/kesrv/condition.hxx: a condition variable with a state. Its methods are cut at the points
-- where the mutex is free, and any number of threads call them in any order.
pub mod Wakeups
use kexplorer_server.Prelude.{
  ℕ, zero, suc, ◌+◌, Bool, true, false, not, ◌&&◌, List, [], ◌∷◌, if◌then◌else◌,
}

-- The members, with the threads in `m_cv.wait`: asleep or woken up; the calls of `set` that have still
-- to notify; and how many calls of `wait` have found the signal, and how often it was set.
pub record Condition : Type 0 where
  pub signaled : Bool
  pub auto_reset : Bool
  pub asleep : ℕ
  pub awake : ℕ
  pub notifying : ℕ
  pub released : ℕ
  pub signals : ℕ

-- The constructor.
unfoldable pub create_condition : Bool → Bool → Condition
create_condition auto_reset signaled = record {
  signaled = signaled;
  auto_reset = auto_reset;
  asleep = 0;
  awake = 0;
  notifying = 0;
  released = 0;
  signals = if signaled then 1 else 0;
}

-- The block of `set` under the mutex.
unfoldable pub set_signal : Condition → Condition
set_signal c = record c { signaled = true; notifying = c.notifying + 1; signals = c.signals + 1 }

-- The notification of `set`: one thread, or all.
abbrev pub wake : Bool → ℕ → Condition → Condition
wake auto_reset zero c = c
wake true (suc n) c = record c { asleep = n; awake = c.awake + 1 }
wake false (suc n) c = record c { asleep = 0; awake = c.awake + suc n }

abbrev pub notify_from : ℕ → Condition → Condition
notify_from zero c = c
notify_from (suc n) c = wake c.auto_reset c.asleep (record c { notifying = n })

unfoldable pub notify : Condition → Condition
notify c = notify_from c.notifying c

unfoldable pub reset_signal : Condition → Condition
reset_signal c = record c { signaled = false }

-- What follows a wait that has found the signal.
unfoldable pub pass : Condition → Condition
pass c = record c { signaled = c.signaled && not c.auto_reset; released = c.released + 1 }

-- A thread that calls `wait`.
unfoldable pub enter_wait : Condition → Condition
unfolding pass
enter_wait c = if c.signaled then pass c else record c { asleep = c.asleep + 1 }

abbrev pub recheck_from : ℕ → Condition → Condition
recheck_from zero c = c
recheck_from (suc n) c =
    if c.signaled
    then record c { awake = n; signaled = not c.auto_reset; released = c.released + 1 }
    else record c { awake = n; asleep = c.asleep + 1 }

-- A thread that was woken up tests the predicate.
unfoldable pub recheck : Condition → Condition
recheck c = recheck_from c.awake c

abbrev pub stir_from : ℕ → Condition → Condition
stir_from zero c = c
stir_from (suc n) c = record c { asleep = n; awake = c.awake + 1 }

-- A thread wakes up though nobody notified it.
unfoldable pub stir : Condition → Condition
stir c = stir_from c.asleep c

abbrev pub expire_from : ℕ → Condition → Condition
expire_from zero c = c
expire_from (suc n) c =
    if c.signaled
    then record c { asleep = n; signaled = not c.auto_reset; released = c.released + 1 }
    else record c { asleep = n }

-- The time of a thread in `wait(duration)` is over; it tests the predicate once more, and resets the
-- signal either way.
unfoldable pub expire : Condition → Condition
expire c = expire_from c.asleep c

pub data Op : Type 0 where
  sets notifies resets waits rechecks stirs expires : Op

unfoldable pub apply : Op → Condition → Condition
unfolding set_signal notify reset_signal enter_wait recheck stir expire
apply Op.sets c = set_signal c
apply Op.notifies c = notify c
apply Op.resets c = reset_signal c
apply Op.waits c = enter_wait c
apply Op.rechecks c = recheck c
apply Op.stirs c = stir c
apply Op.expires c = expire c

-- Steps of all threads, interleaved.
unfoldable pub run_ops : Condition → List Op → Condition
unfolding apply
run_ops c [] = c
run_ops c (op ∷ ops) = run_ops (apply op c) ops
