-- ===== src/Condition/Wakeups.antt =====
-- No signal is lost, and a signal that resets itself releases one thread.
use kexplorer_server.Prelude.{
  ℕ, zero, suc, ◌+◌, ◌≤◌, ◌<◌, ◌≡◌, refl, Bool, true, false, List, [], ◌∷◌, if◌then◌else◌, arith,
}
use kexplorer_server.Condition.{
  Condition, create_condition, set_signal, wake, notify_from, notify, reset_signal, pass,
  enter_wait, recheck_from, recheck, stir_from, stir, expire_from, expire, Op, apply, run_ops,
}

abbrev pub one_if : Bool → ℕ
one_if b = if b then 1 else 0

-- While the signal is set and threads are asleep, a notification is still to come or, where one thread is
-- notified, a thread has been woken up; and no more threads pass than signals were given, if the
-- signal resets itself.
pub record Live (c : Condition) : Type 0 where
  pub awaited :
      c.signaled ≡ true → 0 < c.asleep → 0 < c.notifying + (if c.auto_reset then c.awake else 0)
  pub counted : c.auto_reset ≡ true → c.released + one_if c.signaled ≤ c.signals

notify-Live :
    (b : Bool) (m n : ℕ) (c : Condition)
    → c.auto_reset ≡ b
    → c.asleep ≡ m
    → Live c
    → Live (wake b m (record c { notifying = n }))
notify-Live true zero n c b m l = record {
  awaited = λ s a. absurd (omega (arith, a, m));
  counted = l.counted;
}
notify-Live false zero n c b m l = record {
  awaited = λ s a. absurd (omega (arith, a, m));
  counted = l.counted;
}
notify-Live true (suc k) n c b m l = record {
  awaited = λ s a. rw b (omega arith);
  counted = l.counted;
}
notify-Live false (suc k) n c b m l = record {
  awaited = λ s a. absurd (omega (arith, a));
  counted = l.counted;
}

notify_from-Live : (n : ℕ) (c : Condition) → Live c → Live (notify_from n c)
notify_from-Live zero c l = l
notify_from-Live (suc n) c l = notify-Live c.auto_reset c.asleep n c refl refl l

pass-Live : (c : Condition) → Live c → c.signaled ≡ true → Live (pass c)
unfolding pass
pass-Live c l s = record {
  awaited = λ t a. ground (arith, l.awaited s, t, s);
  counted = λ r. ground (arith, l.counted r, r, s);
}

either-Live :
    (b : Bool) {x y : Condition}
    → (b ≡ true → Live x)
    → (b ≡ false → Live y)
    → Live (if b then x else y)
either-Live true f g = f refl
either-Live false f g = g refl

enter_wait-Live : (c : Condition) → Live c → Live (enter_wait c)
unfolding enter_wait
enter_wait-Live c l =
    either-Live c.signaled (pass-Live c l)
      (λ absent. record { awaited = λ s a. cc; counted = l.counted })

recheck_from-Live : (n : ℕ) (c : Condition) → c.awake ≡ n → Live c → Live (recheck_from n c)
recheck_from-Live zero c e l = l
recheck_from-Live (suc n) c e l =
    either-Live c.signaled
      (λ there. record {
        awaited = λ s a. ground (arith, l.awaited there, there, s);
        counted = λ r. ground (arith, l.counted r, there, r);
      })
      (λ absent. record { awaited = λ s a. cc; counted = l.counted })

stir_from-Live : (n : ℕ) (c : Condition) → c.asleep ≡ n → Live c → Live (stir_from n c)
stir_from-Live zero c e l = l
stir_from-Live (suc n) c e l = record {
  awaited = λ s a. ground (arith, l.awaited s, e);
  counted = l.counted;
}

expire_from-Live : (n : ℕ) (c : Condition) → c.asleep ≡ n → Live c → Live (expire_from n c)
expire_from-Live zero c e l = l
expire_from-Live (suc n) c e l =
    either-Live c.signaled
      (λ there. record {
        awaited = λ s a. ground (arith, l.awaited there, there, s);
        counted = λ r. ground (arith, l.counted r, there, r);
      })
      (λ absent. record { awaited = λ s a. cc; counted = l.counted })

apply-Live : (op : Op) (c : Condition) → Live c → Live (apply op c)
unfolding apply set_signal notify reset_signal recheck stir expire
apply-Live Op.sets c l = record {
  awaited = λ s a. omega arith;
  counted = λ r. ground (arith, l.counted r);
}
apply-Live Op.notifies c l = notify_from-Live c.notifying c l
apply-Live Op.resets c l = record {
  awaited = λ s a. let wrong : false ≡ true = s in cc;
  counted = λ r. ground (arith, l.counted r);
}
apply-Live Op.waits c l = enter_wait-Live c l
apply-Live Op.rechecks c l = recheck_from-Live c.awake c refl l
apply-Live Op.stirs c l = stir_from-Live c.asleep c refl l
apply-Live Op.expires c l = expire_from-Live c.asleep c refl l

create-Live : (auto_reset signaled : Bool) → Live (create_condition auto_reset signaled)
unfolding create_condition
create-Live auto_reset signaled = record {
  awaited = λ s a. absurd (omega (arith, a));
  counted = λ r. ground arith;
}

run_ops-Live : (ops : List Op) (c : Condition) → Live c → Live (run_ops c ops)
unfolding run_ops
run_ops-Live [] c l = l
run_ops-Live (op ∷ ops) c l = run_ops-Live ops (apply op c) (apply-Live op c l)

-- After any sequence of steps of any number of threads, if the signal is set and threads are
-- asleep, a notification is still to come or, where one thread is notified, a thread has been
-- woken up; and if the signal resets itself, no more waits have passed than signals were given.
pub no_lost_signal :
    (auto_reset signaled : Bool) (ops : List Op)
    → Live (run_ops (create_condition auto_reset signaled) ops)
no_lost_signal auto_reset signaled ops =
    run_ops-Live ops (create_condition auto_reset signaled) (create-Live auto_reset signaled)
