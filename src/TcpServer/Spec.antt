-- ===== src/TcpServer/Spec.antt =====
-- The invariant of the server, and what of it holds while a handler runs.
use kexplorer_server.Prelude.{ℕ, ◌+◌, ◌≤◌, ◌≡◌, false, Option, some, List, [], ◌∷◌, arith}
use kexplorer_server.Prelude.Outcome.{Outcome, returns, terminates, undefined}
use kexplorer_server.Prelude.Text.{Str}
use kexplorer_server.TcpServer.Ops.{ops, times, ops_taken}
use kexplorer_server.TcpServer.{Pending, TcpServer, take_op, start_op, begin_write, accept}

pub record Inv {ℓ} {S : Type ℓ} (n : ℕ) (s : TcpServer S) : Type 0 where
  pub runs : s.stop ≡ false
  pub listens : ops Pending.accepting s.pending + ops Pending.retrying s.pending ≡ 1
  pub reads : (id : ℕ) → times id s.sessions ≤ ops (Pending.reading id) s.pending
  pub once : (id : ℕ) → ops (Pending.reading id) s.pending ≤ 1
  pub fresh : (id : ℕ) → s.next_id ≤ id → ops (Pending.reading id) s.pending ≡ 0
  pub ids : s.next_id ≤ n

module _ {ℓ} {S : Type ℓ} where
  -- What `Inv` becomes while the handler of a completed operation runs.
  pub record Between (n : ℕ) (p : Pending) (s : TcpServer S) : Type 0 where
    pub runs : s.stop ≡ false
    pub listens :
        ops Pending.accepting s.pending
          + ops Pending.retrying s.pending
          + (ops Pending.accepting (p ∷ []) + ops Pending.retrying (p ∷ []))
        ≡ 1
    pub reads :
        (id : ℕ)
        → times id s.sessions
          ≤ ops (Pending.reading id) s.pending + ops (Pending.reading id) (p ∷ [])
    pub once : (id : ℕ) → ops (Pending.reading id) s.pending + ops (Pending.reading id) (p ∷ []) ≤ 1
    pub fresh :
        (id : ℕ)
        → s.next_id ≤ id
        → ops (Pending.reading id) s.pending + ops (Pending.reading id) (p ∷ []) ≡ 0
    pub ids : s.next_id ≤ n

  pub Inv-Between :
      (n : ℕ) (p : Pending) (s : TcpServer S) {rest : List Pending}
      → Inv n s
      → take_op p s.pending ≡ some rest
      → Between n p (record s { pending = rest })
  Inv-Between n p s {rest} i t = record {
    runs = i.runs;
    listens = omega (
      arith,
      i.listens,
      ops_taken p Pending.accepting s.pending t,
      ops_taken p Pending.retrying s.pending t,
    );
    reads = λ id. omega (arith, i.reads id, ops_taken p (Pending.reading id) s.pending t);
    once = λ id. omega (arith, i.once id, ops_taken p (Pending.reading id) s.pending t);
    fresh =
        λ id below. omega (arith, i.fresh id below, ops_taken p (Pending.reading id) s.pending t);
    ids = i.ids;
  }

  -- What an outcome is to satisfy.
  abbrev pub Keeps : ℕ → Outcome (TcpServer S) → Type 0
  Keeps n (returns t) = Inv n t
  Keeps n terminates = Unit {0}
  Keeps n undefined = Unit {0}

  pub retry-Inv :
      (n : ℕ) (s : TcpServer S)
      → Between n Pending.accepting s
      → Inv (n + 1) (start_op Pending.retrying s)
  retry-Inv n s b = record {
    runs = b.runs;
    listens = omega (arith, b.listens);
    reads = λ id. omega (arith, b.reads id);
    once = λ id. omega (arith, b.once id);
    fresh = λ id below. omega (arith, b.fresh id below);
    ids = omega (arith, b.ids);
  }

  -- A handler that starts its own operation again leaves all as it was.
  pub again-Inv :
      (n : ℕ) (p : Pending) (s : TcpServer S) → Between n p s → Inv (n + 1) (start_op p s)
  again-Inv n p s b = record {
    runs = b.runs;
    listens = ground (arith, b.listens);
    reads = λ id. ground (arith, b.reads id);
    once = λ id. ground (arith, b.once id);
    fresh = λ id below. ground (arith, b.fresh id);
    ids = omega (arith, b.ids);
  }

  pub write-Inv :
      (n id : ℕ) (text : Str) (s : TcpServer S)
      → Between n (Pending.writing id text) s
      → Inv (n + 1) s
  write-Inv n id text s b = record {
    runs = b.runs;
    listens = omega (arith, b.listens);
    reads = λ k. omega (arith, b.reads k);
    once = λ k. omega (arith, b.once k);
    fresh = λ k below. omega (arith, b.fresh k below);
    ids = omega (arith, b.ids);
  }

  pub handlers-Inv :
      (n : ℕ) (s : TcpServer S) (handlers : S) → Inv n s → Inv n (record s { handlers = handlers })
  handlers-Inv n s handlers i = record {
    runs = i.runs;
    listens = i.listens;
    reads = i.reads;
    once = i.once;
    fresh = i.fresh;
    ids = i.ids;
  }

  pub begin_write-Inv :
      (n id : ℕ) (takes : Option ℕ) (text : Str) (s : TcpServer S)
      → Inv n s
      → Inv n (begin_write id takes text s)
  unfolding begin_write
  begin_write-Inv n id takes text s i = record {
    runs = i.runs;
    listens = i.listens;
    reads = i.reads;
    once = i.once;
    fresh = i.fresh;
    ids = i.ids;
  }

  pub listen-Inv : (n : ℕ) (s : TcpServer S) → Between n Pending.retrying s → Inv (n + 1) (accept s)
  unfolding accept
  listen-Inv n s b = record {
    runs = b.runs;
    listens = omega (arith, b.listens);
    reads = λ id. omega (arith, b.reads id);
    once = λ id. omega (arith, b.once id);
    fresh = λ id below. omega (arith, b.fresh id below);
    ids = omega (arith, b.ids);
  }
