-- ===== src/Server/Sessions.antt =====
-- Each session that the server holds has an open handler.
use kexplorer_server.Prelude.{
  List, true, ℕ, ◌^◌, ◌<◌, ◌≡◌, refl, sym, ◌∙◌, ap, subst, false, none, some, ◌==◌, ==_iff,
  if◌then◌else◌, max, length, arith, length-replicate, Option-cases, Bool-cases, inl, inr,
}
use kexplorer_server.Prelude.Map.{nat_eq, find, replace, find-erase, find-replace}
use kexplorer_server.Prelude.Outcome.{
  returns, undefined, map_outcome, map_outcome-returns, undefined-ne-returns,
}
use kexplorer_server.Prelude.Text.{Str}
use kexplorer_server.Buffer.{create}
use kexplorer_server.Buffer.Push.{bound}
use kexplorer_server.Buffer.Refine.{create-IsValid}
use kexplorer_server.Session.{SessionHandler, CallbackResult, open_session, process}
use kexplorer_server.Session.Spec.{IsOpen, StaysOpen}
use kexplorer_server.Session.Refine.{process-Implements}
use kexplorer_server.TcpServer.{TcpServer, has_session, Reach}
use kexplorer_server.TcpServer.Ops.{has-append, has-remove_session, removed_other}
use kexplorer_server.TcpServer.Handling.{Keeping, Holds, Reach-Holds}
use kexplorer_server.Server.{
  IRequestProcessor, SessionHandlerOptions, Live, store, open_handler, process_bytes,
  destroy_handler, session_handlers,
}

-- The handler of a session, its buffer bounded as the options say.
pub record Ready {ℓ} {P : Type ℓ} (options : SessionHandlerOptions) (s : Live P) (id : ℕ)
    : Type 0 where
  pub handler : SessionHandler
  pub found : find id s.sessions ≡ some handler
  pub is_open : IsOpen handler
  pub bounded : bound handler.buffer ≡ max options.buffer_size options.buffer_limit
  pub same : handler.id ≡ id

abbrev pub EachReady {ℓ} : {P : Type ℓ} → SessionHandlerOptions → Live P → List ℕ → Type 0
EachReady options s ids = (k : ℕ) → has_session k ids ≡ true → Ready options s k

module _ {ℓ} {P : Type ℓ} (rp : IRequestProcessor P) (options : SessionHandlerOptions) where
  pub process_bytes-found :
      (s : Live P) (id : ℕ) (xs : Str) {h : SessionHandler}
      → find id s.sessions ≡ some h
      → process_bytes rp options s id xs
        ≡ map_outcome (store s id) (process rp.process s.processor h xs)
  unfolding process_bytes
  process_bytes-found s id xs f = rw (f, process_bytes)

  pub find_stored :
      (s : Live P) (id k : ℕ) (h' : SessionHandler) {h : SessionHandler}
      → find id s.sessions ≡ some h
      → find k (replace id h' s.sessions) ≡ (if id == k then some h' else find k s.sessions)
  find_stored s id k h' f = find-replace id k h' s.sessions ∙ rw f refl

  process_bytes-missing :
      (s : Live P) (id : ℕ) (xs : Str)
      → find id s.sessions ≡ none
      → process_bytes rp options s id xs ≡ undefined
  unfolding process_bytes
  process_bytes-missing s id xs f = rw (f, process_bytes)

  pub process_bytes-others :
      (s : Live P) (id k : ℕ) (xs : Str) {s' : Live P} {r : CallbackResult} {text : Str}
      → (id == k) ≡ false
      → process_bytes rp options s id xs ≡ returns (s', r, text)
      → find k s'.sessions ≡ find k s.sessions
  unfolding store
  process_bytes-others s id k xs {s'} {r} {text} other e =
      elim (Option-cases (find id s.sessions)) [
        | inl gone ↦ absurd (undefined-ne-returns (sym (process_bytes-missing s id xs gone) ∙ e))
        | inr (h, found) ↦
            let (a, done, left) =
              map_outcome-returns (store s id) _ (sym (process_bytes-found s id xs found) ∙ e) in
            sym (ap (λ t. find k t.0.sessions) left) ∙ find_stored s id k a.1 found ∙ rw other refl
      ]

  module _ (small : options.buffer_size < 2 ^ 62) (limited : options.buffer_limit < 2 ^ 62) where
    opened-Ready : (s : Live P) (id : ℕ) → Ready options (open_handler rp options s id) id
    unfolding open_handler open_session create find
    opened-Ready s id = record {
      handler = open_session options.buffer_size options.buffer_limit id;
      found = rw ((==_iff id id).1 refl) refl;
      is_open = record {
        valid = create-IsValid options.buffer_size options.buffer_limit small limited;
        ordered = omega arith;
        counted = omega arith;
      };
      bounded =
          ap (λ n. max n options.buffer_limit) (length-replicate {A = ℕ} options.buffer_size 0);
      same = refl;
    }

    opens-Ready :
        (s : Live P) (id k : ℕ)
        → (id == k) ≡ false
        → Ready options s k
        → Ready options (open_handler rp options s id) k
    unfolding open_handler find
    opens-Ready s id k other r = record {
      handler = r.handler;
      found = rw other r.found;
      is_open = r.is_open;
      bounded = r.bounded;
      same = r.same;
    }

    ends-Ready :
        (s : Live P) (id k : ℕ)
        → (id == k) ≡ false
        → Ready options s k
        → Ready options (destroy_handler rp options s id) k
    unfolding destroy_handler
    ends-Ready s id k other r = record {
      handler = r.handler;
      found = find-erase id k s.sessions ∙ rw other r.found;
      is_open = r.is_open;
      bounded = r.bounded;
      same = r.same;
    }

    processes-Ready :
        (s : Live P) (id k : ℕ) (xs : Str) {s' : Live P} {r : CallbackResult} {text : Str}
        → length xs < 2 ^ 62
        → process_bytes rp options s id xs ≡ returns (s', r, text)
        → Ready options s id
        → Ready options s k
        → Ready options s' k
    unfolding store
    processes-Ready s id k xs short e own r =
        let (a, done, left) =
          map_outcome-returns (store s id) _ (sym (process_bytes-found s id xs own.found) ∙ e) in
        let (still, same_bound, same_id) =
          subst (StaysOpen (bound own.handler.buffer) own.handler.id) done
            (process-Implements rp.process s.processor xs own.is_open short).1 in
        subst (λ (t : Live P). Ready options t k) (ap (λ t. t.0) left)
          (elim (Bool-cases (id == k)) [
            | inl same ↦ record {
              handler = a.1;
              found = find_stored s id k a.1 own.found ∙ rw same refl;
              is_open = still;
              bounded = same_bound ∙ own.bounded;
              same = same_id ∙ own.same ∙ (==_iff id k).0 same;
            }
            | inr other ↦ record {
              handler = r.handler;
              found = find_stored s id k a.1 own.found ∙ rw other r.found;
              is_open = r.is_open;
              bounded = r.bounded;
              same = r.same;
            }
          ])

    handlers-Keeping :
        (size : ℕ) → size < 2 ^ 62 → Keeping (session_handlers rp options) size (EachReady options)
    unfolding session_handlers
    handlers-Keeping size below = record {
      opens = λ s ids id new each k there. elim (Bool-cases (id == k)) [
        | inl same ↦
            subst (Ready options (open_handler rp options s id)) ((==_iff id k).0 same)
              (opened-Ready s id)
        | inr other ↦ elim (has-append k id ids there) [
          | inl before ↦ opens-Ready s id k other (each k before)
          | inr e ↦ let wrong : (id == k) ≡ true = (==_iff id k).1 e in absurd (ground arith)
        ]
      ];
      processes = λ s ids id xs there short e each k held.
          processes-Ready s id k xs (omega arith) e (each id there) (each k held);
      ends = λ s ids id once each k there.
          ends-Ready s id k (removed_other k id ids once there)
            (each k (has-remove_session k id ids there));
    }

    pub Reach-Ready :
        (size : ℕ) (live : Live P) (n : ℕ) (s : TcpServer (Live P))
        → size < 2 ^ 62
        → n < 2 ^ 32
        → Reach (session_handlers rp options) size live n s
        → Holds (session_handlers rp options) size (EachReady options) s
    unfolding has_session
    Reach-Ready size live n s below few r =
        Reach-Holds (session_handlers rp options) size (EachReady options)
          (handlers-Keeping size below) live n s (λ k there. let wrong : false ≡ true = there in cc)
          few r
