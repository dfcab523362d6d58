-- ===== src/Server/Leaks.antt =====
-- There is a handler for each session that the server holds, and for no other.
use kexplorer_server.Prelude.{
  ℕ, ◌^◌, ◌<◌, ◌≡◌, refl, ap, sym, ◌∙◌, subst, Bool, true, false, none, List, [], ◌∷◌, ◌++◌, ◌==◌,
  ==_iff, ◌⊎◌, inl, inr, Bool-cases, arith,
}
use kexplorer_server.Prelude.Map.{nat_eq, find, find-erase}
use kexplorer_server.Prelude.Outcome.{returns}
use kexplorer_server.TcpServer.{TcpServer, has_session, remove_session, Reach}
use kexplorer_server.TcpServer.Handling.{Keeping, Reach-Holds}
use kexplorer_server.TcpServer.Destroy.{close_all, end_all, destroy}
use kexplorer_server.Server.{
  IRequestProcessor, SessionHandlerOptions, Live, open_handler, destroy_handler, session_handlers,
}
use kexplorer_server.Server.Sessions.{Ready, process_bytes-others, Reach-Ready}

-- Who has a handler has a session.
abbrev pub NoLeak {ℓ} : {P : Type ℓ} → Live P → List ℕ → Type 0
NoLeak s ids = (k : ℕ) → has_session k ids ≡ false → find k s.sessions ≡ none

has-append_not :
    (k id : ℕ) (ids : List ℕ)
    → has_session k (ids ++ (id ∷ [])) ≡ false
    → (has_session k ids ≡ false) × ((id == k) ≡ false)
unfolding has_session
has-append_not k id [] h = (refl, ground (arith, h))
has-append_not k id (i ∷ ids) h = ground (arith, has-append_not k id ids)

has-remove_not :
    (k id : ℕ) (ids : List ℕ)
    → (id == k) ≡ false
    → has_session k (remove_session id ids) ≡ false
    → has_session k ids ≡ false
unfolding has_session remove_session
has-remove_not k id [] other h = h
has-remove_not k id (i ∷ ids) other h = ground (arith, has-remove_not k id ids)

remove-head : (id : ℕ) (ids : List ℕ) → remove_session id (id ∷ ids) ≡ ids
unfolding remove_session
remove-head id ids = rw ((==_iff id id).1 refl) refl

close_connected :
    (connected : ℕ → Bool) (ids : List ℕ)
    → ((id : ℕ) → has_session id ids ≡ true → connected id ≡ true)
    → close_all connected ids ≡ true
unfolding close_all has_session
close_connected connected [] all = refl
close_connected connected (id ∷ ids) all =
    let first : connected id ≡ true = all id (rw ((==_iff id id).1 refl) refl) in
    let others : (k : ℕ) → has_session k ids ≡ true → connected k ≡ true = λ k there.
      all k
        (elim (Bool-cases (id == k)) [ inl same ↦ rw same refl | inr other ↦ rw other there ]) in
    rw first (close_connected connected ids others)

module _ {ℓ} {P : Type ℓ} (rp : IRequestProcessor P) (options : SessionHandlerOptions) where
  opens-NoLeak :
      (s : Live P) (ids : List ℕ) (id : ℕ)
      → NoLeak s ids
      → NoLeak (open_handler rp options s id) (ids ++ (id ∷ []))
  unfolding open_handler find
  opens-NoLeak s ids id n k gone =
      let (before, other) = has-append_not k id ids gone in rw other (n k before)

  ends-NoLeak :
      (s : Live P) (ids : List ℕ) (id : ℕ)
      → NoLeak s ids
      → NoLeak (destroy_handler rp options s id) (remove_session id ids)
  unfolding destroy_handler
  ends-NoLeak s ids id n k gone = find-erase id k s.sessions ∙ elim (Bool-cases (id == k)) [
    | inl same ↦ rw same refl
    | inr other ↦ rw other (n k (has-remove_not k id ids other gone))
  ]

  other_of :
      (id k : ℕ) (ids : List ℕ)
      → has_session id ids ≡ true
      → has_session k ids ≡ false
      → (id == k) ≡ false
  other_of id k ids there gone = elim (Bool-cases (id == k)) [
    | inr other ↦ other
    | inl same ↦
        let wrong : true ≡ false =
          sym there ∙ ap (λ i. has_session i ids) ((==_iff id k).0 same) ∙ gone in
        cc
  ]

  handlers-Keeping : (size : ℕ) → Keeping (session_handlers rp options) size NoLeak
  unfolding session_handlers
  handlers-Keeping size = record {
    opens = λ s ids id new n. opens-NoLeak s ids id n;
    processes = λ s ids id xs there short e n k gone.
        process_bytes-others rp options s id k xs (other_of id k ids there gone) e ∙ n k gone;
    ends = λ s ids id once n. ends-NoLeak s ids id n;
  }

  pub Reach-NoLeak :
      (size : ℕ) (p : P) (n : ℕ) (s : TcpServer (Live P))
      → n < 2 ^ 32
      → Reach (session_handlers rp options) size (record { processor = p; sessions = [] }) n s
      → NoLeak s.handlers s.sessions
  unfolding find
  Reach-NoLeak size p n s few r =
      (Reach-Holds (session_handlers rp options) size NoLeak (handlers-Keeping size) _ n s
        (λ k gone. refl) few r).held

  -- With sizes below 2^62, in every state that the server reaches in less than 2^32 completions
  -- from one without sessions, each session that it holds has a handler with the id and an open
  -- buffer that is bounded as the options say, and no other id has a handler.
  pub handlers_held :
      (size : ℕ) (p : P) (n : ℕ) (s : TcpServer (Live P)) (id : ℕ)
      → options.buffer_size < 2 ^ 62
      → options.buffer_limit < 2 ^ 62
      → size < 2 ^ 62
      → n < 2 ^ 32
      → Reach (session_handlers rp options) size (record { processor = p; sessions = [] }) n s
      → ((has_session id s.sessions ≡ true) × Ready options s.handlers id)
        ⊎ ((has_session id s.sessions ≡ false) × (find id s.handlers.sessions ≡ none))
  handlers_held size p n s id small limited below few r =
      elim (Bool-cases (has_session id s.sessions)) [
        | inl there ↦
            inl (there, (Reach-Ready rp options small limited size _ n s below few r).held id there)
        | inr gone ↦ inr (gone, Reach-NoLeak size p n s few r id gone)
      ]

  end_all-NoLeak :
      (ids : List ℕ) (s : Live P)
      → NoLeak s ids
      → NoLeak (end_all (session_handlers rp options) ids s) []
  unfolding end_all session_handlers
  end_all-NoLeak [] s n = n
  end_all-NoLeak (id ∷ ids) s n = end_all-NoLeak ids (destroy_handler rp options s id) (
      subst (NoLeak (destroy_handler rp options s id)) (remove-head id ids)
        (ends-NoLeak s (id ∷ ids) id n))

  -- In every state that the server reaches in less than 2^32 completions from one without
  -- sessions, its destructor comes back if the sockets of all sessions that it holds are
  -- connected, and leaves no handler.
  pub destroyed :
      (size : ℕ) (p : P) (n : ℕ) (s : TcpServer (Live P)) (connected : ℕ → Bool)
      → n < 2 ^ 32
      → Reach (session_handlers rp options) size (record { processor = p; sessions = [] }) n s
      → ((id : ℕ) → has_session id s.sessions ≡ true → connected id ≡ true)
      → (left : Live P) × (destroy (session_handlers rp options) connected s ≡ returns left)
        × ((id : ℕ) → find id left.sessions ≡ none)
  unfolding destroy has_session
  destroyed size p n s connected few r all = (
    end_all (session_handlers rp options) s.sessions s.handlers,
    rw (close_connected connected s.sessions all, destroy) refl,
    λ id. end_all-NoLeak s.sessions s.handlers (Reach-NoLeak size p n s few r) id refl,
  )
