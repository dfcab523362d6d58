-- ===== src/Handlers/Commands/Laws.antt =====
-- The server's handlers with its request processor: registration, and the commands "stop" and
-- "version".
use kexplorer_server.Prelude.{ℕ, ◌+◌, ◌-◌, ◌≡◌, List, [], ◌∷◌, arith}
use kexplorer_server.Prelude.Text.{Str}
use kexplorer_server.Requests.{RequestProcessor, register_handler, unregister_handler}
use kexplorer_server.Requests.Laws.{times}
use kexplorer_server.Requests.Registration.{Arranges, hits, times_registered}
use kexplorer_server.Handlers.Commands.{register_commands, unregister_commands}

-- How many of the commands name the entry.
unfoldable pub all_hits : Str → ℕ → List Str → ℕ → ℕ
all_hits k h [] i = 0
all_hits k h (j ∷ js) i = hits k h j i + all_hits k h js i

times-register_commands :
    (arrange : List (Str × ℕ) → List (Str × ℕ)) (kept : Arranges arrange) (ks : List Str)
    (rp : RequestProcessor) (k : Str) (h i : ℕ)
    → times k h (register_commands arrange ks rp i).handlers
      ≡ times k h rp.handlers + all_hits k h ks i
unfolding register_commands all_hits
times-register_commands arrange kept [] rp k h i = omega arith
times-register_commands arrange kept (j ∷ js) rp k h i = omega (
  arith,
  times-register_commands arrange kept js (register_handler arrange rp j i) k h i,
  (times_registered arrange kept rp k j h i).0,
)

times-unregister_commands :
    (arrange : List (Str × ℕ) → List (Str × ℕ)) (kept : Arranges arrange) (ks : List Str)
    (rp : RequestProcessor) (k : Str) (h i : ℕ)
    → times k h (unregister_commands ks rp i).handlers ≡ times k h rp.handlers - all_hits k h ks i
unfolding unregister_commands all_hits
times-unregister_commands arrange kept [] rp k h i = omega arith
times-unregister_commands arrange kept (j ∷ js) rp k h i = omega (
  arith,
  times-unregister_commands arrange kept js (unregister_handler rp j i) k h i,
  (times_registered arrange kept rp k j h i).1,
)

-- A handler that registers its commands and unregisters them leaves each entry of the multimap as
-- often as it was there.
pub times_constructed :
    (arrange : List (Str × ℕ) → List (Str × ℕ)) (kept : Arranges arrange) (ks : List Str)
    (rp : RequestProcessor) (i : ℕ) (k : Str) (h : ℕ)
    → times k h (unregister_commands ks (register_commands arrange ks rp i) i).handlers
      ≡ times k h rp.handlers
times_constructed arrange kept ks rp i k h = omega (
  arith,
  times-unregister_commands arrange kept ks (register_commands arrange ks rp i) k h i,
  times-register_commands arrange kept ks rp k h i,
)
