-- ===== src/Prelude/Int.antt =====
-- Signed integers over the native numbers, under the library's names.
use Prim.Native.Nat.{ℕ}
use mathlib.Core.Path.{◌≡◌, ap}
use mathlib.Core.Logic.{◌↔◌}
use mathlib.Core.Bool.{Bool, true, false}
use kexplorer_server.Prelude.Tests.{◌==◌, ==_iff}

-- `negsuc n` is -(n + 1).
pub data ℤ : Type 0 where
  pos : ℕ → ℤ
  negsuc : ℕ → ℤ

abbrev pub eq_ℤ : ℤ → ℤ → Bool
eq_ℤ (pos a) (pos b) = a == b
eq_ℤ (negsuc a) (negsuc b) = a == b
eq_ℤ a b = false

magnitude : ℤ → ℕ
magnitude (pos a) = a
magnitude (negsuc a) = a

pub eq_ℤ_iff : (a b : ℤ) → (eq_ℤ a b ≡ true) ↔ (a ≡ b)
unfolding magnitude
eq_ℤ_iff (pos a) (pos b) = (λ h. ap pos ((==_iff a b).0 h), λ e. (==_iff a b).1 (ap magnitude e))
eq_ℤ_iff (negsuc a) (negsuc b) =
    (λ h. ap negsuc ((==_iff a b).0 h), λ e. (==_iff a b).1 (ap magnitude e))
eq_ℤ_iff (pos a) (negsuc b) = (λ h. cc, λ e. cc)
eq_ℤ_iff (negsuc a) (pos b) = (λ h. cc, λ e. cc)
