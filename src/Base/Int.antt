-- ===== src/Base/Int.antt =====
-- Signed integers over the native numbers, for `int64` arguments that a caller may give negative.
use Prim.Native.Nat.{ℕ, suc, ◌+◌, ◌≤◌}
use mathlib.Core.Path.{◌≡◌, refl}
use mathlib.Core.Logic.{◌↔◌}
use mathlib.Core.Bool.{Bool, true, false, ◌||◌}
use native.Mathlib.Omega.{arith}
use hooshi_xagent.Base.Tests.{ltb, ◌==◌}

-- `negsuc n` is -(n + 1).
pub data ℤ : Type 0 where
  pos : ℕ → ℤ
  negsuc : ℕ → ℤ

abbrev pub below : ℤ → ℤ → Bool
below (pos a) (pos b) = ltb a b
below (pos a) (negsuc b) = false
below (negsuc a) (pos b) = true
below (negsuc a) (negsuc b) = ltb b a

abbrev pub double : ℤ → ℤ
double (pos n) = pos (n + n)
double (negsuc n) = negsuc (suc (n + n))

abbrev pub int_eq : ℤ → ℤ → Bool
int_eq (pos a) (pos b) = a == b
int_eq (negsuc a) (negsuc b) = a == b
int_eq _ _ = false

-- `x < low || x > high`
abbrev pub outside : ℕ → ℕ → ℤ → Bool
outside low high x = below x (pos low) || below (pos high) x

pos-injective : (n m : ℕ) → pos n ≡ pos m → n ≡ m
pos-injective n m e = cc

pub outside_iff :
    (low high : ℕ) (x : ℤ)
    → (outside low high x ≡ false) ↔ ((n : ℕ) × (x ≡ pos n) × (low ≤ n) × (n ≤ high))
outside_iff low high (pos n) = (
  λ e. (n, refl, ground arith, ground arith),
  λ (m, e, a, b). let f = pos-injective n m e in ground arith,
)
outside_iff low high (negsuc n) = (λ e. cc, λ (m, e, a, b). cc)
