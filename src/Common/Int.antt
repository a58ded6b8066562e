-- ===== src/Common/Int.antt =====
-- Signed integers, for the `int64` ids of the program. `negsuc n` is -(n + 1).
use Prim.Native.Nat.{ℕ, suc}
use starfighter_workflow.Common.Tests.{ltb, ◌=ℕ◌}
use mathlib.Core.Path.{◌≡◌, refl, sym}
use mathlib.Core.Logic.{◌↔◌}
use mathlib.Core.Bool.{Bool, true, false}
use native.Mathlib.Omega.{arith}

pub data ℤ : Type 0 where
  pos : ℕ → ℤ
  negsuc : ℕ → ℤ

infix 50 ◌=ℤ◌
unfoldable pub ◌=ℤ◌ : ℤ → ℤ → Bool
pos a =ℤ pos b = a =ℕ b
negsuc a =ℤ negsuc b = a =ℕ b
_ =ℤ _ = false

infix 50 ◌<ℤ◌
unfoldable pub ◌<ℤ◌ : ℤ → ℤ → Bool
pos a <ℤ pos b = ltb a b
pos a <ℤ negsuc b = false
negsuc a <ℤ pos b = true
negsuc a <ℤ negsuc b = ltb b a

-- 0 < n
unfoldable pub is_positive : ℤ → Bool
is_positive (pos (suc n)) = true
is_positive _ = false

pub =ℤ_iff : (a b : ℤ) → ((a =ℤ b) ≡ true) ↔ (a ≡ b)
unfolding ◌=ℤ◌
=ℤ_iff (pos a) (pos b) = ground arith
=ℤ_iff _ _ = ground arith

pub =ℤ_refl : (a : ℤ) → (a =ℤ a) ≡ true
=ℤ_refl a = (=ℤ_iff a a).1 refl

pub <ℤ_asym : (a b : ℤ) → (a <ℤ b) ≡ true → (b <ℤ a) ≡ false
unfolding ◌<ℤ◌
<ℤ_asym (pos a) (pos b) h = ground arith
<ℤ_asym (pos a) (negsuc b) h = sym h
<ℤ_asym (negsuc a) (pos b) h = refl
<ℤ_asym (negsuc a) (negsuc b) h = ground arith

pub <ℤ_trans : (a b c : ℤ) → (a <ℤ b) ≡ true → (b <ℤ c) ≡ true → (a <ℤ c) ≡ true
unfolding ◌<ℤ◌
<ℤ_trans (pos a) (pos b) (pos c) h k = ground arith
<ℤ_trans (pos a) (pos b) (negsuc c) h k = k
<ℤ_trans (pos a) (negsuc b) (pos c) h k = ground arith
<ℤ_trans (pos a) (negsuc b) (negsuc c) h k = h
<ℤ_trans (negsuc a) (pos b) (pos c) h k = refl
<ℤ_trans (negsuc a) (pos b) (negsuc c) h k = ground arith
<ℤ_trans (negsuc a) (negsuc b) (pos c) h k = refl
<ℤ_trans (negsuc a) (negsuc b) (negsuc c) h k = ground arith
