-- ===== src/Base/Integers.antt =====
-- Signed machine integers (`i32`), which the code only compares.
use Prim.Native.Nat.{ℕ}
use mathlib.Core.Path.{◌≡◌}
use mathlib.Core.Bool.{Bool, true, false}
use native.Mathlib.Omega.{arith}
use bey.Base.Tests.{leb}

pub data ℤ : Type 0 where
  pos : ℕ → ℤ
  negsuc : ℕ → ℤ

abbrev pub leb_int : ℤ → ℤ → Bool
leb_int (pos a) (pos b) = leb a b
leb_int (pos a) (negsuc b) = false
leb_int (negsuc a) (pos b) = true
leb_int (negsuc a) (negsuc b) = leb b a

pub leb_int_total : (a b : ℤ) → leb_int a b ≡ false → leb_int b a ≡ true
leb_int_total (pos a) (pos b) h = ground arith
leb_int_total (pos a) (negsuc b) h = ground arith
leb_int_total (negsuc a) (pos b) h = ground arith
leb_int_total (negsuc a) (negsuc b) h = ground arith

pub leb_int_refl : (a : ℤ) → leb_int a a ≡ true
leb_int_refl (pos a) = ground arith
leb_int_refl (negsuc a) = ground arith

pub leb_int_trans : (a b c : ℤ) → leb_int a b ≡ true → leb_int b c ≡ true → leb_int a c ≡ true
leb_int_trans (pos a) (pos b) (pos c) h k = ground arith
leb_int_trans (pos a) (pos b) (negsuc c) h k = ground arith
leb_int_trans (pos a) (negsuc b) c h k = ground arith
leb_int_trans (negsuc a) (pos b) (negsuc c) h k = ground arith
leb_int_trans (negsuc a) b (pos c) h k = ground arith
leb_int_trans (negsuc a) (negsuc b) (negsuc c) h k = ground arith
