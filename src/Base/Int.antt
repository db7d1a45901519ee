-- ===== src/Base/Int.antt =====
-- `i64` and `i32` values as integers; `negsuc n` is -(n + 1).
use Prim.Native.Nat.{ℕ, ◌+◌, ◌-◌, ◌%◌, compare, Ordering}
use Prim.Native.Nat.Ordering.{lt, eq, gt}
use mathlib.Core.Path.{◌≡◌}
use mathlib.Core.Bool.{Bool, false}
use native.Mathlib.Omega.{arith}
use mandala.Base.Tests.{◌==◌, leb, if◌then◌else◌}
use mandala.Base.Order.{Ord}

pub data ℤ : Type 0 where
  pos : ℕ → ℤ
  negsuc : ℕ → ℤ

abbrev pub int_eq : ℤ → ℤ → Bool
int_eq (pos a) (pos b) = a == b
int_eq (negsuc a) (negsuc b) = a == b
int_eq _ _ = false

-- `n > 0`.
abbrev pub is_pos : ℤ → Bool
is_pos (pos n) = leb 1 n
is_pos (negsuc n) = false

-- `n & 0xff`, of the two's complement.
abbrev pub low_byte : ℤ → ℕ
low_byte (pos n) = n % 256
low_byte (negsuc n) = 255 - n % 256

-- `n.saturating_add(1)` of a `u64` counter.
abbrev pub u64_max : ℕ
u64_max = 18446744073709551615

abbrev pub saturating_inc : ℕ → ℕ
saturating_inc n = if leb u64_max n then u64_max else n + 1

abbrev pub int_cmp : ℤ → ℤ → Ordering
int_cmp (pos a) (pos b) = compare a b
int_cmp (negsuc a) (negsuc b) = compare b a
int_cmp (pos a) (negsuc b) = gt
int_cmp (negsuc a) (pos b) = lt

pub int_cmp_refl : (a : ℤ) → int_cmp a a ≡ eq
int_cmp_refl a = ground arith

pub int_eq_of_cmp : (a b : ℤ) → int_cmp a b ≡ eq → a ≡ b
int_eq_of_cmp a b h = ground arith

pub int_lt_of_gt : (a b : ℤ) → int_cmp a b ≡ gt → int_cmp b a ≡ lt
int_lt_of_gt a b h = ground arith

pub int_gt_of_lt : (a b : ℤ) → int_cmp a b ≡ lt → int_cmp b a ≡ gt
int_gt_of_lt a b h = ground arith

pub int_lt_trans : (a b c : ℤ) → int_cmp a b ≡ lt → int_cmp b c ≡ lt → int_cmp a c ≡ lt
int_lt_trans a b c h k = ground arith

instance abbrev pub int_ord : Ord ℤ
int_ord = record {
  cmp = int_cmp;
  cmp_refl = int_cmp_refl;
  eq_of_cmp = int_eq_of_cmp;
  lt_of_gt = int_lt_of_gt;
  gt_of_lt = int_gt_of_lt;
  lt_trans = int_lt_trans;
}
