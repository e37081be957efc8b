-- ===== src/Base/Bits.antt =====
-- Facts on the bytes of Python's `&`, `|` and `^`, each a table that evaluation checks.
use Prim.Native.Nat.{ℕ, zero, suc, ◌+◌, ◌%◌, ◌<◌, bit_and, bit_or, bit_xor}
use mathlib.Core.Path.{◌≡◌, refl}
use mathlib.Core.Bool.{Bool, true, ◌&&◌}
use native.Mathlib.Omega.{arith}
use klados.Base.Tests.{◌==◌}

all_below : ℕ → (ℕ → Bool) → Bool
all_below zero p = true
all_below (suc n) p = p n && all_below n p

all_below_lem : (n : ℕ) (p : ℕ → Bool) (x : ℕ) → all_below n p ≡ true → x < n → p x ≡ true
unfolding all_below
all_below_lem zero p x h lt = absurd (omega arith)
all_below_lem (suc n) p x h lt = ground (arith, all_below_lem n p x)

low_bits_table : all_below 256 (λ b. bit_and b 0x7f == b % 128) ≡ true
unfolding all_below
low_bits_table = refl

pub low_bits : (b : ℕ) → b < 256 → bit_and b 0x7f ≡ b % 128
low_bits b h = ground (arith, all_below_lem 256 _ b low_bits_table h)

flag_table : all_below 128 (λ b. bit_or 0x80 b == b + 128) ≡ true
unfolding all_below
flag_table = refl

pub set_flag : (b : ℕ) → b < 128 → bit_or 0x80 b ≡ b + 128
set_flag b h = ground (arith, all_below_lem 128 _ b flag_table h)

mask_table : all_below 256 (λ b. all_below 256 (λ m. bit_xor (bit_xor b m) m == b)) ≡ true
unfolding all_below
mask_table = refl

pub mask_twice : (b m : ℕ) → b < 256 → m < 256 → bit_xor (bit_xor b m) m ≡ b
mask_twice b m h g = ground (arith, all_below_lem 256 _ m (all_below_lem 256 _ b mask_table h) g)
