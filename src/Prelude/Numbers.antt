-- ===== src/Prelude/Numbers.antt =====
-- Remainders by a power of two, as the unsigned integer types wrap.
use Prim.Native.Nat.{ℕ, ◌+◌, ◌%◌, ◌^◌, ◌<◌}
use mathlib.Core.Path.{◌≡◌}
use native.Mathlib.Omega.{arith}

-- The number of values of an unsigned int or a uint32_t.
abbrev pub u32_mod : ℕ
u32_mod = 2 ^ 32

pub mod-u32-add : (a b : ℕ) → (a + b % u32_mod) % u32_mod ≡ (a + b) % u32_mod
mod-u32-add a b = omega arith

pub mod-u32-add_left : (a b : ℕ) → (a % u32_mod + b) % u32_mod ≡ (a + b) % u32_mod
mod-u32-add_left a b = omega arith

pub mod-u32_small : (a : ℕ) → a < u32_mod → a % u32_mod ≡ a
mod-u32_small a h = omega arith
