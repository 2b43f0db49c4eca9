-- ===== src/Uint128.antt =====
-- `uint128_t`, a packed struct of two 64-bit numbers, with its constructors and operators.
pub mod Order
pub mod Laws
pub mod Print
use Prim.Native.Nat.{bit_and}
use cpp_owl_common.Prelude.{ℕ, ◌^◌, ◌%◌, Bool, ltb, ◌==◌, ◌&&◌, ◌||◌, ◌++◌, take, drop}
use cpp_owl_common.Netbuffer.Endian.{to_object, of_object}
use cpp_owl_common.Netbuffer.Primitive.{Primitive}

pub record Uint128 : Type 0 where
  pub upper : ℕ
  pub lower : ℕ

-- `uint128_t(uint64_t val)`
abbrev from_uint64 : ℕ → Uint128
from_uint64 val = record { upper = 0; lower = val }

-- `uint128_t(const uint128_t& val)`
unfoldable pub copy : Uint128 → Uint128
copy val = record { upper = val.upper; lower = val.lower }

-- `operator=(const T& val)` for an integer type T: the value is converted to a uint64_t.
unfoldable pub assign : ℕ → Uint128 → Uint128
assign val this = record { upper = 0; lower = val % 2 ^ 64 }

unfoldable pub is_equal : Uint128 → Uint128 → Bool
is_equal a b = a.upper == b.upper && a.lower == b.lower

-- `operator<`
unfoldable pub is_less : Uint128 → Uint128 → Bool
is_less a b = ltb a.upper b.upper || (a.upper == b.upper && ltb a.lower b.lower)

-- `operator&`
unfoldable pub and : Uint128 → Uint128 → Uint128
and a b = record { upper = bit_and a.upper b.upper; lower = bit_and a.lower b.lower }

-- The type as the templates of netbuffer.hpp see it: 16 bytes, the upper number first.
abbrev pub uint128 : Primitive Uint128
uint128 = record {
  size = 16;
  object = λ h v. to_object h 8 v.upper ++ to_object h 8 v.lower;
  value =
      λ h bytes. record { upper = of_object h (take 8 bytes); lower = of_object h (drop 8 bytes) };
  null = from_uint64 0;
}
