-- ===== src/Uint128/Order.antt =====
-- `operator<` and `operator==` compare the numbers of 128 bits.
use cpp_owl_common.Prelude.{ℕ, ◌+◌, ◌*◌, ◌^◌, ◌<◌, ◌≡◌, ltb, ◌==◌, arith}
use cpp_owl_common.Uint128.{Uint128, is_equal, is_less}

-- Both halves fit 64 bits.
pub record IsUint128 (v : Uint128) : Type 0 where
  pub upper_ok : v.upper < 2 ^ 64
  pub lower_ok : v.lower < 2 ^ 64

-- The number that the struct stands for.
abbrev pub number : Uint128 → ℕ
number v = v.upper * 2 ^ 64 + v.lower

-- The two operators answer as the comparisons of the numbers of 128 bits do, for any two values
-- whose halves fit 64 bits.
pub is_less-eq-ltb :
    (a b : Uint128)
    → IsUint128 a
    → IsUint128 b
    → (is_less a b ≡ ltb (number a) (number b)) × (is_equal a b ≡ (number a == number b))
unfolding is_less is_equal
is_less-eq-ltb a b oka okb = (ground arith, ground arith)
