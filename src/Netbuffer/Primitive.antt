-- ===== src/Netbuffer/Primitive.antt =====
-- The types that the templates of netbuffer.hpp are used at: `sizeof(T)`, the bytes of an object in
-- the memory of a host, the object that bytes make up, and `(T)0`. A signed integer and a float
-- are their bit patterns, since the code only moves their bytes.
pub mod Laws
use cpp_owl_common.Prelude.{ℕ, List}
use cpp_owl_common.Netbuffer.Endian.{Host, to_object, of_object}

pub record Primitive (T : Type 0) : Type 0 where
  pub size : ℕ
  pub object : Host → T → List ℕ
  pub value : Host → List ℕ → T
  pub null : T

-- An unsigned integer of `w` bytes.
abbrev pub uint : ℕ → Primitive ℕ
uint w = record { size = w; object = λ h v. to_object h w v; value = of_object; null = 0 }

abbrev pub uint8 : Primitive ℕ
uint8 = uint 1

abbrev pub uint16 : Primitive ℕ
uint16 = uint 2

abbrev pub uint32 : Primitive ℕ
uint32 = uint 4

abbrev pub uint64 : Primitive ℕ
uint64 = uint 8
