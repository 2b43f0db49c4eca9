-- ===== src/Grail.antt =====
-- grail_types.hpp and grail_types.cpp: transmitters as the world model stores them.
pub mod RoundTrip
use cpp_owl_common.Prelude.{
  ℕ, ◌+◌, ◌%◌, List, [], ◌∷◌, ◌++◌, Bool, true, ltb, ◌==◌, ◌&&◌, ◌||◌, u32_mod,
}
use cpp_owl_common.Netbuffer.Endian.{Host}
use cpp_owl_common.Netbuffer.Primitive.{uint8, uint32, uint64}
use cpp_owl_common.Netbuffer.Push.{Buffer, push_back_val}
use cpp_owl_common.Netbuffer.Reader.{
  new_reader, Read, ◌>>=◌, pure, read_primitive, read_loop, read_primitive_at,
}
use cpp_owl_common.Uint128
use cpp_owl_common.Uint128.Print
use cpp_owl_common.Uint128.Print.{print_decimal}
use cpp_owl_common.Uint128.{Uint128}

pub record Transmitter : Type 0 where
  pub phy : ℕ
  pub id : Uint128

-- `operator<`
unfoldable pub is_less : Transmitter → Transmitter → Bool
unfolding Uint128.is_less
is_less a b = ltb a.phy b.phy || (a.phy == b.phy && Uint128.is_less a.id b.id)

-- `operator==`
unfoldable pub is_equal : Transmitter → Transmitter → Bool
unfolding Uint128.is_equal
is_equal a b = a.phy == b.phy && Uint128.is_equal a.id b.id

-- `operator<<`: the physical layer, a point and the identifier.
unfoldable pub print : Transmitter → List ℕ
print t = print_decimal t.phy ++ (46 ∷ Print.print t.id)

-- The operands of the sum in `writeTransmitter`. C++ leaves open in which order they are evaluated,
-- and each of them writes to the buffer, so the compiler's choice is a parameter.
pub data Part : Type 0 where
  phy_part upper_part lower_part : Part

module _ (h : Host) where
  unfoldable pub read_transmitter_from_buffer : Read Transmitter
  read_transmitter_from_buffer = do
    phy ← read_primitive h uint8
    upper ← read_primitive h uint64
    lower ← read_primitive h uint64
    pure (record { phy = phy; id = record { upper = upper; lower = lower } })

  unfoldable pub read_transmitter : Buffer → Transmitter
  read_transmitter buff = record {
    phy = read_primitive_at h uint8 buff 0;
    id = record {
      upper = read_primitive_at h uint64 buff 1;
      lower = read_primitive_at h uint64 buff (1 + 8);
    };
  }

  unfoldable pub write_part : Part → Transmitter → Buffer → Buffer × ℕ
  write_part phy_part t buff = push_back_val h uint8 t.phy buff
  write_part upper_part t buff = push_back_val h uint64 t.id.upper buff
  write_part lower_part t buff = push_back_val h uint64 t.id.lower buff

  -- The parts in the order of their evaluation.
  unfoldable pub write_transmitter : Part → Part → Part → Transmitter → Buffer → Buffer × ℕ
  unfolding write_part
  write_transmitter first second third t buff =
      let (buff1, a) = write_part first t buff in
      let (buff2, b) = write_part second t buff1 in
      let (buff3, c) = write_part third t buff2 in (buff3, ((a + b) % u32_mod + c) % u32_mod)

  -- The number of items, and each item; reads out of range are not looked at.
  unfoldable pub unpack_grail_vector {ℓ} : {A : Type ℓ} → Read A → Buffer → List A
  unpack_grail_vector read_fun buff =
      ((read_primitive h uint32 >>= λ total. read_loop total read_fun [])
        (new_reader h buff true)).0
