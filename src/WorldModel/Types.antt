-- ===== src/WorldModel/Types.antt =====
-- The types of namespace world_model. A URI is its UTF-16 code units, and a time is the bit pattern
-- of an int64_t, since the messages only move its bytes.
use cpp_owl_common.Prelude.{ℕ, ◌<◌, ◌^◌, List, u32_mod, All}
use cpp_owl_common.Netbuffer.Reader.Sequences.{IsUnit}

abbrev pub U16String : Type 0
U16String = List ℕ

abbrev pub Uri : Type 0
Uri = U16String

abbrev pub GrailTime : Type 0
GrailTime = ℕ

-- The values that the types can hold.
abbrev pub IsString : U16String → Type 0
IsString s = All IsUnit s

abbrev pub IsU32 : ℕ → Type 0
IsU32 n = n < u32_mod

abbrev pub IsTime : GrailTime → Type 0
IsTime t = t < 2 ^ 64

-- A Buffer or a std::vector<uint8_t>.
abbrev pub IsOctets : List ℕ → Type 0
IsOctets bs = All (λ b. b < 256 ^ 1) bs
