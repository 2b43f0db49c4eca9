-- ===== src/WorldModel/Client/Preference.antt =====
-- The weights that a client gives to origins. A weight is the bit pattern of an int32_t.
pub mod RoundTrip
pub mod Endless
use cpp_owl_common.Prelude.{
  ℕ, zero, suc, List, [], ◌∷◌, ◌++◌, length, ltb, true, false, Option, none, some,
}
use cpp_owl_common.Netbuffer.Endian.{Host}
use cpp_owl_common.Netbuffer.Primitive.{uint8, uint32}
use cpp_owl_common.Netbuffer.Push.{Buffer, push_back_val, push_back_sized_utf16}
use cpp_owl_common.Netbuffer.Reader.{Read, ◌>>=◌, pure, read_primitive, read_sized_utf16}
use cpp_owl_common.Message.Draft.{Draft, ◌>>◌, counted, for_each, make}
use cpp_owl_common.Message.Decode.{decode, or_failure}
use cpp_owl_common.WorldModel.Types.{U16String}
use cpp_owl_common.WorldModel.Client.Id.{id_of, origin_preference}

-- C++ leaves open which argument of `make_pair(readSizedUTF16(), readPrimitive<int32_t>())` is
-- evaluated first, so the compiler's choice is a parameter.
pub data Order : Type 0 where
  left_first right_first : Order

module _ (h : Host) where
  unfoldable pub push_weight : U16String × ℕ → Draft → Draft
  push_weight (origin, weight) = do
    counted (push_back_sized_utf16 h origin)
    counted (push_back_val h uint32 weight)

  unfoldable pub make_origin_preference : List (U16String × ℕ) → Buffer
  make_origin_preference weights =
      make h
        do counted (push_back_val h uint8 (id_of origin_preference)); for_each push_weight weights

  unfoldable pub read_weight : Order → Read (U16String × ℕ)
  read_weight left_first = do
    origin ← read_sized_utf16 h
    weight ← read_primitive h uint32
    pure (origin, weight)
  read_weight right_first = do
    weight ← read_primitive h uint32
    origin ← read_sized_utf16 h
    pure (origin, weight)

  -- `while (reader.cur_index < buff.size()) weights.push_back(...)`; `none` means that the loop was
  -- still running after `fuel` rounds.
  unfoldable pub read_weights :
      Order → ℕ → List (U16String × ℕ) → Read (Option (List (U16String × ℕ)))
  read_weights order zero weights r = (none, r)
  read_weights order (suc fuel) weights r = elim (ltb r.cur_index (length r.buff)) [
    | true ↦
        let (weight, r') = read_weight order r in
        read_weights order fuel (weights ++ (weight ∷ [])) r'
    | false ↦ (some weights, r)
  ]

  unfoldable pub decode_origin_preference : Order → ℕ → Buffer → Option (List (U16String × ℕ))
  decode_origin_preference order fuel buff =
      let result = decode h (id_of origin_preference) (read_weights order fuel []) (some []) buff in
      elim result.0 [ none ↦ none | some weights ↦ or_failure (some []) result ]
