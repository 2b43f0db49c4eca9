-- ===== src/Message/Decode.antt =====
-- The shape of the `decode...` functions: a reader over the whole buffer, the length and the type
-- read, the body read if both are right, and a failure value if the reader went out of range.
pub mod Laws
pub mod Rejects
pub mod Cut
use cpp_owl_common.Prelude.{
  ℕ, ◌+◌, ◌-◌, ◌/◌, ◌%◌, List, true, length, ◌==◌, ◌&&◌, if◌then◌else◌, u32_mod,
}
use cpp_owl_common.Netbuffer.Endian.{Host}
use cpp_owl_common.Netbuffer.Primitive.{uint8, uint32}
use cpp_owl_common.Netbuffer.Push.{Buffer}
use cpp_owl_common.Netbuffer.Reader.{
  BuffReader, new_reader, Read, ◌>>=◌, pure, read_primitive, read_utf16,
}

-- `uint32_t total_length = ...; MessageID msg_type = ...;`
unfoldable pub read_header : Host → Read (ℕ × ℕ)
read_header h = do
  total_length ← read_primitive h uint32
  msg_type ← read_primitive h uint8
  pure (total_length, msg_type)

-- `if (buff.size() == total_length + 4 and msg_type == id) { body }`, with the sum in a uint32_t;
-- `fallback` is what the variables hold if the test fails.
unfoldable pub checked {ℓ} : {A : Type ℓ} → ℕ → Read A → A → ℕ × ℕ → Read A
checked id body fallback (total_length, msg_type) reader =
    if length reader.buff == (total_length + 4) % u32_mod && msg_type == id
    then body reader
    else (fallback, reader)

unfoldable pub decode {ℓ} : {A : Type ℓ} → Host → ℕ → Read A → A → Buffer → A × BuffReader
decode h id body fallback buff =
    (read_header h >>= checked id body fallback) (new_reader h buff true)

-- `if (reader.outOfRange()) return failure; return result;`
unfoldable pub or_failure {ℓ} : {A : Type ℓ} → A → A × BuffReader → A
or_failure failure (result, reader) = if reader.out_of_range then failure else result

-- `reader.readUTF16((buff.size() - reader.cur_index) / 2)`: a string that fills the buffer.
unfoldable pub read_rest_utf16 : Host → Read (List ℕ)
read_rest_utf16 h reader = read_utf16 h ((length reader.buff - reader.cur_index) / 2) reader
