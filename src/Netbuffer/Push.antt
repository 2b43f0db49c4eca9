-- ===== src/Netbuffer/Push.antt =====
-- The functions of netbuffer.hpp and netbuffer.cpp that write to a byte buffer. Each returns the
-- buffer and the uint32_t count of the bytes pushed.
pub mod Laws
use cpp_owl_common.Prelude.{ℕ, ◌+◌, ◌*◌, ◌%◌, List, [], ◌∷◌, ◌++◌, length, set, u32_mod}
use cpp_owl_common.Netbuffer.Endian.{Host, to_network_endian}
use cpp_owl_common.Netbuffer.Primitive.{Primitive, uint16, uint32}

abbrev pub Buffer : Type 0
Buffer = List ℕ

-- `for (shift ...) buff.push_back(in[shift])`
unfoldable pub push_bytes : List ℕ → Buffer → Buffer
push_bytes [] buff = buff
push_bytes (b ∷ bs) buff = push_bytes bs (buff ++ (b ∷ []))

-- `std::copy(in, in + n, buff.begin() + index)`; the callers write inside the buffer.
unfoldable pub copy_into : List ℕ → Buffer → ℕ → Buffer
copy_into [] buff index = buff
copy_into (b ∷ bs) buff index = copy_into bs (set buff index b) (index + 1)

module _ {T : Type 0} (h : Host) (t : Primitive T) where
  unfoldable pub push_back_val : T → Buffer → Buffer × ℕ
  unfolding push_bytes
  push_back_val val buff = (push_bytes (to_network_endian h (t.object h val) t.size) buff, t.size)

  unfoldable pub push_back_val_at : T → Buffer → ℕ → Buffer × ℕ
  unfolding copy_into
  push_back_val_at val buff index =
      (copy_into (to_network_endian h (t.object h val) t.size) buff index, t.size)

  -- The loop `for (I = begin; I != end; ++I) size += pushBackVal(*I, buff)`.
  unfoldable pub push_each : List T → Buffer → ℕ → Buffer × ℕ
  unfolding push_back_val
  push_each [] buff size = (buff, size)
  push_each (x ∷ xs) buff size =
      let (buff', n) = push_back_val x buff in push_each xs buff' ((size + n) % u32_mod)

module _ {T : Type 0} (h : Host) (t : Primitive T) where
  unfoldable pub push_container : List T → Buffer → Buffer × ℕ
  unfolding push_each
  push_container container buff = push_each h t container buff 0

  unfoldable pub push_sized_container : List T → Buffer → Buffer × ℕ
  unfolding push_each
  push_sized_container container buff =
      let container_len = (length container * t.size) % u32_mod in
      let (buff', n) = push_back_val h uint32 container_len buff in
      push_each h t container buff' ((0 + n) % u32_mod)

module _ (h : Host) where
  unfoldable pub push_back_utf16 : List ℕ → Buffer → Buffer × ℕ
  unfolding push_each
  push_back_utf16 str buff = push_each h uint16 str buff 0

  unfoldable pub push_back_sized_utf16 : List ℕ → Buffer → Buffer × ℕ
  unfolding push_each
  push_back_sized_utf16 str buff =
      let string_len = (length str * 2) % u32_mod in
      let (buff', n) = push_back_val h uint32 string_len buff in
      push_each h uint16 str buff' ((0 + n) % u32_mod)
