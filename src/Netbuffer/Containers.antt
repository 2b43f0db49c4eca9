-- ===== src/Netbuffer/Containers.antt =====
-- The free templates of netbuffer.hpp that read a container at an index, `readPrimitiveContainer` and
-- `readSizedContainer`, for unsigned integers of `w` bytes. The container is passed by value: the
-- result here is the function's own copy of it, and the int that it returns.
pub mod Laws
use cpp_owl_common.Prelude.{
  ℕ, zero, suc, ◌+◌, ◌*◌, ◌/◌, ◌%◌, ◌^◌, List, [], ◌∷◌, Option, none, some, length, take, drop,
  replicate, leb, if◌then◌else◌,
}
use Prim.Native.Nat.{bit_or}
use cpp_owl_common.Netbuffer.Endian.{Host, of_object}
use cpp_owl_common.Netbuffer.Primitive.{uint32}
use cpp_owl_common.Netbuffer.Push.{Buffer}
use cpp_owl_common.Netbuffer.Reader.{read_primitive_at}

unfoldable pub with_item : ℕ → Option (List ℕ × ℕ) → Option (List ℕ × ℕ)
with_item item none = none
with_item item (some (items, total)) = some (item ∷ items, total)

module _ (h : Host) (w : ℕ) (buff : Buffer) where
  -- `(decltype(*I))buff[at]`. The type is a reference, so that this is the object whose first byte
  -- stands there; none where the buffer ends before it does, and the behaviour is undefined.
  unfoldable pub object_at : ℕ → Option ℕ
  object_at at =
      if leb (at + w) (length buff) then some (of_object h (take w (drop at buff))) else none

  -- `*I |= object << (8 * (max_shift - shift))` in the rounds that are left.
  unfoldable pub shift_loop : ℕ → ℕ → ℕ → Option ℕ
  unfolding object_at
  shift_loop zero at item = some item
  shift_loop (suc n) at item = elim (object_at at) [
    | none ↦ none
    | some object ↦ shift_loop n (at + 1) (bit_or item (object * 2 ^ (8 * n)) % 256 ^ w)
  ]

  -- The outer loop. `total_read` is an int, here its bit pattern, and is added to as a size_t.
  unfoldable pub container_loop : List ℕ → ℕ → ℕ → Option (List ℕ × ℕ)
  unfolding shift_loop with_item
  container_loop [] total_read index = some ([], total_read)
  container_loop (item ∷ items) total_read index = elim (shift_loop w index item) [
    | none ↦ none
    | some read ↦ with_item read (container_loop items ((total_read + w) % 2 ^ 32) (index + w))
  ]

  unfoldable pub read_primitive_container_at : ℕ → List ℕ → Option (List ℕ × ℕ)
  unfolding container_loop
  read_primitive_container_at index container = container_loop container 0 index

  unfoldable pub read_sized_container_at : ℕ → Option (List ℕ × ℕ)
  unfolding read_primitive_container_at
  read_sized_container_at index =
      let size = read_primitive_at h uint32 buff index / w in
      read_primitive_container_at (index + 4) (replicate size 0)
