-- ===== src/Tests/Containers.antt =====
-- Containers read at an index, at concrete values.
use cpp_owl_common.Prelude.{◌≡◌, refl, [], ◌∷◌, some, none, arith}
use cpp_owl_common.Netbuffer.Endian.{little, big, of_object}
use cpp_owl_common.Netbuffer.Primitive.{uint16}
use cpp_owl_common.Netbuffer.Primitive.Laws.{wire16}
use cpp_owl_common.Netbuffer.Push.{push_sized_container}
use cpp_owl_common.Netbuffer.Containers.{
  object_at, shift_loop, with_item, container_loop, read_primitive_container_at,
  read_sized_container_at,
}
use cpp_owl_common.Netbuffer.Containers.Laws.{read_sized_container_at-past}

-- With a byte behind them, two bytes are not read past the end; but the third is or-ed to the first.
three_bytes : read_primitive_container_at little 2 (1 ∷ 2 ∷ 4 ∷ []) 0 (0 ∷ []) ≡ some (1282 ∷ [], 2)
unfolding object_at shift_loop with_item container_loop read_primitive_container_at of_object
three_bytes = refl

read_sized_container_at-past_example :
    read_sized_container_at big 2 (push_sized_container little uint16 (513 ∷ 4 ∷ []) (9 ∷ [])).0 1
    ≡ none
read_sized_container_at-past_example =
    read_sized_container_at-past little big 1 wire16 513 (4 ∷ []) (9 ∷ []) (omega arith)
      (omega arith)
