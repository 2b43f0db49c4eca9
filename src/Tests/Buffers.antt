-- ===== src/Tests/Buffers.antt =====
-- The reading and writing functions at concrete values.
use cpp_owl_common.Prelude.{◌↔◌, ◌≤◌, true, false, arith, [], ◌∷◌, ◌≡◌, min, false}
use cpp_owl_common.Netbuffer.Reader.Discard.{discard-IsValid_iff}
use cpp_owl_common.Netbuffer.Reader.{BuffReader, discard}
use cpp_owl_common.Netbuffer.Reader.Bounds.{IsValid}

abbrev two_left : BuffReader
two_left = record {
  buff_i = 1;
  little_endian = true;
  out_of_range = false;
  cur_index = 1;
  buff = 7 ∷ 8 ∷ 9 ∷ [];
}

two_left-IsValid : IsValid two_left
two_left-IsValid = omega arith

discard-IsValid_iff_example :
    ((discard 3 two_left).cur_index ≡ min 4 3)
    × ((discard 3 two_left).buff_i ≡ 4)
    × ((discard 3 two_left).out_of_range ≡ false)
    × (IsValid (discard 3 two_left) ↔ (4 ≤ 3))
discard-IsValid_iff_example = discard-IsValid_iff two_left 3 two_left-IsValid (omega arith)
