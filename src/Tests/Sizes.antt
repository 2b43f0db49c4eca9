-- ===== src/Tests/Sizes.antt =====
-- How long a message is, as the writing code computes it.
use cpp_owl_common.Prelude.{ℕ, length}
use cpp_owl_common.Netbuffer.Endian.{to_network_endian}
use cpp_owl_common.Netbuffer.Push.{
  Buffer, push_back_val, push_each, push_container, push_back_utf16, push_back_sized_utf16,
  push_sized_container, push_back_val_at,
}
use cpp_owl_common.Message.Draft.{
  ◌>>◌, counted, uncounted, push_byte, push_room, for_each, push_total, store_total, make,
}

unfoldable pub size : Buffer → ℕ
unfolding to_network_endian push_back_val push_each push_container push_back_utf16
    push_back_sized_utf16 push_sized_container push_back_val_at ◌>>◌ counted uncounted push_byte
    push_room for_each push_total store_total make
size buff = length buff
