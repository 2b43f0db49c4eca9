-- ===== src/Tests/Conserved.antt =====
-- Calls of the receiver on a stream with an error and an interrupt.
use cpp_owl_common.Prelude.{◌≡◌, refl, [], ◌∷◌, ◌++◌, true, false}
use cpp_owl_common.Netbuffer.Endian.{big, from_network_endian, little_endian, of_object}
use cpp_owl_common.Netbuffer.Reader.{read_primitive_at}
use cpp_owl_common.Receiver.{
  chunk, again, broken, Receiver, read_flag, frame_length, piece_length, needs_more, append_raw,
  receive_loop, cut_message, after_loop, get_next_message, ready, message_available,
  poll_and_receive, receive_once, is_complete,
}
use cpp_owl_common.Receiver.Rounds.{pending}
use cpp_owl_common.Receiver.Conserved.{
  delivered, IsDefined, no_call, then_message, then_available, Calls-pending,
}

-- The third read of the interrupt flag is the first of the second call.
abbrev start : Receiver
start = record {
  previous_unfinished = 0 ∷ 0 ∷ [];
  raw_messages = [];
  events = chunk 0 (2 ∷ 8 ∷ []) ∷ again ∷ broken 104 ∷ chunk 1 (0 ∷ []) ∷ [];
  flags = false ∷ false ∷ false ∷ true ∷ true ∷ [];
}

abbrev after_error : Receiver
after_error = (get_next_message big start).1

abbrev after_interrupt : Receiver
after_interrupt = (get_next_message big after_error).1

abbrev after_test : Receiver
after_test = (message_available big ready after_interrupt).1

abbrev after_message : Receiver
after_message = (get_next_message big after_test).1

message_there : delivered (get_next_message big after_test).0 ≡ 0 ∷ 0 ∷ 0 ∷ 2 ∷ 8 ∷ 1 ∷ []
unfolding read_flag frame_length piece_length needs_more append_raw receive_loop cut_message
    after_loop get_next_message message_available poll_and_receive receive_once is_complete
    read_primitive_at from_network_endian little_endian of_object
message_there = refl

error-IsDefined : IsDefined (get_next_message big start).0
unfolding read_flag frame_length piece_length needs_more append_raw receive_loop cut_message
    after_loop get_next_message message_available poll_and_receive receive_once is_complete
    read_primitive_at from_network_endian little_endian of_object
error-IsDefined = tt

interrupt-IsDefined : IsDefined (get_next_message big after_error).0
unfolding read_flag frame_length piece_length needs_more append_raw receive_loop cut_message
    after_loop get_next_message message_available poll_and_receive receive_once is_complete
    read_primitive_at from_network_endian little_endian of_object
interrupt-IsDefined = tt

message-IsDefined : IsDefined (get_next_message big after_test).0
unfolding read_flag frame_length piece_length needs_more append_raw receive_loop cut_message
    after_loop get_next_message message_available poll_and_receive receive_once is_complete
    read_primitive_at from_network_endian little_endian of_object
message-IsDefined = tt

Calls-pending_example :
    (delivered (get_next_message big start).0
        ++ (delivered (get_next_message big after_error).0
            ++ (delivered (get_next_message big after_test).0 ++ [])))
      ++ pending after_message
    ≡ pending start
Calls-pending_example = Calls-pending big start _ after_message (
    then_message start after_message _ error-IsDefined (
      then_message after_error after_message _ interrupt-IsDefined (
        then_available ready after_interrupt after_message _
          (then_message after_test after_message [] message-IsDefined (no_call after_message)))))
