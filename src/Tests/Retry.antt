-- ===== src/Tests/Retry.antt =====
-- A message sent twice, the first time in part.
use cpp_owl_common.Prelude.{
  ℕ, ◌-◌, ◌≡◌, refl, List, [], ◌∷◌, ◌++◌, false, none, some, length, take, drop, arith,
}
use cpp_owl_common.Netbuffer.Endian.{big, big_bytes}
use cpp_owl_common.Message.Draft.Laws.{frame}
use cpp_owl_common.Receiver.{Event, chunk, new_receiver}
use cpp_owl_common.Receiver.Framing.{Delivers}
use cpp_owl_common.Sockets.{
  Call, send, returned, thrown, temporarily_unavailable, Round, logged, converted, taken_by,
  send_loop, send_buffer,
}
use cpp_owl_common.Sockets.Retry.{send_again-Delivers}
use cpp_owl_common.Tests.Sockets.{socket, takes}

abbrev busy : Round
busy = record { pollout = false; answer = record { result = none; error_text = [] }; reads = [] }

abbrev body : List ℕ
body = 8 ∷ 1 ∷ []

abbrev first_calls : List Call
first_calls = send (some 5) (0 ∷ 0 ∷ 0 ∷ 2 ∷ 8 ∷ []) ∷ []

abbrev second_calls : List Call
second_calls = send (some 5) (0 ∷ 0 ∷ 0 ∷ 2 ∷ 8 ∷ 1 ∷ []) ∷ []

abbrev stream : List Event
stream = chunk 0 (0 ∷ 0 ∷ []) ∷ chunk 2 (8 ∷ 0 ∷ 0 ∷ 0 ∷ 2 ∷ 8 ∷ 1 ∷ []) ∷ []

first_call :
    send_buffer (takes 5 ∷ busy ∷ []) (frame body) socket
    ≡ (thrown temporarily_unavailable, socket, first_calls)
unfolding send_buffer send_loop logged converted taken_by frame big_bytes
first_call = refl

second_call : send_buffer (takes 6 ∷ []) (frame body) socket ≡ (returned tt, socket, second_calls)
unfolding send_buffer send_loop logged converted taken_by frame big_bytes
second_call = refl

body_size : length (frame body) ≡ 6
unfolding frame big_bytes
body_size = refl

-- Five bytes of six are sent, and then all of them: the receiver's message ends with a byte of the
-- second length field.
send_again-Delivers_example :
    Delivers big
      (new_receiver stream [])
      ((0 ∷ 0 ∷ 0 ∷ 2 ∷ 8 ∷ []) ++ take (length (frame body) - 5) (frame body))
      (drop (length (frame body) - 5) (frame body))
send_again-Delivers_example =
    send_again-Delivers big body (takes 5 ∷ busy ∷ []) (takes 6 ∷ []) socket socket socket
      first_calls second_calls stream (omega (arith, body_size)) (omega (arith, body_size))
      (omega (arith, body_size)) first_call second_call (omega arith) (omega arith) refl
