-- ===== src/Tests/Sockets.antt =====
-- Sockets at concrete answers of the system.
use cpp_owl_common.Prelude.{
  ℕ, ◌+◌, ◌/◌, ◌<◌, ◌≡◌, refl, subst, ◌^◌, List, [], ◌∷◌, ◌++◌, true, false, none, some, length,
  take, map, arith,
}
use cpp_owl_common.Netbuffer.Endian.{little, big, big_bytes}
use cpp_owl_common.Netbuffer.Push.{push_back_sized_utf16}
use cpp_owl_common.Netbuffer.Strings.{read_sized_utf16_at, read_sized_utf16_at-half}
use cpp_owl_common.Message.Draft.Laws.{frame}
use cpp_owl_common.Receiver.{Event, chunk, again, new_receiver}
use cpp_owl_common.Receiver.Framing.{Receives}
use cpp_owl_common.Sockets.{
  ClientSocket, ReadAnswer, PollAnswer, is_one, has_error, Call, send, returned, Round, logged,
  converted, taken_by, send_loop, send_buffer, destroy,
}
use cpp_owl_common.Sockets.Stream.{has_returned, AreHonest, Sends, send_buffer-Sends}
use cpp_owl_common.Sockets.Progress.{AreProgress, send_buffer-returns}
use cpp_owl_common.Sockets.Delivery.{Sent, nothing, one_more, send-Receives}
use cpp_owl_common.Sockets.Serving.{closed, held, opened, serve-opened}
use cpp_owl_common.Sockets.Connect.{AddressAnswer, serve, ServerSocket, destroy_server, next}
use cpp_owl_common.Sockets.Cleanup.{is_some, has_end, destroy-ends}
use cpp_owl_common.Sockets.Store.{
  Store, move_construct, constructing, accepting, Reachable, start, step, add, accept, opens,
}
use cpp_owl_common.Sockets.Ownership.{IsOwned}
use cpp_owl_common.Sockets.Ownership.Steps.{Reachable-IsOwned}
use cpp_owl_common.Tests.Sizes.{size}

abbrev pub socket : ClientSocket
socket = record { port = 80; ip_address = []; sock_fd = some 5 }

abbrev pub takes : ℕ → Round
takes n = record {
  pollout = true;
  answer = record { result = some n; error_text = [] };
  reads = [];
}

abbrev message : List ℕ
message = 0 ∷ 0 ∷ 0 ∷ 2 ∷ 8 ∷ 1 ∷ []

abbrev rounds : List Round
rounds = takes 2 ∷ takes 4 ∷ takes 9 ∷ takes 9 ∷ takes 9 ∷ takes 9 ∷ []

rounds-AreHonest : AreHonest 6 rounds
rounds-AreHonest = omega arith

send_buffer-Sends_example : Sends (send_buffer rounds message socket) message
send_buffer-Sends_example = send_buffer-Sends rounds message socket (omega arith) rounds-AreHonest

rounds-AreProgress : AreProgress 6 rounds
rounds-AreProgress = (
  λ b. (refl, (2, refl, omega arith, omega arith)),
  (
    λ b. (refl, (4, refl, omega arith, omega arith)),
    (λ b. elim b [ ], (λ b. elim b [ ], (λ b. elim b [ ], (λ b. elim b [ ], tt)))),
  ),
)

send_buffer-returns_example : (send_buffer rounds message socket).0 ≡ returned tt
send_buffer-returns_example =
    send_buffer-returns rounds message socket (omega arith) (omega arith) rounds-AreProgress

abbrev calls : List Call
calls = send (some 5) (0 ∷ 0 ∷ []) ∷ send (some 5) (0 ∷ 2 ∷ 8 ∷ 1 ∷ []) ∷ []

message-sent : send_buffer rounds message socket ≡ (returned tt, socket, calls)
unfolding send_buffer send_loop logged converted taken_by
message-sent = refl

framed : message ≡ frame (8 ∷ 1 ∷ [])
unfolding frame big_bytes
framed = refl

delivered : Sent (map frame ((8 ∷ 1 ∷ []) ∷ [])) socket calls
delivered =
    subst (λ m. Sent (m ∷ []) socket calls) framed
      (one_more rounds message [] socket socket calls [] rounds-AreHonest message-sent
        (nothing socket))

frame_size : length (frame (8 ∷ 1 ∷ [])) < 2 ^ 31
frame_size = subst (λ m. length m < 2 ^ 31) framed (omega arith)

abbrev cut : List Event
cut = chunk 0 (0 ∷ 0 ∷ []) ∷ again ∷ chunk 2 (8 ∷ 1 ∷ []) ∷ []

send-Receives_example : Receives big (new_receiver cut []) (map frame ((8 ∷ 1 ∷ []) ∷ []))
send-Receives_example =
    send-Receives big ((8 ∷ 1 ∷ []) ∷ []) socket calls cut (frame_size, tt) delivered tt refl

abbrev failed_read : ReadAnswer
failed_read = record { result = none; would_block = false }

abbrev server : ServerSocket
server = record { port = 80; sock_fd = some 5 }

destroy-ends_example :
    (has_returned (destroy (failed_read ∷ failed_read ∷ []) socket).0
      ≡ has_end (failed_read ∷ failed_read ∷ []))
    × (is_some (destroy_server (failed_read ∷ failed_read ∷ []) server)
        ≡ has_end (failed_read ∷ failed_read ∷ []))
destroy-ends_example = destroy-ends (failed_read ∷ failed_read ∷ []) 5 socket server refl refl

abbrev has_input : PollAnswer
has_input = record {
  result = some 1;
  revents = record { pollout = false; pollerr = false; pollhup = false; pollnval = false };
}

abbrev begun : Store
begun = record { objects = []; system = record { is_open = λ x. false; misused = false } }

abbrev accepted : Store
accepted = add (next has_input (some 5) [] server) [] (accept has_input (some 5) begun)

accepted-Reachable : Reachable accepted
accepted-Reachable =
    step begun accepted (start (λ x. false) (λ fd. refl))
      (accepting has_input (some 5) [] server begun (λ fd e. refl))

one_object : 0 < length accepted.objects
unfolding add accept opens is_one has_error
one_object = omega arith

-- A connection is accepted, and its socket is moved to a new object.
Reachable-IsOwned_example : IsOwned (move_construct 0 accepted)
Reachable-IsOwned_example = Reachable-IsOwned (move_construct 0 accepted) (
    step accepted (move_construct 0 accepted) accepted-Reachable
      (constructing 0 accepted one_object))

abbrev addresses : List AddressAnswer
addresses = record { made = some 6; bound = false } ∷ record { made = some 7; bound = true } ∷ []

serve-opened_example :
    closed (serve true addresses false 80 (some 3)).1
      ++ held (serve true addresses false 80 (some 3)).0.sock_fd
    ≡ opened addresses
serve-opened_example =
    serve-opened (record { made = some 6; bound = false })
      (record { made = some 7; bound = true } ∷ []) false 80 (some 3)

abbrev letters : List ℕ
letters = 97 ∷ 98 ∷ 99 ∷ []

letters_size : length ((push_back_sized_utf16 little letters (7 ∷ [])).0 ++ (1 ∷ [])) ≡ 12
unfolding size
letters_size = refl

read_sized_utf16_at-half_example :
    read_sized_utf16_at big ((push_back_sized_utf16 little letters (7 ∷ [])).0 ++ (1 ∷ [])) 1
    ≡ some (take ((3 + 1) / 2) letters)
read_sized_utf16_at-half_example =
    read_sized_utf16_at-half little big letters (7 ∷ []) (1 ∷ []) (omega arith)
      (omega (arith, letters_size))
