-- ===== src/Tests/Exchange.antt =====
-- A snapshot request on its way, at concrete values.
use cpp_owl_common.Prelude.{
  ℕ, ◌^◌, ◌<◌, ◌≡◌, refl, sym, subst, List, [], ◌∷◌, true, some, length, drop, ◌++◌, arith,
}
use cpp_owl_common.Netbuffer.Endian.{little, big, to_network_endian}
use cpp_owl_common.Netbuffer.Push.{
  push_back_val, push_each, push_back_utf16, push_back_sized_utf16, push_back_val_at,
}
use cpp_owl_common.Message.Draft.{◌>>◌, counted, for_each, push_total, store_total, make}
use cpp_owl_common.Receiver.{Event, chunk, again, new_receiver}
use cpp_owl_common.Sockets.{
  ClientSocket, Call, returned, send, Round, logged, converted, taken_by, send_loop, send_buffer,
}
use cpp_owl_common.Sockets.Stream.{AreHonest}
use cpp_owl_common.Sockets.Delivery.{Sent, nothing, one_more}
use cpp_owl_common.WorldModel.Client.Request.{Request, make_snapshot_request}
use cpp_owl_common.Exchange.{messages, Arrive, requests-Arrive}

abbrev request : Request
request = record { object_uri = 97 ∷ []; attributes = []; start = 1; stop_period = 2 }

abbrev front : List ℕ
front = 0 ∷ 0 ∷ 0 ∷ 31 ∷ 1 ∷ 0 ∷ 0 ∷ 0 ∷ 7 ∷ 0 ∷ 0 ∷ 0 ∷ 2 ∷ 0 ∷ 97 ∷ []

abbrev back : List ℕ
back = 0 ∷ 0 ∷ 0 ∷ 0 ∷ 0 ∷ 0 ∷ 0 ∷ 0 ∷ 0 ∷ 0 ∷ 0 ∷ 1 ∷ 0 ∷ 0 ∷ 0 ∷ 0 ∷ 0 ∷ 0 ∷ 0 ∷ 2 ∷ []

request-bytes : make_snapshot_request little request 7 ≡ front ++ back
unfolding to_network_endian push_back_val push_each push_back_utf16 push_back_sized_utf16
    push_back_val_at ◌>>◌ counted for_each push_total store_total make make_snapshot_request
request-bytes = refl

abbrev pub socket : ClientSocket
socket = record { port = 7012; ip_address = []; sock_fd = some 4 }

abbrev pub round : ℕ → Round
round n = record {
  pollout = true;
  answer = record { result = some n; error_text = [] };
  reads = [];
}

abbrev calls : List Call
calls = send (some 4) front ∷ send (some 4) back ∷ []

request-sent :
    send_buffer (round 15 ∷ round 20 ∷ []) (front ++ back) socket ≡ (returned tt, socket, calls)
unfolding send_buffer send_loop logged converted taken_by
request-sent = refl

rounds-AreHonest : AreHonest 35 (round 15 ∷ round 20 ∷ [])
rounds-AreHonest = omega arith

request-Sent : Sent (messages little ((request, 7) ∷ [])) socket calls
request-Sent =
    subst (λ m. Sent (m ∷ []) socket calls) (sym request-bytes)
      (one_more (round 15 ∷ round 20 ∷ []) (front ++ back) [] socket socket calls []
        rounds-AreHonest request-sent (nothing socket))

request_short : length (make_snapshot_request little request 7) < 2 ^ 31
request_short = subst (λ m. length m < 2 ^ 31) (sym request-bytes) (omega arith)

abbrev events : List Event
events = chunk 0 (0 ∷ 0 ∷ []) ∷ again ∷ chunk 31 (drop 4 (front ++ back)) ∷ []

requests-Arrive_example : Arrive big 5 6 (new_receiver events []) ((request, 7) ∷ [])
requests-Arrive_example =
    requests-Arrive little big 5 6 ((request, 7) ∷ []) socket calls events
      (record { request_ok = omega arith; ticket_ok = omega arith; short = request_short }, tt)
      request-Sent tt refl
