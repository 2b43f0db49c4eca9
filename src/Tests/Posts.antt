-- ===== src/Tests/Posts.antt =====
-- Messages of several kinds on one connection, at concrete values.
use cpp_owl_common.Prelude.{
  ℕ, ◌^◌, ◌<◌, ◌≡◌, refl, sym, subst, All, List, [], ◌∷◌, ◌++◌, length, map, drop, take, some,
  arith,
}
use cpp_owl_common.Netbuffer.Endian.{little, big, to_network_endian}
use cpp_owl_common.Netbuffer.Push.{
  push_back_val, push_each, push_back_utf16, push_back_sized_utf16, push_back_val_at,
}
use cpp_owl_common.Message.Draft.{
  ◌>>◌, counted, push_byte, push_room, for_each, push_total, store_total, make,
}
use cpp_owl_common.Receiver.{Event, chunk, again, new_receiver}
use cpp_owl_common.Sockets.{
  Call, returned, send, logged, converted, taken_by, send_loop, send_buffer,
}
use cpp_owl_common.Sockets.Delivery.{Sent, nothing, one_more}
use cpp_owl_common.WorldModel.Client.Alias.{push_alias, make_attr_alias_msg, make_origin_alias_msg}
use cpp_owl_common.WorldModel.Client.Ticket.{make_request_complete}
use cpp_owl_common.WorldModel.Solver.Change.{make_create_uri, make_delete_uri}
use cpp_owl_common.Exchange.Codec.{made, IsSendable, Arrive}
use cpp_owl_common.Exchange.Answers.{
  Answer, origin_aliases, request_complete, answer_post, answers-Arrive,
}
use cpp_owl_common.Exchange.Reports.{Report, created, deleted, report_post, reports-Arrive}
use cpp_owl_common.Tests.Exchange.{socket, round}

abbrev answers : List Answer
answers = origin_aliases (record { alias = 3; type = 97 ∷ [] } ∷ []) ∷ request_complete 7 ∷ []

abbrev alias_bytes : List ℕ
alias_bytes = 0 ∷ 0 ∷ 0 ∷ 15 ∷ 5 ∷ 0 ∷ 0 ∷ 0 ∷ 1 ∷ 0 ∷ 0 ∷ 0 ∷ 3 ∷ 0 ∷ 0 ∷ 0 ∷ 2 ∷ 0 ∷ 97 ∷ []

abbrev complete_bytes : List ℕ
complete_bytes = 0 ∷ 0 ∷ 0 ∷ 5 ∷ 6 ∷ 0 ∷ 0 ∷ 0 ∷ 7 ∷ []

answers-bytes : map made (map (answer_post little big) answers) ≡ alias_bytes ∷ complete_bytes ∷ []
unfolding to_network_endian push_back_val push_each push_back_utf16 push_back_sized_utf16
    push_back_val_at ◌>>◌ counted push_byte push_room for_each push_total store_total make
    push_alias make_attr_alias_msg make_origin_alias_msg make_request_complete
answers-bytes = refl

aliases-sent : send_buffer (round 10 ∷ round 9 ∷ []) alias_bytes socket ≡ (
  returned tt,
  socket,
  send (some 4) (take 10 alias_bytes) ∷ send (some 4) (drop 10 alias_bytes) ∷ [],
)
unfolding send_buffer send_loop logged converted taken_by
aliases-sent = refl

complete-sent :
    send_buffer (round 9 ∷ []) complete_bytes socket
    ≡ (returned tt, socket, send (some 4) complete_bytes ∷ [])
unfolding send_buffer send_loop logged converted taken_by
complete-sent = refl

abbrev answer_calls : List Call
answer_calls =
    send (some 4) (take 10 alias_bytes)
    ∷ send (some 4) (drop 10 alias_bytes)
    ∷ send (some 4) complete_bytes
    ∷ []

answers-Sent : Sent (map made (map (answer_post little big) answers)) socket answer_calls
answers-Sent =
    subst (λ ms. Sent ms socket answer_calls) (sym answers-bytes)
      (one_more (round 10 ∷ round 9 ∷ []) alias_bytes _ socket socket _ _ (omega arith) aliases-sent
        (one_more (round 9 ∷ []) complete_bytes [] socket socket _ [] (omega arith) complete-sent
          (nothing socket)))

-- The chunks end in the middle of either message.
abbrev answer_events : List Event
answer_events =
    chunk 0 (0 ∷ 0 ∷ [])
    ∷ again
    ∷ chunk 15 (drop 4 alias_bytes ++ (0 ∷ 0 ∷ []))
    ∷ chunk 0 (drop 3 complete_bytes)
    ∷ []

answers-AreSendable : All IsSendable (map (answer_post little big) answers)
answers-AreSendable =
    let short : All (λ m. length m < 2 ^ 31) (map made (map (answer_post little big) answers)) =
      subst (All (λ m. length m < 2 ^ 31)) (sym answers-bytes) (omega arith) in
    ((omega arith, short.0), ((omega arith, short.1.0), tt))

answers-Arrive_example :
    Arrive big (new_receiver answer_events []) (map (answer_post little big) answers)
answers-Arrive_example =
    answers-Arrive little big answers socket answer_calls answer_events answers-AreSendable
      answers-Sent tt refl

abbrev reports : List Report
reports = created (97 ∷ []) 600 (111 ∷ []) ∷ deleted [] (111 ∷ []) ∷ []

abbrev create_bytes : List ℕ
create_bytes =
    0 ∷ 0 ∷ 0 ∷ 17 ∷ 5 ∷ 0 ∷ 0 ∷ 0 ∷ 2 ∷ 0 ∷ 97 ∷ 0 ∷ 0 ∷ 0 ∷ 0 ∷ 0 ∷ 0 ∷ 2 ∷ 88 ∷ 0 ∷ 111 ∷ []

abbrev delete_bytes : List ℕ
delete_bytes = 0 ∷ 0 ∷ 0 ∷ 7 ∷ 7 ∷ 0 ∷ 0 ∷ 0 ∷ 0 ∷ 0 ∷ 111 ∷ []

reports-bytes : map made (map (report_post little big) reports) ≡ create_bytes ∷ delete_bytes ∷ []
unfolding to_network_endian push_back_val push_each push_back_utf16 push_back_sized_utf16
    push_back_val_at ◌>>◌ counted push_byte push_room for_each push_total store_total make
    make_create_uri make_delete_uri
reports-bytes = refl

create-sent :
    send_buffer (round 21 ∷ []) create_bytes socket
    ≡ (returned tt, socket, send (some 4) create_bytes ∷ [])
unfolding send_buffer send_loop logged converted taken_by
create-sent = refl

delete-sent :
    send_buffer (round 11 ∷ []) delete_bytes socket
    ≡ (returned tt, socket, send (some 4) delete_bytes ∷ [])
unfolding send_buffer send_loop logged converted taken_by
delete-sent = refl

abbrev report_calls : List Call
report_calls = send (some 4) create_bytes ∷ send (some 4) delete_bytes ∷ []

reports-Sent : Sent (map made (map (report_post little big) reports)) socket report_calls
reports-Sent =
    subst (λ ms. Sent ms socket report_calls) (sym reports-bytes)
      (one_more (round 21 ∷ []) create_bytes _ socket socket _ _ (omega arith) create-sent (
        one_more (round 11 ∷ []) delete_bytes [] socket socket _ [] (omega arith) delete-sent
          (nothing socket)))

-- Both messages come in one chunk.
abbrev report_events : List Event
report_events = chunk 0 (drop 1 create_bytes ++ delete_bytes) ∷ []

reports-AreSendable : All IsSendable (map (report_post little big) reports)
reports-AreSendable =
    let short : All (λ m. length m < 2 ^ 31) (map made (map (report_post little big) reports)) =
      subst (All (λ m. length m < 2 ^ 31)) (sym reports-bytes) (omega arith) in
    ((omega arith, short.0), ((omega arith, short.1.0), tt))

reports-Arrive_example :
    Arrive big (new_receiver report_events []) (map (report_post little big) reports)
reports-Arrive_example =
    reports-Arrive little big reports socket report_calls report_events reports-AreSendable
      reports-Sent tt refl
