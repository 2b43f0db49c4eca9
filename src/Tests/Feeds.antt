-- ===== src/Tests/Feeds.antt =====
-- A sample on its way from an aggregator to a solver, at concrete values.
use cpp_owl_common.Prelude.{
  ℕ, ◌^◌, ◌<◌, ◌≡◌, refl, sym, subst, All, List, [], ◌∷◌, length, map, drop, take, true, some,
  arith,
}
use cpp_owl_common.Netbuffer.Endian.{little, big, to_network_endian}
use cpp_owl_common.Netbuffer.Push.{
  push_bytes, push_back_val, push_each, push_container, push_back_val_at, copy_into,
}
use cpp_owl_common.Message.Draft.{
  ◌>>◌, counted, push_byte, push_room, push_total, store_total, make,
}
use cpp_owl_common.Receiver.{Event, chunk, new_receiver}
use cpp_owl_common.Sockets.{
  Call, returned, send, logged, converted, taken_by, send_loop, send_buffer,
}
use cpp_owl_common.Sockets.Delivery.{Sent, nothing, one_more}
use cpp_owl_common.Sample.{SampleData, push_sample, push_sense_data}
use cpp_owl_common.Aggregator.{make_sample_msg}
use cpp_owl_common.Exchange.Codec.{made, IsSendable, Arrive}
use cpp_owl_common.Exchange.Samples.{aggregator_to_solver, sample_post, samples-Arrive}
use cpp_owl_common.Tests.Samples.{a_sample, memory}
use cpp_owl_common.Tests.Exchange.{socket, round}

abbrev samples : List SampleData
samples = record a_sample { valid = true } ∷ []

abbrev sample_bytes : List ℕ
sample_bytes =
    0 ∷ 0 ∷ 0 ∷ 48 ∷ 6 ∷ 1 ∷ 0 ∷ 0 ∷ 0 ∷ 0 ∷ 0 ∷ 0 ∷ 0 ∷ 1 ∷ 0 ∷ 0 ∷ 0 ∷ 0 ∷ 0 ∷ 0 ∷ 0 ∷ 0 ∷ 0 ∷ 0
    ∷ 0 ∷ 0 ∷ 0 ∷ 0 ∷ 0 ∷ 0 ∷ 128 ∷ 0 ∷ 0 ∷ 0 ∷ 0 ∷ 0 ∷ 0 ∷ 0 ∷ 0 ∷ 0 ∷ 1 ∷ 0 ∷ 0 ∷ 0 ∷ 0 ∷ 0 ∷ 0
    ∷ 0 ∷ 0 ∷ 7 ∷ 255 ∷ 3 ∷ []

sample-bytes :
    map made (map (sample_post aggregator_to_solver little big memory) samples) ≡ sample_bytes ∷ []
unfolding to_network_endian push_bytes push_back_val push_each push_container push_back_val_at
    copy_into ◌>>◌ counted push_byte push_room push_total store_total make push_sample
    push_sense_data make_sample_msg
sample-bytes = refl

sample-sent :
    send_buffer (round 52 ∷ []) sample_bytes socket
    ≡ (returned tt, socket, send (some 4) sample_bytes ∷ [])
unfolding send_buffer send_loop logged converted taken_by
sample-sent = refl

abbrev calls : List Call
calls = send (some 4) sample_bytes ∷ []

samples-Sent :
    Sent (map made (map (sample_post aggregator_to_solver little big memory) samples)) socket calls
samples-Sent =
    subst (λ ms. Sent ms socket calls) (sym sample-bytes)
      (one_more (round 52 ∷ []) sample_bytes [] socket socket _ [] (omega arith) sample-sent
        (nothing socket))

abbrev events : List Event
events = chunk 0 (drop 1 (take 30 sample_bytes)) ∷ chunk 128 (drop 31 sample_bytes) ∷ []

samples-AreSendable :
    All IsSendable (map (sample_post aggregator_to_solver little big memory) samples)
samples-AreSendable =
    let short : All (λ m. length m < 2 ^ 31)
        (map made (map (sample_post aggregator_to_solver little big memory) samples)) =
      subst (All (λ m. length m < 2 ^ 31)) (sym sample-bytes) (omega arith) in
    (((omega arith, refl), short.0), tt)

samples-Arrive_example :
    Arrive big
      (new_receiver events [])
      (map (sample_post aggregator_to_solver little big memory) samples)
samples-Arrive_example =
    samples-Arrive aggregator_to_solver little big memory samples socket calls events
      samples-AreSendable samples-Sent tt refl
