-- ===== src/Tests/Edges.antt =====
-- Messages that are turned away, and those with fixed bytes, at concrete values.
use cpp_owl_common.Prelude.{ℕ, ◌≡◌, List, [], ◌∷◌, ◌++◌, arith}
use cpp_owl_common.Netbuffer.Endian.{little, big}
use cpp_owl_common.Message.Decode.Rejects.{packet, IsPacket}
use cpp_owl_common.WorldModel.Client.Request.{
  new_request, decode_snapshot_request, decode_range_request, decode_stream_request,
}
use cpp_owl_common.WorldModel.Client.Rejects.{decode_requests-misfit}
use cpp_owl_common.WorldModel.Handshake.{
  client_protocol_string, solver_protocol_string, aggregator_protocol_string,
  sensor_protocol_string, make_aggregator_handshake_msg, make_sensor_handshake_msg,
  make_client_handshake_msg, make_solver_handshake_msg, make_handshake_msgs-wire,
}

-- A message cut off after its second byte of content: its length field says nine.
abbrev cut_off : List ℕ
cut_off = packet 9 2 (0 ∷ 7 ∷ [])

cut_off-IsPacket : IsPacket 9 2 (0 ∷ 7 ∷ [])
cut_off-IsPacket = omega arith

decode_requests-misfit_example :
    (decode_snapshot_request big 5 6 cut_off ≡ (new_request 5 6, 0))
    × ((decode_range_request big 5 6 cut_off).0 ≡ (new_request 5 6, 0))
    × ((decode_stream_request big 5 6 cut_off).0 ≡ (new_request 5 6, 0))
decode_requests-misfit_example =
    decode_requests-misfit big 5 6 9 2 (0 ∷ 7 ∷ []) cut_off-IsPacket (omega arith)

make_handshake_msgs-wire_example :
    (make_client_handshake_msg little ≡ 0 ∷ 0 ∷ 0 ∷ 21 ∷ (client_protocol_string ++ (0 ∷ 0 ∷ [])))
    × (make_solver_handshake_msg little ≡ 0 ∷ 0 ∷ 0 ∷ 26 ∷ (solver_protocol_string ++ (0 ∷ 0 ∷ [])))
    × (make_aggregator_handshake_msg little
        ≡ 0 ∷ 0 ∷ 0 ∷ 21 ∷ (aggregator_protocol_string ++ (0 ∷ 0 ∷ [])))
    × (make_sensor_handshake_msg little ≡ 0 ∷ 0 ∷ 0 ∷ 21 ∷ (sensor_protocol_string ++ (0 ∷ 0 ∷ [])))
make_handshake_msgs-wire_example = make_handshake_msgs-wire little
