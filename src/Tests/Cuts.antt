-- ===== src/Tests/Cuts.antt =====
-- Messages that are cut short, at concrete values.
use cpp_owl_common.Prelude.{◌^◌, ◌≡◌, refl, [], ◌∷◌, length, take, arith}
use cpp_owl_common.Netbuffer.Endian.{big, big_bytes}
use cpp_owl_common.Netbuffer.Push.Laws.{sized, sized_utf16}
use cpp_owl_common.Message.Draft.Laws.{frame}
use cpp_owl_common.Tests.Client.{a_request, a_request-IsRequest}
use cpp_owl_common.WorldModel.Client.Request.{
  empty_request, decode_snapshot_request, decode_range_request, decode_stream_request,
}
use cpp_owl_common.WorldModel.Client.Request.RoundTrip.{wire_request}
use cpp_owl_common.WorldModel.Client.Cut.{decode_requests-cut}
use cpp_owl_common.WorldModel.Client.Data.{AliasedAttribute, decode_data_message}
use cpp_owl_common.WorldModel.Client.Data.RoundTrip.{wire_attribute}
use cpp_owl_common.WorldModel.Client.Data.Short.{
  wire_announcing, wire_short, decode_data_message-short,
}
use cpp_owl_common.WorldModel.Solver.Change.{
  decode_create_uri, decode_expire_uri, decode_expire_attribute, decode_delete_uri,
  decode_delete_attribute,
}
use cpp_owl_common.WorldModel.Solver.Cut.{
  front_timed_uri, front_attribute, front_timed_attribute, decode_changes-cut,
}

request_size : length (wire_request a_request 7) ≡ 42
unfolding wire_request sized big_bytes
request_size = refl

-- All that is missing is the last byte.
decode_requests-cut_example :
    ((decode_snapshot_request big 5 6 (frame (1 ∷ take 41 (wire_request a_request 7)))).0
      ≡ empty_request)
    × ((decode_range_request big 5 6 (frame (2 ∷ take 41 (wire_request a_request 7)))).0.0
        ≡ empty_request)
    × ((decode_stream_request big 5 6 (frame (3 ∷ take 41 (wire_request a_request 7)))).0.0
        ≡ empty_request)
decode_requests-cut_example =
    decode_requests-cut big 5 6 a_request 7 41 a_request-IsRequest (omega arith)
      (omega (arith, request_size)) (omega (arith, request_size))

uri_size : length (sized_utf16 (97 ∷ [])) ≡ 6
unfolding sized big_bytes
uri_size = refl

timed_uri_size : length (front_timed_uri (97 ∷ []) 600) ≡ 14
unfolding sized big_bytes
timed_uri_size = refl

attribute_size : length (front_attribute (97 ∷ []) []) ≡ 10
unfolding sized big_bytes
attribute_size = refl

timed_attribute_size : length (front_timed_attribute (97 ∷ []) [] 600) ≡ 18
unfolding sized big_bytes
timed_attribute_size = refl

decode_changes-cut_example :
    (decode_create_uri big (frame (5 ∷ take 13 (front_timed_uri (97 ∷ []) 600))) ≡ ([], 0, []))
    × (decode_expire_uri big (frame (6 ∷ take 13 (front_timed_uri (97 ∷ []) 600))) ≡ ([], 0, []))
    × (decode_delete_uri big (frame (7 ∷ take 4 (sized_utf16 (97 ∷ [])))) ≡ ([], []))
    × (decode_expire_attribute big (frame (8 ∷ take 0 (front_timed_attribute (97 ∷ []) [] 600)))
        ≡ ([], [], 0, []))
    × (decode_delete_attribute big (frame (9 ∷ take 9 (front_attribute (97 ∷ []) [])))
        ≡ ([], [], []))
decode_changes-cut_example =
    decode_changes-cut big (97 ∷ []) [] 600 13 4 0 9 (omega arith) (omega arith)
      (omega (arith, timed_attribute_size)) (omega (arith, timed_uri_size))
      (omega (arith, uri_size)) (omega (arith, timed_attribute_size))
      (omega (arith, attribute_size))

-- An attribute of two bytes.
abbrev an_attribute : AliasedAttribute
an_attribute = record {
  name_alias = 1;
  creation_date = 2 ^ 33;
  expiration_date = 0;
  origin_alias = 4;
  bytes = 255 ∷ 0 ∷ [];
}

short_size : length (frame (8 ∷ wire_short (114 ∷ []) 9 (an_attribute ∷ []) 100 an_attribute)) ≡ 79
unfolding frame wire_short wire_announcing wire_attribute sized big_bytes
short_size = refl

-- The second attribute announces a hundred bytes and holds two.
decode_data_message-short_example :
    decode_data_message big
      (frame (8 ∷ wire_short (114 ∷ []) 9 (an_attribute ∷ []) 100 an_attribute))
    ≡ (record { object_uri = 114 ∷ []; attributes = an_attribute ∷ an_attribute ∷ [] }, 9)
decode_data_message-short_example =
    decode_data_message-short big (114 ∷ []) 9 (an_attribute ∷ []) 100 an_attribute (omega arith)
      (omega arith) (omega arith) (omega arith) (omega arith) (omega arith) (omega arith)
      (omega (arith, short_size))
