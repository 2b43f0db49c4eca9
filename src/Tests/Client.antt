-- ===== src/Tests/Client.antt =====
-- The messages of the client at concrete values, made on one host and decoded on the other.
use cpp_owl_common.Prelude.{◌^◌, ◌≡◌, ◌≢◌, refl, List, [], ◌∷◌, ◌++◌, length, none, arith}
use cpp_owl_common.Netbuffer.Endian.{little, big, big_bytes}
use cpp_owl_common.Netbuffer.Push.Laws.{wires, sized}
use cpp_owl_common.Message.Draft.Laws.{frame}
use cpp_owl_common.Tests.Sizes.{size}
use cpp_owl_common.WorldModel.Client.Request.{
  Request, make_snapshot_request, make_range_request, decode_snapshot_request, decode_range_request,
}
use cpp_owl_common.WorldModel.Client.Request.RoundTrip.{
  IsRequest, decode-make_snapshot_request, decode-make_range_request,
}
use cpp_owl_common.WorldModel.Client.Data.{
  AliasedWorldData, push_attribute, make_data_message, decode_data_message,
}
use cpp_owl_common.WorldModel.Client.Data.RoundTrip.{decode-make_data_message}
use cpp_owl_common.WorldModel.Client.Search.{make_uri_search_response, decode_uri_search_response}
use cpp_owl_common.WorldModel.Client.Search.RoundTrip.{decode-make_uri_search_response_ne}
use cpp_owl_common.WorldModel.Client.Preference.{left_first, decode_origin_preference}
use cpp_owl_common.WorldModel.Client.Preference.RoundTrip.{Weight, wire_weight}
use cpp_owl_common.WorldModel.Client.Preference.Endless.{decode_origin_preference_endless}

abbrev pub a_request : Request
a_request = record {
  object_uri = 97 ∷ 8364 ∷ [];
  attributes = (98 ∷ []) ∷ [] ∷ [];
  start = 1;
  stop_period = 2 ^ 40;
}

pub a_request-IsRequest : IsRequest a_request
a_request-IsRequest = omega arith

request_size : length (make_snapshot_request little a_request 7) ≡ 47
unfolding size make_snapshot_request
request_size = refl

decode-make_snapshot_request_example :
    decode_snapshot_request big 5 6 (make_snapshot_request little a_request 7) ≡ (a_request, 7)
decode-make_snapshot_request_example =
    decode-make_snapshot_request little big 5 6 a_request 7 a_request-IsRequest (omega arith)
      (omega (arith, request_size))

decode-make_range_request_example :
    decode_range_request big 5 6 (make_range_request little a_request 7)
    ≡ ((a_request, 7), make_snapshot_request little a_request 7)
decode-make_range_request_example =
    decode-make_range_request little big 5 6 a_request 7 a_request-IsRequest (omega arith)
      (omega (arith, request_size))

abbrev a_room : AliasedWorldData
a_room = record {
  object_uri = 114 ∷ [];
  attributes =
      record {
        name_alias = 1;
        creation_date = 2 ^ 33;
        expiration_date = 0;
        origin_alias = 4;
        bytes = 255 ∷ 0 ∷ [];
      }
      ∷ [];
}

room_size : length (make_data_message little a_room 9) ≡ 49
unfolding size make_data_message push_attribute
room_size = refl

decode-make_data_message_example :
    decode_data_message big (make_data_message little a_room 9) ≡ (a_room, 9)
decode-make_data_message_example =
    decode-make_data_message little big a_room 9 (omega arith) (omega arith)
      (omega (arith, room_size))

response_size : length (make_uri_search_response little ((97 ∷ []) ∷ [])) ≡ 11
unfolding size make_uri_search_response
response_size = refl

decode-make_uri_search_response_ne_example :
    decode_uri_search_response big (make_uri_search_response little ((97 ∷ []) ∷ []))
    ≢ (97 ∷ []) ∷ []
decode-make_uri_search_response_ne_example =
    decode-make_uri_search_response_ne little big ((97 ∷ []) ∷ []) (λ e. ground arith)
      (omega (arith, response_size))

abbrev two_weights : List Weight
two_weights = (97 ∷ [], 5) ∷ ([], 0) ∷ []

junk_size : length (frame (11 ∷ (wires wire_weight two_weights ++ (0 ∷ [])))) ≡ 24
unfolding frame big_bytes wire_weight sized
junk_size = refl

decode_origin_preference_endless_example :
    decode_origin_preference big left_first 100
      (frame (11 ∷ (wires wire_weight two_weights ++ (0 ∷ []))))
    ≡ none
decode_origin_preference_endless_example =
    decode_origin_preference_endless big two_weights (0 ∷ []) 100 (omega arith) (omega arith)
      (omega arith) (omega (arith, junk_size))
