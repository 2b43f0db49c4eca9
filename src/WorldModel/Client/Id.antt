-- ===== src/WorldModel/Client/Id.antt =====
-- `enum class client::MessageID : uint8_t`
use cpp_owl_common.Prelude.{ℕ}

pub data MessageId : Type 0 where
  keep_alive snapshot_request range_request stream_request attribute_alias origin_alias : MessageId
  request_complete cancel_request data_response uri_search uri_response : MessageId
  origin_preference : MessageId

abbrev pub id_of : MessageId → ℕ
id_of keep_alive = 0
id_of snapshot_request = 1
id_of range_request = 2
id_of stream_request = 3
id_of attribute_alias = 4
id_of origin_alias = 5
id_of request_complete = 6
id_of cancel_request = 7
id_of data_response = 8
id_of uri_search = 9
id_of uri_response = 10
id_of origin_preference = 11
