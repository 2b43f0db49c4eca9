-- ===== src/Aggregator.antt =====
-- aggregator_solver_protocol.hpp and aggregator_solver_protocol.cpp: subscriptions of solvers to an
-- aggregator, and the samples that it sends them.
pub mod Subscribe
pub mod Samples
use cpp_owl_common.Prelude.{
  ℕ, ◌+◌, ◌%◌, List, [], length, true, ltb, ◌==◌, ◌&&◌, ◌||◌, if◌then◌else◌, u32_mod,
}
use cpp_owl_common.Netbuffer.Endian.{Host}
use cpp_owl_common.Netbuffer.Primitive.{uint8, uint32, uint64}
use cpp_owl_common.Netbuffer.Push.{Buffer, push_back_val}
use cpp_owl_common.Netbuffer.Reader.{new_reader, Read, ◌>>=◌, pure, read_primitive, read_loop}
use cpp_owl_common.Message.Draft.{
  Draft, ◌>>◌, empty, counted, for_each, push_byte, push_room, store_total,
}
use cpp_owl_common.Message.Decode.{read_header}
use cpp_owl_common.Uint128.{Uint128, uint128}
use cpp_owl_common.Sample.{SampleData, new_sample, push_sample, read_sample}

pub data MessageId : Type 0 where
  keep_alive certificate ack_certificate subscription_request subscription_response : MessageId
  device_position server_sample buffer_overrun : MessageId

abbrev pub id_of : MessageId → ℕ
id_of keep_alive = 0
id_of certificate = 1
id_of ack_certificate = 2
id_of subscription_request = 3
id_of subscription_response = 4
id_of device_position = 5
id_of server_sample = 6
id_of buffer_overrun = 7

-- An identifier and a mask, which give a range.
pub record Transmitter : Type 0 where
  pub base_id : Uint128
  pub mask : Uint128

pub record Rule : Type 0 where
  pub physical_layer : ℕ
  pub txers : List Transmitter
  pub update_interval : ℕ

abbrev pub Subscription : Type 0
Subscription = List Rule

module _ (h : Host) where
  unfoldable pub push_transmitter : Transmitter → Draft → Draft
  push_transmitter txer = do
    counted (push_back_val h uint128 txer.base_id)
    counted (push_back_val h uint128 txer.mask)

  unfoldable pub push_rule : Rule → Draft → Draft
  push_rule rule = do
    counted (push_back_val h uint8 rule.physical_layer)
    counted (push_back_val h uint32 (length rule.txers % u32_mod))
    for_each push_transmitter rule.txers
    counted (push_back_val h uint64 rule.update_interval)

  unfoldable pub push_rules : Subscription → Draft → Draft
  push_rules rules = do
    counted (push_back_val h uint32 (length rules % u32_mod))
    for_each push_rule rules

  unfoldable pub make_subscribe_req_msg : Subscription → Buffer
  make_subscribe_req_msg rules =
      ((do push_room; push_byte (id_of subscription_request); push_rules rules; store_total h)
        (empty 1)).buff

  unfoldable pub read_transmitter : Read Transmitter
  read_transmitter = do
    base_id ← read_primitive h uint128
    mask ← read_primitive h uint128
    pure (record { base_id = base_id; mask = mask })

  unfoldable pub read_rule : Read Rule
  read_rule = do
    physical_layer ← read_primitive h uint8
    num_txers ← read_primitive h uint32
    txers ← read_loop num_txers read_transmitter []
    update_interval ← read_primitive h uint64
    pure (record {
      physical_layer = physical_layer;
      txers = txers;
      update_interval = update_interval;
    })

  unfoldable pub read_rules : Read Subscription
  read_rules = do num_rules ← read_primitive h uint32; read_loop num_rules read_rule []

  -- `if (entire_length + 4 == length and (the type is one of the two)) { ... }`
  unfoldable pub checked_rules : ℕ → ℕ × ℕ → Read Subscription
  checked_rules length (entire_length, msg_type) reader =
      if (entire_length + 4) % u32_mod == length
        && (id_of subscription_request == msg_type || id_of subscription_response == msg_type)
      then read_rules reader
      else ([], reader)

  -- Reads out of range are not looked at.
  unfoldable pub decode_subscribe_msg : Buffer → ℕ → Subscription
  decode_subscribe_msg buff length =
      if ltb 4 length
      then ((read_header h >>= checked_rules length) (new_reader h buff true)).0
      else []

  unfoldable pub make_sample_msg : SampleData → Buffer
  make_sample_msg sample =
      ((do push_room; push_byte (id_of server_sample); push_sample h sample; store_total h)
        (empty 1)).buff

  unfoldable pub checked_sample : SampleData → ℕ → ℕ × ℕ → Read SampleData
  checked_sample sample length (entire_length, msg_type) reader =
      if (entire_length + 4) % u32_mod == length && id_of server_sample == msg_type
      then read_sample h length reader
      else (sample, reader)

  unfoldable pub decode_sample_msg : SampleData → Buffer → ℕ → SampleData
  decode_sample_msg memory buff length =
      if ltb 4 length
      then ((read_header h >>= checked_sample (new_sample memory) length)
          (new_reader h buff true)).0
      else new_sample memory
