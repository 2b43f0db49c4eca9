-- ===== src/Sample.antt =====
-- sample_data.hpp and sample_data.cpp: the 128-bit identifiers, and the data about a packet that went
-- from a transmitter to a receiver. The sample messages of the aggregator and of the sensors hold the
-- same fields, and their functions repeat the statements below.
pub mod Laws
use cpp_owl_common.Prelude.{
  ℕ, ◌+◌, ◌-◌, ◌%◌, List, [], Bool, true, false, length, replicate, ltb, if◌then◌else◌, u32_mod,
}
use cpp_owl_common.Netbuffer.Endian.{Host}
use cpp_owl_common.Netbuffer.Primitive.{uint8, uint32, uint64}
use cpp_owl_common.Netbuffer.Push.{push_back_val, push_container}
use cpp_owl_common.Netbuffer.Reader.{Read, ◌>>=◌, pure, read_primitive, read_primitive_container}
use cpp_owl_common.Message.Draft.{Draft, ◌>>◌, counted}
use cpp_owl_common.Uint128.{Uint128, uint128}

-- `rss` is the bit pattern of a float, and `rx_timestamp` that of an int64_t.
pub record SampleData : Type 0 where
  pub physical_layer : ℕ
  pub tx_id : Uint128
  pub rx_id : Uint128
  pub rx_timestamp : ℕ
  pub rss : ℕ
  pub sense_data : List ℕ
  pub valid : Bool

-- `SampleData sample; sample.valid = false;` leaves the numbers with the values that the memory
-- happens to hold.
unfoldable pub new_sample : SampleData → SampleData
new_sample memory = record memory { sense_data = []; valid = false }

module _ (h : Host) where
  -- `if (sample.sense_data.size() > 0) { total_length += pushContainer(sample.sense_data, buff); }`
  unfoldable pub push_sense_data : List ℕ → Draft → Draft
  push_sense_data sense_data d =
      if ltb 0 (length sense_data) then counted (push_container h uint8 sense_data) d else d

  unfoldable pub push_sample : SampleData → Draft → Draft
  push_sample sample = do
    counted (push_back_val h uint8 sample.physical_layer)
    counted (push_back_val h uint128 sample.tx_id)
    counted (push_back_val h uint128 sample.rx_id)
    counted (push_back_val h uint64 sample.rx_timestamp)
    counted (push_back_val h uint32 sample.rss)
    push_sense_data sample.sense_data

  -- `unsigned int left = length - reader.cur_index`, in an unsigned int, and as many bytes.
  unfoldable pub read_sense_data : ℕ → Read (List ℕ)
  read_sense_data length reader =
      let left = (length + u32_mod - reader.cur_index) % u32_mod in
      read_primitive_container h uint8 (replicate left 0) reader

  unfoldable pub read_sample : ℕ → Read SampleData
  read_sample length = do
    physical_layer ← read_primitive h uint8
    tx_id ← read_primitive h uint128
    rx_id ← read_primitive h uint128
    rx_timestamp ← read_primitive h uint64
    rss ← read_primitive h uint32
    sense_data ← read_sense_data length
    pure (record {
      physical_layer = physical_layer;
      tx_id = tx_id;
      rx_id = rx_id;
      rx_timestamp = rx_timestamp;
      rss = rss;
      sense_data = sense_data;
      valid = true;
    })
