-- ===== src/Sensor.antt =====
-- sensor_aggregator_protocol.hpp and sensor_aggregator_protocol.cpp: the messages from sensors to the
-- aggregator.
pub mod RoundTrip
pub mod Validity
use cpp_owl_common.Prelude.{ℕ, ◌+◌, ◌%◌, true, ltb, ◌==◌, if◌then◌else◌, u32_mod}
use cpp_owl_common.Netbuffer.Endian.{Host}
use cpp_owl_common.Netbuffer.Primitive.{uint32}
use cpp_owl_common.Netbuffer.Push.{Buffer}
use cpp_owl_common.Netbuffer.Reader.{new_reader, Read, ◌>>=◌, read_primitive}
use cpp_owl_common.Message.Draft.{◌>>◌, empty, push_room, store_total}
use cpp_owl_common.Sample.{SampleData, new_sample, push_sample, read_sample}

module _ (h : Host) where
  unfoldable pub make_sample_msg : SampleData → Buffer
  make_sample_msg sample = ((do push_room; push_sample h sample; store_total h) (empty 0)).buff

  -- What follows the length field, if it fits `length`; the sample is unchanged otherwise.
  unfoldable pub checked_sample : SampleData → ℕ → ℕ → Read SampleData
  checked_sample sample length entire_length reader =
      if (entire_length + 4) % u32_mod == length
      then read_sample h length reader
      else (sample, reader)

  unfoldable pub decode_sample_msg : SampleData → Buffer → ℕ → SampleData
  decode_sample_msg memory buff length =
      if ltb 4 length
      then ((read_primitive h uint32 >>= checked_sample (new_sample memory) length)
          (new_reader h buff true)).0
      else new_sample memory
