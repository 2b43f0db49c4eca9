-- ===== src/Exchange/Samples.antt =====
-- Samples on their way from a sensor to an aggregator, and from an aggregator to a solver: the calls of
-- `makeSampleMsg` of either protocol, `ClientSocket::send`, `MessageReceiver::getNextMessage` and
-- `decodeSampleMsg`. The caller passes the message's length to the decoder.
use cpp_owl_common.Prelude.{◌≡◌, sym, ◌∙◌, List, [], ◌∷◌, true, length, map, All, arith}
use cpp_owl_common.Netbuffer.Endian.{Host}
use cpp_owl_common.Receiver.{Event, new_receiver}
use cpp_owl_common.Receiver.Rounds.{bytes_of, AreQuiet}
use cpp_owl_common.Sockets.{ClientSocket, Call}
use cpp_owl_common.Sockets.Stream.{taken}
use cpp_owl_common.Sockets.Delivery.{Sent}
use cpp_owl_common.Sample.{SampleData}
use cpp_owl_common.Sample.Laws.{IsSample, wire_sample}
use cpp_owl_common.Sensor
use cpp_owl_common.Sensor.RoundTrip
use cpp_owl_common.Aggregator
use cpp_owl_common.Aggregator.Samples
use cpp_owl_common.Exchange.Codec.{Codec, Post, made, IsSendable, Arrive, posts-Arrive}

-- `memory` is what the memory of the decoder's result holds. `valid` does not travel, and is set by the
-- decoder.
module _ (h h' : Host) (memory : SampleData) where
  abbrev pub sensor_sample_codec : Codec
  sensor_sample_codec = record {
    Message = SampleData;
    make = Sensor.make_sample_msg h;
    decode = λ message. Sensor.decode_sample_msg h' memory message (length message);
    IsMessage = λ s. IsSample s × (s.valid ≡ true);
    body = wire_sample;
    make-frame = RoundTrip.make_sample_msg-frame h;
    decode-make = λ s ok short.
        RoundTrip.decode-make_sensor_sample_msg h h' memory s ok.0 (omega (arith, short))
        ∙ (λ i. record s { valid = sym ok.1 i });
  }

  abbrev pub aggregator_sample_codec : Codec
  aggregator_sample_codec = record {
    Message = SampleData;
    make = Aggregator.make_sample_msg h;
    decode = λ message. Aggregator.decode_sample_msg h' memory message (length message);
    IsMessage = λ s. IsSample s × (s.valid ≡ true);
    body = λ s. 6 ∷ wire_sample s;
    make-frame = Samples.make_sample_msg-frame h;
    decode-make = λ s ok short.
        Samples.decode-make_aggregator_sample_msg h h' memory s ok.0 (omega (arith, short))
        ∙ (λ i. record s { valid = sym ok.1 i });
  }

-- The two connections that carry samples.
pub data Connection : Type 0 where
  sensor_to_aggregator aggregator_to_solver : Connection

abbrev pub sample_post : Connection → Host → Host → SampleData → SampleData → Post
sample_post sensor_to_aggregator h h' memory s = (sensor_sample_codec h h' memory, s)
sample_post aggregator_to_solver h h' memory s = (aggregator_sample_codec h h' memory, s)

-- The valid samples that a sensor sends to an aggregator, or an aggregator to a solver, on any hosts,
-- in calls of `send` that all return, are what the other side gets, in the same order, from successive
-- calls of `getNextMessage` of a new receiver and the decoder of samples: if their values fit their
-- types and their messages are shorter than 2 ^ 31 bytes, no call of the system takes more bytes than
-- it is given, and the stream, however it is cut into chunks, carries exactly the bytes that the system
-- took, with no error and no end and nobody interrupting.
pub samples-Arrive :
    (on : Connection) (h h' : Host) (memory : SampleData) (samples : List SampleData)
    (socket : ClientSocket) (calls : List Call) (events : List Event)
    → All IsSendable (map (sample_post on h h' memory) samples)
    → Sent (map made (map (sample_post on h h' memory) samples)) socket calls
    → AreQuiet events
    → bytes_of events ≡ taken calls
    → Arrive h' (new_receiver events []) (map (sample_post on h h' memory) samples)
samples-Arrive on h h' memory samples socket calls events =
    posts-Arrive h' (map (sample_post on h h' memory) samples) socket calls events
