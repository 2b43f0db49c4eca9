-- ===== src/Tests/Samples.antt =====
-- Identifiers, transmitters, samples and subscriptions at concrete values, made on one host and read
-- on the other.
use cpp_owl_common.Prelude.{
  ◌+◌, ◌*◌, ◌%◌, ◌^◌, u32_mod, ◌≡◌, refl, List, [], ◌∷◌, ◌++◌, length, true, false, ltb, ◌==◌, ◌&&◌,
  arith,
}
use cpp_owl_common.Netbuffer.Endian.{little, big, big_bytes}
use cpp_owl_common.Message.Draft.Laws.{frame}
use cpp_owl_common.Message.Decode.Rejects.{packet}
use cpp_owl_common.Tests.Sizes.{size}
use cpp_owl_common.Uint128.{Uint128, is_less, is_equal}
use cpp_owl_common.Uint128.Order.{number, is_less-eq-ltb}
use cpp_owl_common.Uint128.Print.{print, print-collision}
use cpp_owl_common.Sample.{SampleData, push_sense_data, push_sample}
use cpp_owl_common.Aggregator
use cpp_owl_common.Aggregator.{
  Rule, push_transmitter, push_rule, push_rules, make_subscribe_req_msg, decode_subscribe_msg,
}
use cpp_owl_common.Aggregator.Subscribe.{decode-make_subscribe_req_msg, length-decode_subscribe_msg}
use cpp_owl_common.Aggregator.Samples.{decode-make_aggregator_sample_msg, decode_sample_msg-valid}
use cpp_owl_common.Grail
use cpp_owl_common.Grail.{phy_part, upper_part, lower_part, write_transmitter}
use cpp_owl_common.Grail.RoundTrip.{read-write_transmitter}

abbrev tall : Uint128
tall = record { upper = 1; lower = 0 }

abbrev wide : Uint128
wide = record { upper = 0; lower = 2 ^ 63 }

is_less-eq-ltb_example :
    (is_less tall wide ≡ ltb (number tall) (number wide))
    × (is_equal tall wide ≡ (number tall == number wide))
is_less-eq-ltb_example = is_less-eq-ltb tall wide (omega arith) (omega arith)

print-collision_example :
    print (record { upper = 16 * 1 + 2; lower = 0 }) ≡ print (record { upper = 1; lower = 16 * 2 })
print-collision_example =
    print-collision 1 2 (omega arith) (omega arith) (omega arith) (omega arith)

abbrev pub a_sample : SampleData
a_sample = record {
  physical_layer = 1;
  tx_id = tall;
  rx_id = wide;
  rx_timestamp = 2 ^ 40;
  rss = 7;
  sense_data = 255 ∷ 3 ∷ [];
  valid = false;
}

abbrev pub memory : SampleData
memory = record {
  physical_layer = 9;
  tx_id = wide;
  rx_id = wide;
  rx_timestamp = 9;
  rss = 9;
  sense_data = [];
  valid = true;
}

aggregator_size : length (Aggregator.make_sample_msg little a_sample) ≡ 52
unfolding size Aggregator.make_sample_msg push_sample push_sense_data
aggregator_size = refl

decode-make_aggregator_sample_msg_example :
    Aggregator.decode_sample_msg big memory
      (Aggregator.make_sample_msg little a_sample)
      (length (Aggregator.make_sample_msg little a_sample))
    ≡ record a_sample { valid = true }
decode-make_aggregator_sample_msg_example =
    decode-make_aggregator_sample_msg little big memory a_sample (omega arith)
      (omega (arith, aggregator_size))

-- A sample of which one byte has arrived.
decode_sample_msg-valid_example :
    (Aggregator.decode_sample_msg big memory (packet 2 6 (1 ∷ [])) 6).valid
    ≡ (ltb 4 6 && ((2 + 4) % u32_mod == 6 && 6 == 6))
decode_sample_msg-valid_example = decode_sample_msg-valid big memory 2 6 (1 ∷ []) 6 (omega arith)

abbrev two_rules : List Rule
two_rules =
    record {
      physical_layer = 1;
      txers = record { base_id = tall; mask = wide } ∷ [];
      update_interval = 500;
    }
    ∷ record { physical_layer = 2; txers = []; update_interval = 2 ^ 33 }
    ∷ []

subscription_size : length (make_subscribe_req_msg little two_rules) ≡ 67
unfolding size make_subscribe_req_msg push_rules push_rule push_transmitter
subscription_size = refl

decode-make_subscribe_req_msg_example :
    decode_subscribe_msg big
      (make_subscribe_req_msg little two_rules)
      (length (make_subscribe_req_msg little two_rules))
    ≡ two_rules
decode-make_subscribe_req_msg_example =
    decode-make_subscribe_req_msg little big two_rules (omega arith) (omega arith)
      (omega (arith, subscription_size))

short_size : length (frame (3 ∷ (big_bytes 4 2 ++ []))) ≡ 9
unfolding frame big_bytes
short_size = refl

length-decode_subscribe_msg_example :
    length (
      decode_subscribe_msg big
        (frame (3 ∷ (big_bytes 4 2 ++ [])))
        (length (frame (3 ∷ (big_bytes 4 2 ++ [])))))
    ≡ 2
length-decode_subscribe_msg_example =
    length-decode_subscribe_msg big 2 [] (omega arith) (omega (arith, short_size))

abbrev a_transmitter : Grail.Transmitter
a_transmitter = record { phy = 1; id = wide }

read-write_transmitter_example :
    Grail.read_transmitter big
      (write_transmitter little phy_part upper_part lower_part a_transmitter []).0
    ≡ a_transmitter
read-write_transmitter_example = read-write_transmitter little big a_transmitter (omega arith)
