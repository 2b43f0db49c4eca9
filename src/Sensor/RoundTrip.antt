-- ===== src/Sensor/RoundTrip.antt =====
-- A sensor's sample comes back.
use cpp_owl_common.Prelude.{
  ℕ, ◌+◌, ◌%◌, ◌<◌, ◌≡◌, refl, ap, subst, ◌∙◌, List, [], length, u32_mod, true, ltb, lt→ltb, eq→==,
  ◌==◌, arith,
}
use cpp_owl_common.Netbuffer.Endian.{Host, big_bytes}
use cpp_owl_common.Netbuffer.Endian.Laws.{length-big_bytes}
use cpp_owl_common.Netbuffer.Reader.{BuffReader, new_reader, ◌>>=◌}
use cpp_owl_common.Netbuffer.Reader.Reads.{reader_at}
use cpp_owl_common.Netbuffer.Reader.Sequences.{Reads-uint32}
use cpp_owl_common.Message.Draft.{◌>>◌, empty, push_room}
use cpp_owl_common.Message.Draft.Laws.{frame, length-frame, store-frame}
use cpp_owl_common.WorldModel.Types.{IsU32}
use cpp_owl_common.Sample.{SampleData, new_sample}
use cpp_owl_common.Sample.Laws.{
  IsSample, wire_sample, length-wire_sample, Emits-sample, ReadsTo-sample,
}
use cpp_owl_common.Sensor.{make_sample_msg, checked_sample, decode_sample_msg}

pub make_sample_msg-frame :
    (h : Host) (s : SampleData) → make_sample_msg h s ≡ frame (wire_sample s)
unfolding make_sample_msg ◌>>◌ push_room
make_sample_msg-frame h s =
    store-frame h {head = []} (push_room (empty 0)) (Emits-sample h s) refl (omega arith)

module _ (h : Host) (memory : SampleData) where
  -- The decoder goes on behind the length field.
  decode_sample_msg-header :
      (body : List ℕ) (size : ℕ)
      → length (frame body) < u32_mod
      → 4 < size
      → decode_sample_msg h memory (frame body) size
        ≡ (checked_sample h
            (new_sample memory)
            size
            (length body)
            (reader_at h (big_bytes 4 (length body)) body)).0
  unfolding decode_sample_msg ◌>>=◌ new_reader frame
  decode_sample_msg-header body size b four =
      let n = length body in
      let long : ltb 4 size ≡ true = lt→ltb 4 size four in
      rw long (
        ap (λ (p : ℕ × BuffReader). (checked_sample h (new_sample memory) size p.0 p.1).0)
          ((Reads-uint32 h n (omega (arith, length-frame body))).at [] body
            (omega (arith, length-frame body, length-big_bytes 4 n))))

-- A sample message made on any host, and decoded on any host with its own length, gives the sample,
-- marked as valid, if the values fit their types and the message is shorter than 2 ^ 32 bytes.
pub decode-make_sensor_sample_msg :
    (h h' : Host) (memory s : SampleData)
    → IsSample s
    → IsU32 (length (make_sample_msg h s))
    → decode_sample_msg h' memory (make_sample_msg h s) (length (make_sample_msg h s))
      ≡ record s { valid = true }
unfolding checked_sample
decode-make_sensor_sample_msg h h' memory s ok fits =
    let body = wire_sample s in
    let n = length body in
    let size = length (frame body) in
    let fits' = subst (λ b. IsU32 (length b)) (make_sample_msg-frame h s) fits in
    let test : ((n + 4) % u32_mod == size) ≡ true = eq→== _ _ (omega (arith, length-frame body)) in
    let four : 4 < size = omega (arith, length-frame body, length-wire_sample s) in
    ap (λ (b : List ℕ). decode_sample_msg h' memory b (length b)) (make_sample_msg-frame h s)
    ∙ decode_sample_msg-header h' memory body size fits' four
    ∙ rw test (
        ap (λ (p : SampleData × BuffReader). p.0)
          ((ReadsTo-sample h' size s ok).at (big_bytes 4 n)
            (omega (arith, length-frame body, length-big_bytes 4 n)) fits'))
