-- ===== src/Sensor/Validity.antt =====
-- When a sensor's sample is marked as valid.
use cpp_owl_common.Prelude.{
  ℕ, ◌+◌, ◌%◌, ◌≡◌, refl, ap, ◌∙◌, List, [], ◌++◌, length, u32_mod, false, Bool-cases, inl, inr,
  ltb, ◌==◌, ◌&&◌, arith,
}
use cpp_owl_common.Netbuffer.Endian.{Host, big_bytes}
use cpp_owl_common.Netbuffer.Endian.Laws.{length-big_bytes}
use cpp_owl_common.Netbuffer.Reader.{BuffReader, new_reader, ◌>>=◌}
use cpp_owl_common.Netbuffer.Reader.Reads.{reader_at}
use cpp_owl_common.Netbuffer.Reader.Sequences.{Reads-uint32}
use cpp_owl_common.WorldModel.Types.{IsU32}
use cpp_owl_common.Sample.{SampleData, new_sample}
use cpp_owl_common.Sample.Laws.{read_sample-valid}
use cpp_owl_common.Sensor.{checked_sample, decode_sample_msg}

checked_sample-valid :
    (h : Host) (sample : SampleData)
    → sample.valid ≡ false
    → (n size : ℕ) (r : BuffReader)
    → (checked_sample h sample size n r).0.valid ≡ ((n + 4) % u32_mod == size)
unfolding checked_sample
checked_sample-valid h sample e n size r = elim (Bool-cases ((n + 4) % u32_mod == size)) [
  | inl same ↦ rw same (read_sample-valid h size r)
  | inr other ↦ rw other e
]

-- A sensor's sample is marked as valid exactly if the length passed is more than four and the one
-- that the length field gives, on any four bytes or more: whatever follows, and however few the bytes
-- are.
decode_sample_msg-valid_sensor :
    (h : Host) (memory : SampleData) (n : ℕ) (bs : List ℕ) (size : ℕ)
    → IsU32 n
    → IsU32 (length bs + 4)
    → (decode_sample_msg h memory (big_bytes 4 n ++ bs) size).valid
      ≡ (ltb 4 size && (n + 4) % u32_mod == size)
unfolding decode_sample_msg ◌>>=◌ new_sample new_reader
decode_sample_msg-valid_sensor h memory n bs size small fits = elim (Bool-cases (ltb 4 size)) [
  | inl four ↦ rw four (
      ap (λ (p : ℕ × BuffReader). (checked_sample h (new_sample memory) size p.0 p.1).0.valid)
        ((Reads-uint32 h n small).at [] bs (omega (arith, length-big_bytes 4 n)))
      ∙ checked_sample-valid h (new_sample memory) refl n size (reader_at h (big_bytes 4 n) bs))
  | inr few ↦ rw few
]
