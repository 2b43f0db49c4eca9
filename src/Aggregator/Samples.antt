-- ===== src/Aggregator/Samples.antt =====
-- The aggregator's samples come back, and when a sample is marked as valid.
use cpp_owl_common.Prelude.{
  ℕ, suc, ◌+◌, ◌%◌, ◌≡◌, refl, ap, subst, ◌∙◌, List, [], ◌∷◌, ◌++◌, length, length-append, u32_mod,
  true, false, Bool-cases, inl, inr, ltb, lt→ltb, eq→==, ◌==◌, ◌&&◌, arith,
}
use cpp_owl_common.Netbuffer.Endian.{Host, big_bytes}
use cpp_owl_common.Netbuffer.Endian.Laws.{length-big_bytes}
use cpp_owl_common.Netbuffer.Reader.{BuffReader, ◌>>=◌}
use cpp_owl_common.Message.Draft.{◌>>◌, empty, push_byte, push_room}
use cpp_owl_common.Message.Draft.Laws.{frame, length-frame, store-frame}
use cpp_owl_common.Message.Decode.Laws.{read_header-frame}
use cpp_owl_common.Message.Decode.Rejects.{packet, IsPacket, behind, read_header-packet}
use cpp_owl_common.WorldModel.Types.{IsU32}
use cpp_owl_common.Sample.{SampleData, new_sample}
use cpp_owl_common.Sample.Laws.{
  IsSample, wire_sample, Emits-sample, ReadsTo-sample, read_sample-valid,
}
use cpp_owl_common.Aggregator.{make_sample_msg, checked_sample, decode_sample_msg}

pub make_sample_msg-frame :
    (h : Host) (s : SampleData) → make_sample_msg h s ≡ frame (6 ∷ wire_sample s)
unfolding make_sample_msg ◌>>◌ push_room push_byte
make_sample_msg-frame h s =
    store-frame h {head = 6 ∷ []} (push_byte 6 (push_room (empty 1))) (Emits-sample h s) refl
      (omega arith)

-- A sample message made on any host, and decoded on any host with its own length, gives the sample,
-- marked as valid, if the values fit their types and the message is shorter than 2 ^ 32 bytes.
pub decode-make_aggregator_sample_msg :
    (h h' : Host) (memory s : SampleData)
    → IsSample s
    → IsU32 (length (make_sample_msg h s))
    → decode_sample_msg h' memory (make_sample_msg h s) (length (make_sample_msg h s))
      ≡ record s { valid = true }
unfolding decode_sample_msg ◌>>=◌ checked_sample
decode-make_aggregator_sample_msg h h' memory s ok fits =
    let bs = wire_sample s in
    let size = length (frame (6 ∷ bs)) in
    let long = length-frame (6 ∷ bs) in
    let front = big_bytes 4 (suc (length bs)) ++ (6 ∷ []) in
    let fits' = subst (λ b. IsU32 (length b)) (make_sample_msg-frame h s) fits in
    let four : ltb 4 size ≡ true = lt→ltb 4 size (omega (arith, long)) in
    let test : ((suc (length bs) + 4) % u32_mod == size) ≡ true = eq→== _ _ (omega (arith, long)) in
    ap (λ (b : List ℕ). decode_sample_msg h' memory b (length b)) (make_sample_msg-frame h s)
    ∙ rw four (
        ap (λ (p : (ℕ × ℕ) × BuffReader). (checked_sample h' (new_sample memory) size p.0 p.1).0)
          (read_header-frame h' 6 bs (omega arith) fits')
        ∙ rw test (
            ap (λ (p : SampleData × BuffReader). p.0)
              ((ReadsTo-sample h' size s ok).at front
                (omega (
                  arith,
                  long,
                  length-append (big_bytes 4 (suc (length bs))) (6 ∷ []),
                  length-big_bytes 4 (suc (length bs)),
                ))
                fits')))

checked_sample-valid :
    (h : Host) (sample : SampleData)
    → sample.valid ≡ false
    → (n k size : ℕ) (r : BuffReader)
    → (checked_sample h sample size (n, k) r).0.valid ≡ ((n + 4) % u32_mod == size && 6 == k)
unfolding checked_sample
checked_sample-valid h sample e n k size r =
    elim (Bool-cases ((n + 4) % u32_mod == size && 6 == k)) [
      | inl same ↦ rw same (read_sample-valid h size r)
      | inr other ↦ rw other e
    ]

-- On five bytes or more the sample is marked as valid exactly if the length passed is more than four
-- and the one that the length field gives, and the type is that of a sample: whatever follows, and
-- however few the bytes are.
pub decode_sample_msg-valid :
    (h : Host) (memory : SampleData) (n k : ℕ) (bs : List ℕ) (size : ℕ)
    → IsPacket n k bs
    → (decode_sample_msg h memory (packet n k bs) size).valid
      ≡ (ltb 4 size && ((n + 4) % u32_mod == size && 6 == k))
unfolding decode_sample_msg ◌>>=◌ new_sample
decode_sample_msg-valid h memory n k bs size ok = elim (Bool-cases (ltb 4 size)) [
  | inl four ↦ rw four (
      ap (λ (p : (ℕ × ℕ) × BuffReader). (checked_sample h (new_sample memory) size p.0 p.1).0.valid)
        (read_header-packet h ok)
      ∙ checked_sample-valid h (new_sample memory) refl n k size (behind h ok))
  | inr few ↦ rw few
]
