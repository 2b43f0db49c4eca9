-- ===== src/Sample/Laws.antt =====
-- The fields of a sample in a message, and that they are read back.
use cpp_owl_common.Prelude.{
  ℕ, ◌+◌, ◌-◌, ◌%◌, ◌<◌, ◌≡◌, refl, sym, ap, ◌∙◌, List, [], ◌∷◌, ◌++◌, append-nil, append_assoc,
  true, length, length-append, replicate, length-replicate, ltb, leb, le→leb, lt→ltb, u32_mod,
  arith,
}
use cpp_owl_common.Netbuffer.Endian.{Host, big_bytes}
use cpp_owl_common.Netbuffer.Endian.Laws.{length-big_bytes}
use cpp_owl_common.Netbuffer.Primitive.{uint8}
use cpp_owl_common.Netbuffer.Primitive.Laws.{wire8, wire32, wire64}
use cpp_owl_common.Netbuffer.Push.Laws.{wires, push_container-Appends}
use cpp_owl_common.Netbuffer.Reader.{
  BuffReader, Read, ◌>>=◌, pure, read_primitive, read_primitive_container,
}
use cpp_owl_common.Netbuffer.Reader.Reads.{reader_at, Reads, Reads-primitive, result_eq}
use cpp_owl_common.Message.Draft.Laws.{
  Emits, Emits-none, Emits-seq, Emits-val, Emits-uint8, Emits-uint32, Emits-uint64, Emits-counted,
}
use cpp_owl_common.WorldModel.Types.{IsU32, IsTime, IsOctets}
use cpp_owl_common.Uint128.Order.{IsUint128}
use cpp_owl_common.Uint128.Laws.{wire128}
use cpp_owl_common.Sample.{SampleData, push_sense_data, push_sample, read_sense_data, read_sample}

-- A sample whose values fit their C++ types.
pub record IsSample (s : SampleData) : Type 0 where
  pub layer_ok : s.physical_layer < 256
  pub tx_ok : IsUint128 s.tx_id
  pub rx_ok : IsUint128 s.rx_id
  pub time_ok : IsTime s.rx_timestamp
  pub rss_ok : IsU32 s.rss
  pub sense_ok : IsOctets s.sense_data

-- The fields in network order; the sense data take the rest of the message.
unfoldable pub wire_sample : SampleData → List ℕ
wire_sample s =
    big_bytes 1 s.physical_layer
    ++ (wire128.wire s.tx_id
        ++ (wire128.wire s.rx_id
            ++ (big_bytes 8 s.rx_timestamp
                ++ (big_bytes 4 s.rss ++ wires (big_bytes 1) s.sense_data))))

Emits-sense_data :
    (h : Host) (bytes : List ℕ) → Emits (push_sense_data h bytes) (wires (big_bytes 1) bytes)
unfolding push_sense_data
Emits-sense_data h [] = Emits-none
Emits-sense_data h (b ∷ bytes) =
    let some : ltb 0 (length (b ∷ bytes)) ≡ true = lt→ltb _ _ (omega arith) in
    record {
      at = λ d small.
          rw some
            ((Emits-counted (push_container-Appends h wire8 (b ∷ bytes) (omega arith))).at d small);
    }

pub Emits-sample : (h : Host) (s : SampleData) → Emits (push_sample h s) (wire_sample s)
unfolding push_sample wire_sample
Emits-sample h s = Emits-seq (Emits-uint8 h s.physical_layer) (
    Emits-seq (Emits-val h wire128 s.tx_id (omega arith)) (
      Emits-seq (Emits-val h wire128 s.rx_id (omega arith)) (
        Emits-seq (Emits-uint64 h s.rx_timestamp)
          (Emits-seq (Emits-uint32 h s.rss) (Emits-sense_data h s.sense_data)))))

-- `m` reads `bs` to the end of a buffer of `size` bytes, and returns `a`.
pub record ReadsTo {ℓ} {A : Type ℓ} (h : Host) (size : ℕ) (m : Read A) (bs : List ℕ) (a : A)
    : Type ℓ where
  pub at :
      (front : List ℕ)
      → length front + length bs ≡ size
      → size < u32_mod
      → m (reader_at h front bs) ≡ (a, reader_at h (front ++ bs) [])

module _ {ℓ κ} {A : Type ℓ} {B : Type κ} (h : Host) (size : ℕ) where
  ReadsTo-bind :
      {m : Read A} (f : A → Read B) {bs cs : List ℕ} {a : A} {c : B}
      → Reads h m bs a
      → ReadsTo h size (f a) cs c
      → ReadsTo h size (m >>= f) (bs ++ cs) c
  unfolding ◌>>=◌
  ReadsTo-bind {m} f {bs} {cs} {a} {c} rm rf = record {
    at = λ front e b.
        ap (λ (p : A × BuffReader). f p.0 p.1) (rm.at front cs (omega (arith, length-append bs cs)))
        ∙ rf.at (front ++ bs) (omega (arith, length-append bs cs, length-append front bs)) b
        ∙ ap (λ (x : List ℕ). (c, reader_at h x [])) (append_assoc front bs cs);
  }

  ReadsTo-last :
      {m : Read A} (f : A → B) {bs : List ℕ} {a : A}
      → ReadsTo h size m bs a
      → ReadsTo h size (m >>= λ x. pure (f x)) bs (f a)
  unfolding ◌>>=◌ pure
  ReadsTo-last {m} f {bs} {a} rm = record {
    at = λ front e b. ap (λ (p : A × BuffReader). (f p.0, p.1)) (rm.at front e b);
  }

-- The container is filled from the buffer, as far as that goes.
container_round :
    (h : Host) (x y : ℕ) (old : List ℕ) (front more : List ℕ)
    → read_primitive_container h uint8 (y ∷ old) (reader_at h front (big_bytes 1 x ++ more))
      ≡ (read_primitive h uint8 >>= λ v.
            read_primitive_container h uint8 old >>= λ vs. pure (v ∷ vs))
          (reader_at h front (big_bytes 1 x ++ more))
unfolding read_primitive_container ◌>>=◌ pure
container_round h x y old front more =
    let fits : leb (length front + 1) (length (front ++ (big_bytes 1 x ++ more))) ≡ true =
      le→leb _ _ (
        omega (
          arith,
          length-append front (big_bytes 1 x ++ more),
          length-append (big_bytes 1 x) more,
          length-big_bytes 1 x,
        )) in
    rw (fits, read_primitive_container)

ReadsTo-container :
    (h : Host) (size : ℕ) (old bytes : List ℕ)
    → length old ≡ length bytes
    → IsOctets bytes
    → ReadsTo h size (read_primitive_container h uint8 old) (wires (big_bytes 1) bytes) bytes
ReadsTo-container h size [] [] e ok = record {
  at = λ front f b.
      unfold read_primitive_container in
      result_eq refl (ap (λ (x : List ℕ). reader_at h x []) (sym (append-nil front)));
}
ReadsTo-container h size (y ∷ old) [] e ok = absurd (omega arith)
ReadsTo-container h size [] (x ∷ bytes) e ok = absurd (omega arith)
ReadsTo-container h size (y ∷ old) (x ∷ bytes) e (okx, oks) = record {
  at = λ front f b.
      container_round h x y old front (wires (big_bytes 1) bytes)
      ∙ (ReadsTo-bind h size _ (Reads-primitive h wire8 x okx) (
            ReadsTo-last h size (λ (vs : List ℕ). x ∷ vs)
              (ReadsTo-container h size old bytes (omega arith) oks))).at
          front f b;
}

length-octets : (bytes : List ℕ) → length (wires (big_bytes 1) bytes) ≡ length bytes
length-octets [] = refl
length-octets (b ∷ bytes) = omega (
  arith,
  length-append (big_bytes 1 b) (wires (big_bytes 1) bytes),
  length-big_bytes 1 b,
  length-octets bytes,
)

ReadsTo-sense_data :
    (h : Host) (size : ℕ) (bytes : List ℕ)
    → IsOctets bytes
    → ReadsTo h size (read_sense_data h size) (wires (big_bytes 1) bytes) bytes
unfolding read_sense_data
ReadsTo-sense_data h size bytes ok = record {
  at = λ front e b.
      let left : (size + u32_mod - length front) % u32_mod ≡ length bytes =
        omega (arith, length-octets bytes) in
      ap
        (λ (n : ℕ).
          read_primitive_container h uint8 (replicate n 0)
            (reader_at h front (wires (big_bytes 1) bytes)))
        left
      ∙ (ReadsTo-container h size (replicate (length bytes) 0) bytes
            (length-replicate (length bytes) 0) ok).at
          front e b;
}

-- The fields of a sample come back, and the sample is marked as valid.
pub ReadsTo-sample :
    (h : Host) (size : ℕ) (s : SampleData)
    → IsSample s
    → ReadsTo h size (read_sample h size) (wire_sample s) (record s { valid = true })
unfolding read_sample wire_sample
ReadsTo-sample h size s ok =
    ReadsTo-bind h size _ (Reads-primitive h wire8 s.physical_layer (omega (arith, ok.layer_ok))) (
      ReadsTo-bind h size _ (Reads-primitive h wire128 s.tx_id ok.tx_ok) (
        ReadsTo-bind h size _ (Reads-primitive h wire128 s.rx_id ok.rx_ok) (
          ReadsTo-bind h size _
            (Reads-primitive h wire64 s.rx_timestamp (omega (arith, ok.time_ok)))
            (ReadsTo-bind h size _ (Reads-primitive h wire32 s.rss (omega (arith, ok.rss_ok)))
              (ReadsTo-last h size _ (ReadsTo-sense_data h size s.sense_data ok.sense_ok))))))

-- 45 bytes of fields, and the sense data.
pub length-wire_sample : (s : SampleData) → length (wire_sample s) ≡ length s.sense_data + 45
unfolding wire_sample
length-wire_sample s =
    let sense = wires (big_bytes 1) s.sense_data in
    let rss = big_bytes 4 s.rss in
    let time = big_bytes 8 s.rx_timestamp in
    let rx = wire128.wire s.rx_id in
    let tx = wire128.wire s.tx_id in
    omega (
      arith,
      length-append (big_bytes 1 s.physical_layer) (tx ++ (rx ++ (time ++ (rss ++ sense)))),
      length-append tx (rx ++ (time ++ (rss ++ sense))),
      length-append rx (time ++ (rss ++ sense)),
      length-append time (rss ++ sense),
      length-append rss sense,
      length-octets s.sense_data,
      length-big_bytes 1 s.physical_layer,
      wire128.length-wire s.tx_id,
      wire128.length-wire s.rx_id,
      length-big_bytes 8 s.rx_timestamp,
      length-big_bytes 4 s.rss,
    )

-- Whatever the buffer holds, the fields read make a sample that is marked as valid.
pub read_sample-valid :
    (h : Host) (size : ℕ) (r : BuffReader) → (read_sample h size r).0.valid ≡ true
unfolding read_sample ◌>>=◌ pure
read_sample-valid h size r = refl
