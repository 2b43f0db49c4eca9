-- ===== src/Grail/RoundTrip.antt =====
-- Transmitters that are written come back, where the compiler evaluates from left to right.
use cpp_owl_common.Prelude.{
  ℕ, ◌+◌, ◌/◌, ◌%◌, ◌^◌, ◌<◌, ◌≡◌, refl, sym, ap, ◌∙◌, List, [], ◌∷◌, ◌++◌, append_assoc,
  append-nil, length, length-append, All, arith,
}
use cpp_owl_common.Netbuffer.Endian.{Host, big_bytes}
use cpp_owl_common.Netbuffer.Endian.Laws.{length-big_bytes}
use cpp_owl_common.Netbuffer.Primitive.{uint8, uint64}
use cpp_owl_common.Netbuffer.Primitive.Laws.{wire8, wire64}
use cpp_owl_common.Netbuffer.Push.{Buffer}
use cpp_owl_common.Netbuffer.Push.Laws.{wires, Appends, push_back_val-Appends}
use cpp_owl_common.Netbuffer.Reader.{BuffReader, new_reader, read_loop, read_primitive_at}
use cpp_owl_common.Netbuffer.Reader.Reads.{
  Reads, Reads-bind, Reads-last, Reads-primitive, ReadsAll-end,
}
use cpp_owl_common.Netbuffer.Strings.{read_primitive_at-middle}
use cpp_owl_common.Netbuffer.Reader.Sequences.{Reads-uint32, Reads-loop}
use cpp_owl_common.Message.Draft.Laws.{octet}
use cpp_owl_common.WorldModel.Types.{IsU32}
use cpp_owl_common.Uint128.Order.{IsUint128}
use cpp_owl_common.Grail.{
  Transmitter, Part, phy_part, upper_part, lower_part, read_transmitter_from_buffer,
  read_transmitter, write_part, write_transmitter, unpack_grail_vector,
}

pub record IsTransmitter (t : Transmitter) : Type 0 where
  pub phy_ok : t.phy < 256
  pub id_ok : IsUint128 t.id

-- 17 bytes in network order.
unfoldable pub wire_transmitter : Transmitter → List ℕ
wire_transmitter t = big_bytes 1 t.phy ++ (big_bytes 8 t.id.upper ++ big_bytes 8 t.id.lower)

abbrev wire_part : Part → Transmitter → List ℕ
wire_part phy_part t = big_bytes 1 t.phy
wire_part upper_part t = big_bytes 8 t.id.upper
wire_part lower_part t = big_bytes 8 t.id.lower

write_part-Appends :
    (h : Host) (p : Part) (t : Transmitter) → Appends (write_part h p t) (wire_part p t)
unfolding write_part
write_part-Appends h phy_part t = push_back_val-Appends h wire8 t.phy (omega arith)
write_part-Appends h upper_part t = push_back_val-Appends h wire64 t.id.upper (omega arith)
write_part-Appends h lower_part t = push_back_val-Appends h wire64 t.id.lower (omega arith)

write_transmitter-parts :
    (h : Host) (p q r : Part) (t : Transmitter) (buff : Buffer)
    → (write_transmitter h p q r t buff).0
      ≡ buff ++ (wire_part p t ++ (wire_part q t ++ wire_part r t))
unfolding write_transmitter
write_transmitter-parts h p q r t buff =
    let first = λ (x : Buffer × ℕ). x.0 in
    ap (λ (x : Buffer). (write_part h r t (write_part h q t x).0).0)
      (ap first (write_part-Appends h p t buff))
    ∙ ap (λ (x : Buffer). (write_part h r t x).0)
        (ap first (write_part-Appends h q t (buff ++ wire_part p t)))
    ∙ ap first (write_part-Appends h r t ((buff ++ wire_part p t) ++ wire_part q t))
    ∙ append_assoc (buff ++ wire_part p t) (wire_part q t) (wire_part r t)
    ∙ append_assoc buff (wire_part p t) (wire_part q t ++ wire_part r t)

Reads-transmitter :
    (h : Host) (t : Transmitter)
    → IsTransmitter t
    → Reads h (read_transmitter_from_buffer h) (wire_transmitter t) t
unfolding read_transmitter_from_buffer wire_transmitter
Reads-transmitter h t ok =
    Reads-bind h _ (Reads-primitive h wire8 t.phy (omega (arith, ok.phy_ok))) (
      Reads-bind h _ (Reads-primitive h wire64 t.id.upper (omega (arith, ok.id_ok.upper_ok)))
        (Reads-last h _ (Reads-primitive h wire64 t.id.lower (omega (arith, ok.id_ok.lower_ok)))))

-- A transmitter written to an empty buffer by a compiler that evaluates from left to right, on any
-- host, is read from it on any host, if its values fit their types.
pub read-write_transmitter :
    (h h' : Host) (t : Transmitter)
    → IsTransmitter t
    → read_transmitter h' (write_transmitter h phy_part upper_part lower_part t []).0 ≡ t
unfolding read_transmitter
read-write_transmitter h h' t ok =
    let a = big_bytes 1 t.phy in
    let b = big_bytes 8 t.id.upper in
    let c = big_bytes 8 t.id.lower in
    let last : a ++ (b ++ c) ≡ (a ++ b) ++ (c ++ []) =
      sym (append_assoc a b c) ∙ ap (λ (x : List ℕ). (a ++ b) ++ x) (sym (append-nil c)) in
    ap (read_transmitter h') (write_transmitter-parts h phy_part upper_part lower_part t []) ∙ (λ i.
      record {
        phy =
            read_primitive_at-middle h' wire8 t.phy [] (b ++ c) 0 (omega (arith, ok.phy_ok))
              (omega arith) refl i;
        id = record {
          upper =
              read_primitive_at-middle h' wire64 t.id.upper a c 1 (omega (arith, ok.id_ok.upper_ok))
                (omega arith) (length-big_bytes 1 t.phy) i;
          lower =
              (ap (λ (x : List ℕ). read_primitive_at h' uint64 x (1 + 8)) last
                  ∙ read_primitive_at-middle h' wire64 t.id.lower (a ++ b) [] (1 + 8)
                      (omega (arith, ok.id_ok.lower_ok)) (omega arith)
                      (omega (
                        arith,
                        length-append a b,
                        length-big_bytes 1 t.phy,
                        length-big_bytes 8 t.id.upper,
                      )))
                i;
        };
      })

-- Written by a compiler that evaluates from right to left, the same transmitter is read back with the
-- highest byte of its identifier's lower half as its physical layer.
read-write_transmitter_reversed :
    (h h' : Host) (t : Transmitter)
    → IsTransmitter t
    → (read_transmitter h' (write_transmitter h lower_part upper_part phy_part t []).0).phy
      ≡ t.id.lower / 256 ^ 7
unfolding read_transmitter big_bytes
read-write_transmitter_reversed h h' t ok =
    let top = t.id.lower / 256 ^ 7 in
    let rest = big_bytes 7 t.id.lower ++ (big_bytes 8 t.id.upper ++ big_bytes 1 t.phy) in
    let small : top < 256 = omega (arith, ok.id_ok.lower_ok) in
    let same : top % 256 ≡ top = omega (arith, ok.id_ok.lower_ok) in
    ap (λ (x : Buffer). read_primitive_at h' uint8 x 0)
      (write_transmitter-parts h lower_part upper_part phy_part t []
        ∙ ap (λ (x : ℕ). x ∷ rest) same
        ∙ ap (λ (x : List ℕ). x ++ rest) (sym (octet top small)))
    ∙ read_primitive_at-middle h' wire8 top [] rest 0 (omega arith) (omega arith) refl

-- A number of transmitters and the transmitters, each in network order, are unpacked on any host to
-- those transmitters, if their values fit their types and the whole is shorter than 2 ^ 32 bytes.
unpack_grail_vector-wires :
    (h : Host) (ts : List Transmitter)
    → All IsTransmitter ts
    → IsU32 (length ts)
    → IsU32 (length (big_bytes 4 (length ts) ++ wires wire_transmitter ts))
    → unpack_grail_vector h
        (read_transmitter_from_buffer h)
        (big_bytes 4 (length ts) ++ wires wire_transmitter ts)
      ≡ ts
unfolding unpack_grail_vector new_reader
unpack_grail_vector-wires h ts ok few fits =
    ap (λ (p : List Transmitter × BuffReader). p.0)
      ((ReadsAll-end h (
          Reads-bind h (λ n. read_loop n (read_transmitter_from_buffer h) [])
            (Reads-uint32 h (length ts) few)
            (Reads-loop h wire_transmitter IsTransmitter (Reads-transmitter h) ts [] ok))).at
        [] (omega (arith, fits)))
