-- ===== src/Aggregator/Subscribe.antt =====
-- Subscriptions come back.
use cpp_owl_common.Prelude.{
  ℕ, zero, suc, ◌+◌, ◌%◌, ◌<◌, ◌≡◌, refl, ap, subst, ◌∙◌, List, [], ◌∷◌, ◌++◌, length,
  length-append, u32_mod, true, ltb, lt→ltb, eq→==, ◌==◌, All, arith,
}
use cpp_owl_common.Netbuffer.Endian.{Host, big_bytes}
use cpp_owl_common.Netbuffer.Endian.Laws.{length-big_bytes}
use cpp_owl_common.Netbuffer.Primitive.Laws.{wire8, wire64}
use cpp_owl_common.Netbuffer.Push.Laws.{wires}
use cpp_owl_common.Netbuffer.Reader.{BuffReader, Read, ◌>>=◌, read_loop}
use cpp_owl_common.Netbuffer.Reader.Reads.{
  reader_at, Reads, Reads-bind, Reads-last, Reads-primitive, ReadsAll-end,
}
use cpp_owl_common.Netbuffer.Reader.Sequences.{Reads-uint32, Reads-loop}
use cpp_owl_common.Message.Draft.{◌>>◌, empty, push_byte, push_room}
use cpp_owl_common.Message.Draft.Laws.{
  frame, length-frame, store-frame, Emits, Emits-seq, Emits-count, Emits-each, Emits-uint8,
  Emits-uint64, Emits-val,
}
use cpp_owl_common.Message.Decode.Laws.{read_header-frame, behind_header}
use cpp_owl_common.WorldModel.Types.{IsU32, IsTime}
use cpp_owl_common.Uint128.Order.{IsUint128}
use cpp_owl_common.Uint128.Laws.{wire128}
use cpp_owl_common.Aggregator.{
  Transmitter, Rule, Subscription, push_transmitter, push_rule, push_rules, make_subscribe_req_msg,
  read_transmitter, read_rule, read_rules, checked_rules, decode_subscribe_msg,
}

pub record IsTransmitter (t : Transmitter) : Type 0 where
  pub base_ok : IsUint128 t.base_id
  pub mask_ok : IsUint128 t.mask

-- A rule whose values fit their C++ types.
pub record IsRule (r : Rule) : Type 0 where
  pub layer_ok : r.physical_layer < 256
  pub txers_ok : All IsTransmitter r.txers
  pub few_txers : IsU32 (length r.txers)
  pub interval_ok : IsTime r.update_interval

unfoldable pub wire_transmitter : Transmitter → List ℕ
wire_transmitter t = wire128.wire t.base_id ++ wire128.wire t.mask

unfoldable pub wire_rule : Rule → List ℕ
wire_rule r =
    big_bytes 1 r.physical_layer
    ++ (big_bytes 4 (length r.txers)
        ++ (wires wire_transmitter r.txers ++ big_bytes 8 r.update_interval))

-- What follows the message type.
unfoldable pub wire_rules : Subscription → List ℕ
wire_rules rules = big_bytes 4 (length rules) ++ wires wire_rule rules

Emits-transmitter : (h : Host) (t : Transmitter) → Emits (push_transmitter h t) (wire_transmitter t)
unfolding push_transmitter wire_transmitter
Emits-transmitter h t =
    Emits-seq (Emits-val h wire128 t.base_id (omega arith))
      (Emits-val h wire128 t.mask (omega arith))

Emits-rule : (h : Host) (r : Rule) → Emits (push_rule h r) (wire_rule r)
unfolding push_rule wire_rule
Emits-rule h r = Emits-seq (Emits-uint8 h r.physical_layer) (
    Emits-seq (Emits-count h (length r.txers)) (
      Emits-seq (Emits-each wire_transmitter r.txers (Emits-transmitter h))
        (Emits-uint64 h r.update_interval)))

Emits-rules : (h : Host) (rules : Subscription) → Emits (push_rules h rules) (wire_rules rules)
unfolding push_rules wire_rules
Emits-rules h rules =
    Emits-seq (Emits-count h (length rules)) (Emits-each wire_rule rules (Emits-rule h))

make_subscribe_req_msg-frame :
    (h : Host) (rules : Subscription)
    → make_subscribe_req_msg h rules ≡ frame (3 ∷ wire_rules rules)
unfolding make_subscribe_req_msg ◌>>◌ push_room push_byte
make_subscribe_req_msg-frame h rules =
    store-frame h {head = 3 ∷ []} (push_byte 3 (push_room (empty 1))) (Emits-rules h rules) refl
      (omega arith)

Reads-transmitter :
    (h : Host) (t : Transmitter)
    → IsTransmitter t
    → Reads h (read_transmitter h) (wire_transmitter t) t
unfolding read_transmitter wire_transmitter
Reads-transmitter h t ok =
    Reads-bind h _ (Reads-primitive h wire128 t.base_id ok.base_ok)
      (Reads-last h _ (Reads-primitive h wire128 t.mask ok.mask_ok))

Reads-rule : (h : Host) (r : Rule) → IsRule r → Reads h (read_rule h) (wire_rule r) r
unfolding read_rule wire_rule
Reads-rule h r ok =
    Reads-bind h _ (Reads-primitive h wire8 r.physical_layer (omega (arith, ok.layer_ok))) (
      Reads-bind h _ (Reads-uint32 h (length r.txers) ok.few_txers) (
        Reads-bind h _
          (Reads-loop h wire_transmitter IsTransmitter (Reads-transmitter h) r.txers [] ok.txers_ok)
          (Reads-last h _
            (Reads-primitive h wire64 r.update_interval (omega (arith, ok.interval_ok))))))

Reads-rules :
    (h : Host) (rules : Subscription)
    → All IsRule rules
    → IsU32 (length rules)
    → Reads h (read_rules h) (wire_rules rules) rules
unfolding read_rules wire_rules
Reads-rules h rules ok few =
    Reads-bind h _ (Reads-uint32 h (length rules) few)
      (Reads-loop h wire_rule IsRule (Reads-rule h) rules [] ok)

-- On a frame of a request the decoder, told its length, goes on behind the header.
decode_subscribe_msg-enter :
    (h : Host) (bs : List ℕ)
    → length (frame (3 ∷ bs)) < u32_mod
    → decode_subscribe_msg h (frame (3 ∷ bs)) (length (frame (3 ∷ bs)))
      ≡ (read_rules h (behind_header h 3 bs)).0
unfolding decode_subscribe_msg ◌>>=◌ checked_rules
decode_subscribe_msg-enter h bs b =
    let size = length (frame (3 ∷ bs)) in
    let four : ltb 4 size ≡ true = lt→ltb 4 size (omega (arith, length-frame (3 ∷ bs))) in
    let test : ((suc (length bs) + 4) % u32_mod == size) ≡ true =
      eq→== _ _ (omega (arith, length-frame (3 ∷ bs))) in
    rw four (
      ap (λ (p : (ℕ × ℕ) × BuffReader). (checked_rules h size p.0 p.1).0)
        (read_header-frame h 3 bs (omega arith) b)
      ∙ rw test)

-- A subscription request made on any host, and decoded on any host with its own length, gives the
-- rules, if the values fit their types and the message is shorter than 2 ^ 32 bytes.
pub decode-make_subscribe_req_msg :
    (h h' : Host) (rules : Subscription)
    → All IsRule rules
    → IsU32 (length rules)
    → IsU32 (length (make_subscribe_req_msg h rules))
    → decode_subscribe_msg h'
        (make_subscribe_req_msg h rules)
        (length (make_subscribe_req_msg h rules))
      ≡ rules
decode-make_subscribe_req_msg h h' rules ok few fits =
    let bs = wire_rules rules in
    let front = big_bytes 4 (suc (length bs)) ++ (3 ∷ []) in
    let fits' = subst (λ b. IsU32 (length b)) (make_subscribe_req_msg-frame h rules) fits in
    ap (λ (b : List ℕ). decode_subscribe_msg h' b (length b)) (make_subscribe_req_msg-frame h rules)
    ∙ decode_subscribe_msg-enter h' bs fits'
    ∙ ap (λ (p : Subscription × BuffReader). p.0)
        ((ReadsAll-end h' (Reads-rules h' rules ok few)).at front (
          omega (
            arith,
            length-append (big_bytes 4 (suc (length bs))) (3 ∷ []),
            length-big_bytes 4 (suc (length bs)),
            length-frame (3 ∷ bs),
          )))

length-read_loop {ℓ} :
    {A : Type ℓ} (n : ℕ) (m : Read A) (out : List A) (r : BuffReader)
    → length (read_loop n m out r).0 ≡ length out + n
unfolding read_loop
length-read_loop zero m out r = omega arith
length-read_loop (suc n) m out r =
    omega (
      arith,
      length-read_loop n m (out ++ ((m r).0 ∷ [])) (m r).1,
      length-append out ((m r).0 ∷ []),
    )

-- A request whose length field fits it, that announces `n` rules, and that is decoded with its own
-- length, is decoded to `n` rules, whatever stands behind their number, be it nothing: the decoder does
-- not test for reads out of range. The request is shorter than 2 ^ 32 bytes.
pub length-decode_subscribe_msg :
    (h : Host) (n : ℕ) (rest : List ℕ)
    → IsU32 n
    → IsU32 (length (frame (3 ∷ (big_bytes 4 n ++ rest))))
    → length (
        decode_subscribe_msg h
          (frame (3 ∷ (big_bytes 4 n ++ rest)))
          (length (frame (3 ∷ (big_bytes 4 n ++ rest)))))
      ≡ n
unfolding read_rules ◌>>=◌
length-decode_subscribe_msg h n rest small fits =
    let bs = big_bytes 4 n ++ rest in
    let front = big_bytes 4 (suc (length bs)) ++ (3 ∷ []) in
    ap length (decode_subscribe_msg-enter h bs fits)
    ∙ ap (λ (p : ℕ × BuffReader). length (read_loop p.0 (read_rule h) [] p.1).0)
        ((Reads-uint32 h n small).at front rest (
          omega (
            arith,
            length-append (big_bytes 4 (suc (length bs))) (3 ∷ []),
            length-big_bytes 4 (suc (length bs)),
            length-frame (3 ∷ bs),
            length-append (big_bytes 4 n) rest,
          )))
    ∙ length-read_loop n (read_rule h) [] (reader_at h (front ++ big_bytes 4 n) rest)
    ∙ omega arith
