-- ===== src/WorldModel/Client/Preference/RoundTrip.antt =====
-- The wire form of origin preferences, that they come back, and the inputs on which the decoder loops.
use cpp_owl_common.Prelude.{
  ℕ, suc, zero, ◌<◌, ◌≡◌, sym, ap, ap₂, subst, ◌∙◌, List, [], ◌∷◌, ◌++◌, length, length-append, All,
  u32_mod, arith, ltb, lt→ltb, true, false, some, ◌+◌, append-nil, append_assoc,
}
use cpp_owl_common.Netbuffer.Endian.{Host, big_bytes}
use cpp_owl_common.Netbuffer.Endian.Laws.{length-big_bytes}
use cpp_owl_common.Netbuffer.Push.Laws.{wires, sized_utf16}
use cpp_owl_common.Netbuffer.Reader.{BuffReader}
use cpp_owl_common.Netbuffer.Reader.Reads.{reader_at, Reads, ReadsAll, Reads-bind, Reads-last}
use cpp_owl_common.Netbuffer.Reader.Sequences.{Reads-uint32, Reads-sized_utf16}
use cpp_owl_common.Message.Draft.Laws.{
  frame, make-frame, Emits, Emits-seq, Emits-id, Emits-each, Emits-uint32, Emits-sized_utf16,
}
use cpp_owl_common.Message.Decode.{or_failure}
use cpp_owl_common.Message.Decode.Laws.{decode-own}
use cpp_owl_common.WorldModel.Types.{U16String, IsString, IsU32}
use cpp_owl_common.WorldModel.Client.Preference.{
  left_first, push_weight, make_origin_preference, read_weight, read_weights,
  decode_origin_preference,
}

abbrev pub Weight : Type 0
Weight = U16String × ℕ

abbrev pub IsWeight : Weight → Type 0
IsWeight w = IsString w.0 × IsU32 w.1

unfoldable pub wire_weight : Weight → List ℕ
wire_weight (origin, weight) = sized_utf16 origin ++ big_bytes 4 weight

Emits-weight : (h : Host) (w : Weight) → Emits (push_weight h w) (wire_weight w)
unfolding push_weight wire_weight
Emits-weight h (origin, weight) = Emits-seq (Emits-sized_utf16 h origin) (Emits-uint32 h weight)

make_origin_preference-frame :
    (h : Host) (weights : List Weight)
    → make_origin_preference h weights ≡ frame (11 ∷ wires wire_weight weights)
unfolding make_origin_preference
make_origin_preference-frame h weights =
    make-frame h
      (Emits-seq (Emits-id h 11 (omega arith)) (Emits-each wire_weight weights (Emits-weight h)))

Reads-weight :
    (h : Host) (w : Weight) → IsWeight w → Reads h (read_weight h left_first) (wire_weight w) w
unfolding read_weight wire_weight
Reads-weight h (origin, weight) (origin_ok, weight_ok) =
    Reads-bind h _ (Reads-sized_utf16 h origin origin_ok)
      (Reads-last h (λ n. (origin, n)) (Reads-uint32 h weight weight_ok))

wire_weight_pos : (w : Weight) → 0 < length (wire_weight w)
unfolding wire_weight
wire_weight_pos (origin, weight) =
    omega
      (arith, length-append (sized_utf16 origin) (big_bytes 4 weight), length-big_bytes 4 weight)

-- One round of the loop where a weight stands under the cursor.
pub weights_round :
    (h : Host) (fuel : ℕ) (out : List Weight) (w : Weight) (front rest : List ℕ)
    → IsWeight w
    → length front + length (wire_weight w) + length rest < u32_mod
    → read_weights h left_first (suc fuel) out (reader_at h front (wire_weight w ++ rest))
      ≡ read_weights h left_first fuel (out ++ (w ∷ [])) (reader_at h (front ++ wire_weight w) rest)
unfolding read_weights
weights_round h fuel out w front rest ok b =
    let more : ltb (length front) (length (front ++ (wire_weight w ++ rest))) ≡ true = lt→ltb _ _ (
      omega (
        arith,
        length-append front (wire_weight w ++ rest),
        length-append (wire_weight w) rest,
        wire_weight_pos w,
      )) in
    rw (more, read_weights)
      (ap (λ (p : Weight × BuffReader). read_weights h left_first fuel (out ++ (p.0 ∷ [])) p.1)
        ((Reads-weight h w ok).at front rest b))

weights_end :
    (h : Host) (fuel : ℕ) (out : List Weight) (front : List ℕ)
    → read_weights h left_first (suc fuel) out (reader_at h front [])
      ≡ (some out, reader_at h front [])
unfolding read_weights
weights_end h fuel out front =
    let done : ltb (length front) (length (front ++ [])) ≡ false =
      rw (append-nil front) (ground arith) in
    rw (done, read_weights)

ReadsAll-weights :
    (h : Host) (weights : List Weight) (fuel : ℕ) (out : List Weight)
    → All IsWeight weights
    → length weights < fuel
    → ReadsAll h
        (read_weights h left_first fuel out)
        (wires wire_weight weights)
        (some (out ++ weights))
ReadsAll-weights h weights zero out ok f = absurd (omega arith)
ReadsAll-weights h [] (suc fuel) out ok f = record {
  at = λ front b.
      weights_end h fuel out front
      ∙ ap₂ (λ (x : List Weight) (y : List ℕ). (some x, reader_at h y [])) (sym (append-nil out))
          (sym (append-nil front));
}
ReadsAll-weights h (w ∷ ws) (suc fuel) out (okw, oks) f = record {
  at = λ front b.
      let rest = wires wire_weight ws in
      weights_round h fuel out w front rest okw (omega (arith, length-append (wire_weight w) rest))
      ∙ (ReadsAll-weights h ws fuel (out ++ (w ∷ [])) oks (omega arith)).at (front ++ wire_weight w)
          (omega (arith, length-append (wire_weight w) rest, length-append front (wire_weight w)))
      ∙ ap₂ (λ (x : List Weight) (y : List ℕ). (some x, reader_at h y []))
          (append_assoc out (w ∷ []) ws) (append_assoc front (wire_weight w) rest);
}

-- Weights made on any host, and decoded on any host by a compiler that evaluates the arguments of
-- `make_pair` from left to right, come back after one round for each and one more test, if the
-- values fit their types and the message is shorter than 2 ^ 32 bytes.
decode-make_origin_preference :
    (h h' : Host) (weights : List Weight) (fuel : ℕ)
    → All IsWeight weights
    → IsU32 (length (make_origin_preference h weights))
    → length weights < fuel
    → decode_origin_preference h' left_first fuel (make_origin_preference h weights) ≡ some weights
unfolding decode_origin_preference or_failure
decode-make_origin_preference h h' weights fuel ok fits enough =
    let fits' = subst (λ b. IsU32 (length b)) (make_origin_preference-frame h weights) fits in
    let own =
      decode-own h' 11 (some []) (omega arith) fits'
        (ReadsAll-weights h' weights fuel [] ok enough) in
    ap (decode_origin_preference h' left_first fuel) (make_origin_preference-frame h weights)
    ∙ rw (own, decode_origin_preference) (ap (or_failure (some [])) own)
