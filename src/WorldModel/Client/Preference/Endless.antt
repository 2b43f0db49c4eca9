-- ===== src/WorldModel/Client/Preference/Endless.antt =====
-- The inputs on which the loop of `decodeOriginPreference` does not end.
use cpp_owl_common.Prelude.{
  ℕ, suc, zero, ◌<◌, ◌≡◌, refl, ap, ◌∙◌, List, [], ◌∷◌, ◌++◌, length, length-append, All, u32_mod,
  arith, leb, lt→ltb, true, false, Option, none, some, ◌+◌, ◌/◌, append_assoc, lt→leb_false,
}
use cpp_owl_common.Netbuffer.Endian.{Host, big_bytes}
use cpp_owl_common.Netbuffer.Endian.Laws.{length-big_bytes}
use cpp_owl_common.Netbuffer.Primitive.{uint16, uint32}
use cpp_owl_common.Netbuffer.Push.Laws.{wires}
use cpp_owl_common.Netbuffer.Reader.{
  BuffReader, ◌>>=◌, pure, read_primitive, read_loop, read_sized_utf16,
}
use cpp_owl_common.Netbuffer.Reader.Reads.{reader_at}
use cpp_owl_common.Message.Draft.Laws.{frame, length-frame}
use cpp_owl_common.Message.Decode.{decode}
use cpp_owl_common.WorldModel.Types.{U16String, IsU32}
use cpp_owl_common.Message.Decode.Laws.{decode-enter}
use cpp_owl_common.WorldModel.Client.Preference.{
  Order, left_first, right_first, read_weight, read_weights, decode_origin_preference,
}
use cpp_owl_common.WorldModel.Client.Preference.RoundTrip.{
  Weight, IsWeight, wire_weight, weights_round,
}

-- One to three bytes are left: too few for a size or a weight.
record IsShort (r : BuffReader) : Type 0 where
  more : r.cur_index < length r.buff
  few : length r.buff < r.cur_index + 4

-- A value of four bytes reads as zero there, and the cursor stays where it is.
short_read :
    (h : Host) (r : BuffReader)
    → IsShort r
    → read_primitive h uint32 r ≡ (0, record r { out_of_range = true })
unfolding read_primitive
short_read h r s =
    let miss : leb (r.cur_index + 4) (length r.buff) ≡ false = lt→leb_false _ _ s.few in rw miss

short_string :
    (h : Host) (r : BuffReader)
    → IsShort r
    → read_sized_utf16 h r ≡ ([], record r { out_of_range = true })
unfolding read_sized_utf16 ◌>>=◌ read_loop
short_string h r s =
    ap (λ (p : ℕ × BuffReader). read_loop (p.0 / 2) (read_primitive h uint16) [] p.1)
      (short_read h r s)

short_weight :
    (h : Host) (order : Order) (r : BuffReader)
    → IsShort r
    → read_weight h order r ≡ (([], 0), record r { out_of_range = true })
unfolding read_weight ◌>>=◌ pure
short_weight h left_first r s =
    let r' : BuffReader = record r { out_of_range = true } in
    ap
      (λ (p : U16String × BuffReader).
        let (w, r'') = read_primitive h uint32 p.1 in ((p.0, w), r''))
      (short_string h r s)
    ∙ ap (λ (p : ℕ × BuffReader). (([], p.0), p.1))
        (short_read h r' (record { more = s.more; few = s.few }))
short_weight h right_first r s =
    let r' : BuffReader = record r { out_of_range = true } in
    ap (λ (p : ℕ × BuffReader). let (o, r'') = read_sized_utf16 h p.1 in ((o, p.0), r''))
      (short_read h r s)
    ∙ ap (λ (p : U16String × BuffReader). ((p.0, 0), p.1))
        (short_string h r' (record { more = s.more; few = s.few }))

endless :
    (h : Host) (order : Order) (fuel : ℕ) (out : List Weight) (r : BuffReader)
    → IsShort r
    → (read_weights h order fuel out r).0 ≡ none
unfolding read_weights
endless h order zero out r s = refl
endless h order (suc fuel) out r s =
    rw (lt→ltb _ _ s.more, read_weights)
      (ap (λ (p : Weight × BuffReader). (read_weights h order fuel (out ++ (p.0 ∷ [])) p.1).0)
          (short_weight h order r s)
        ∙ endless h order fuel (out ++ (([], 0) ∷ [])) (record r { out_of_range = true })
            (record { more = s.more; few = s.few }))

-- The weights in front are read first.
endless_behind :
    (h : Host) (weights : List Weight) (junk : List ℕ) (fuel : ℕ) (out : List Weight)
    (front : List ℕ)
    → All IsWeight weights
    → 0 < length junk
    → length junk < 4
    → length front + length (wires wire_weight weights ++ junk) < u32_mod
    → (read_weights h left_first fuel out (reader_at h front (wires wire_weight weights ++ junk))).0
      ≡ none
endless_behind h weights junk zero out front ok some_junk few b = unfold read_weights in refl
endless_behind h [] junk (suc fuel) out front ok some_junk few b =
    endless h left_first (suc fuel) out (reader_at h front junk) (record {
      more = omega (arith, length-append front junk);
      few = omega (arith, length-append front junk);
    })
endless_behind h (w ∷ ws) junk (suc fuel) out front (okw, oks) some_junk few b =
    let rest = wires wire_weight ws ++ junk in
    let split = append_assoc (wire_weight w) (wires wire_weight ws) junk in
    let size : length front + length (wire_weight w) + length rest < u32_mod =
      omega (arith, ap length split, length-append (wire_weight w) rest) in
    ap (λ (x : List ℕ). (read_weights h left_first (suc fuel) out (reader_at h front x)).0) split
    ∙ ap (λ (p : Option (List Weight) × BuffReader). p.0)
        (weights_round h fuel out w front rest okw size)
    ∙ endless_behind h ws junk fuel (out ++ (w ∷ [])) (front ++ wire_weight w) oks some_junk few
        (omega (arith, length-append front (wire_weight w)))

-- On weights with one to three bytes behind them the decoder, if it evaluates the arguments of
-- `make_pair` from left to right, does not come to an end: its loop is still running after any
-- number of rounds. The weights fit their types, and the message is shorter than 2 ^ 32 bytes.
pub decode_origin_preference_endless :
    (h : Host) (weights : List Weight) (junk : List ℕ) (fuel : ℕ)
    → All IsWeight weights
    → 0 < length junk
    → length junk < 4
    → IsU32 (length (frame (11 ∷ (wires wire_weight weights ++ junk))))
    → decode_origin_preference h left_first fuel (frame (11 ∷ (wires wire_weight weights ++ junk)))
      ≡ none
unfolding decode_origin_preference
decode_origin_preference_endless h weights junk fuel ok some_junk few fits =
    let body = wires wire_weight weights ++ junk in
    let front = big_bytes 4 (suc (length body)) ++ (11 ∷ []) in
    let size : length front + length body < u32_mod = omega (
      arith,
      length-frame (11 ∷ body),
      length-append (big_bytes 4 (suc (length body))) (11 ∷ []),
      length-big_bytes 4 (suc (length body)),
    ) in
    let seen : (decode h 11 (read_weights h left_first fuel []) (some []) (frame (11 ∷ body))).0
        ≡ none =
      ap (λ (p : Option (List Weight) × BuffReader). p.0)
        (decode-enter h 11 (read_weights h left_first fuel []) (some []) body (omega arith) fits)
      ∙ endless_behind h weights junk fuel [] front ok some_junk few size in
    rw (seen, decode_origin_preference)
