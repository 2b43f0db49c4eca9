-- ===== src/Message/Decode/Cut.antt =====
-- A decoder on a message whose fields are cut short, under a length field that fits what is left.
use cpp_owl_common.Prelude.{
  ℕ, suc, ◌-◌, ◌/◌, ◌<◌, ◌≡◌, ap, ◌∙◌, List, [], ◌∷◌, ◌++◌, true, length, length-append, take,
  length-take, u32_mod, arith,
}
use cpp_owl_common.Netbuffer.Endian.{Host, big_bytes}
use cpp_owl_common.Netbuffer.Endian.Laws.{length-big_bytes}
use cpp_owl_common.Netbuffer.Primitive.{uint16}
use cpp_owl_common.Netbuffer.Reader.{BuffReader, Read, read_utf16}
use cpp_owl_common.Netbuffer.Reader.Misses.{Sticky, Misses, Sticky-loop, Sticky-primitive}
use cpp_owl_common.Message.Draft.Laws.{frame, length-frame}
use cpp_owl_common.Message.Decode.{decode, or_failure, read_rest_utf16}
use cpp_owl_common.Message.Decode.Laws.{decode-enter}

pub or_failure-missed {ℓ} :
    {A : Type ℓ} (failure : A) (p : A × BuffReader)
    → p.1.out_of_range ≡ true
    → or_failure failure p ≡ failure
unfolding or_failure
or_failure-missed failure (a, r) e = rw e

pub Sticky-rest_utf16 : (h : Host) → Sticky (read_rest_utf16 h)
unfolding read_rest_utf16 read_utf16
Sticky-rest_utf16 h = record {
  stays = λ r e.
      (Sticky-loop ((length r.buff - r.cur_index) / 2) [] (Sticky-primitive h uint16)).stays r e;
}

module _ {ℓ} {A : Type ℓ} (h : Host) (id : ℕ) {body : Read A} (fallback : A) {bs : List ℕ} (n : ℕ)
    (id_ok : id < 256) (few : n < length bs) (fits : length (frame (id ∷ bs)) < u32_mod)
    (misses : Misses h body bs) where
  pub decode-cut : (decode h id body fallback (frame (id ∷ take n bs))).1.out_of_range ≡ true
  decode-cut =
      let left = take n bs in
      let header = big_bytes 4 (suc (length left)) in
      ap (λ (p : A × BuffReader). p.1.out_of_range)
        (decode-enter h id body fallback left id_ok
          (omega (arith, fits, length-frame (id ∷ left), length-frame (id ∷ bs), length-take n bs)))
      ∙ misses.at (header ++ (id ∷ [])) n few (
          omega (
            arith,
            fits,
            length-append header (id ∷ []),
            length-big_bytes 4 (suc (length left)),
            length-frame (id ∷ bs),
          ))

  pub or_failure-cut :
      (failure : A)
      → or_failure failure (decode h id body fallback (frame (id ∷ take n bs))) ≡ failure
  or_failure-cut failure = or_failure-missed failure _ decode-cut
