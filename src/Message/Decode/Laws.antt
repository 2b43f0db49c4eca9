-- ===== src/Message/Decode/Laws.antt =====
-- A decoder on a frame of its type, on a frame of another type, and on any other buffer.
use cpp_owl_common.Prelude.{
  ℕ, suc, All, ◌-◌, ◌/◌, ◌+◌, ◌%◌, ◌<◌, ◌≡◌, ◌≢◌, refl, sym, ap, subst, ◌∙◌, List, [], ◌∷◌, ◌++◌,
  true, length, length-append, ◌==◌, u32_mod, arith, eq→==, ne→==, append_assoc,
}
use cpp_owl_common.Netbuffer.Endian.{Host, big_bytes}
use cpp_owl_common.Netbuffer.Endian.Laws.{length-big_bytes}
use cpp_owl_common.Netbuffer.Primitive.{uint8}
use cpp_owl_common.Netbuffer.Primitive.Laws.{wire8}
use cpp_owl_common.Netbuffer.Reader.{
  BuffReader, new_reader, Read, ◌>>=◌, pure, read_primitive, read_utf16,
}
use cpp_owl_common.Netbuffer.Reader.Reads.{
  reader_at, Reads, ReadsAll, Reads-primitive, Reads-bind, Reads-last, ReadsAll-end,
}
use cpp_owl_common.Netbuffer.Reader.Sequences.{Reads-uint32, Reads-utf16, IsUnit, length-units}
use cpp_owl_common.Message.Draft.Laws.{frame, length-frame, octet}
use cpp_owl_common.Message.Decode.{read_header, checked, decode, or_failure, read_rest_utf16}
use cpp_owl_common.Netbuffer.Push.Laws.{wires}

pub Reads-header :
    (h : Host) (n k : ℕ)
    → n < u32_mod
    → k < 256
    → Reads h (read_header h) (big_bytes 4 n ++ (k ∷ [])) (n, k)
unfolding read_header
Reads-header h n k bn bk =
    Reads-bind h (λ t. read_primitive h uint8 >>= λ m. pure (t, m)) (Reads-uint32 h n bn)
      (subst (λ bs. Reads {A = ℕ × ℕ} h (read_primitive h uint8 >>= λ m. pure (n, m)) bs (n, k))
        (octet k bk) (Reads-last h (λ m. (n, m)) (Reads-primitive h wire8 k (omega arith))))

-- The reader behind the header of a frame of type `k`.
abbrev pub behind_header : Host → ℕ → List ℕ → BuffReader
behind_header h k bs = reader_at h (big_bytes 4 (suc (length bs)) ++ (k ∷ [])) bs

pub read_header-frame :
    (h : Host) (k : ℕ) (bs : List ℕ)
    → k < 256
    → length (frame (k ∷ bs)) < u32_mod
    → read_header h (new_reader h (frame (k ∷ bs)) true)
      ≡ ((suc (length bs), k), behind_header h k bs)
unfolding new_reader frame
read_header-frame h k bs bk b =
    let n = suc (length bs) in
    ap (λ (x : List ℕ). read_header h (reader_at h [] x))
      (sym (append_assoc (big_bytes 4 n) (k ∷ []) bs))
    ∙ (Reads-header h n k (omega (arith, length-frame (k ∷ bs))) bk).at [] bs (
        omega (
          arith,
          length-append (big_bytes 4 n) (k ∷ []),
          length-big_bytes 4 n,
          length-frame (k ∷ bs),
        ))

decode-header {ℓ} :
    {A : Type ℓ} (h : Host) (id k : ℕ) (body : Read A) (fallback : A) (bs : List ℕ)
    → k < 256
    → length (frame (k ∷ bs)) < u32_mod
    → decode h id body fallback (frame (k ∷ bs))
      ≡ checked id body fallback (suc (length bs), k) (behind_header h k bs)
unfolding decode ◌>>=◌
decode-header h id k body fallback bs bk b =
    ap (λ (p : (ℕ × ℕ) × BuffReader). checked id body fallback p.0 p.1)
      (read_header-frame h k bs bk b)

size-test :
    (k : ℕ) (bs : List ℕ)
    → length (frame (k ∷ bs)) < u32_mod
    → (length ((big_bytes 4 (suc (length bs)) ++ (k ∷ [])) ++ bs)
        == (suc (length bs) + 4) % u32_mod)
      ≡ true
size-test k bs b =
    let n = suc (length bs) in
    eq→== _ _ (
      omega (
        arith,
        length-append (big_bytes 4 n ++ (k ∷ [])) bs,
        length-append (big_bytes 4 n) (k ∷ []),
        length-big_bytes 4 n,
        length-frame (k ∷ bs),
      ))

-- The test of the header succeeds for the type of the frame.
pub checked-own {ℓ} :
    {A : Type ℓ} (h : Host) (id : ℕ) (body : Read A) (fallback : A) (bs : List ℕ)
    → length (frame (id ∷ bs)) < u32_mod
    → checked id body fallback (suc (length bs), id) (behind_header h id bs)
      ≡ body (behind_header h id bs)
unfolding checked
checked-own h id body fallback bs b = rw (size-test id bs b, eq→== id id refl)

pub checked-other {ℓ} :
    {A : Type ℓ} (h : Host) (id k : ℕ) (body : Read A) (fallback : A) (bs : List ℕ)
    → k ≢ id
    → length (frame (k ∷ bs)) < u32_mod
    → checked id body fallback (suc (length bs), k) (behind_header h k bs)
      ≡ (fallback, behind_header h k bs)
unfolding checked
checked-other h id k body fallback bs ne b = rw (size-test k bs b, ne→== k id ne)

-- On a frame of its own type the decoder goes on with its body behind the header.
pub decode-enter {ℓ} :
    {A : Type ℓ} (h : Host) (id : ℕ) (body : Read A) (fallback : A) (bs : List ℕ)
    → id < 256
    → length (frame (id ∷ bs)) < u32_mod
    → decode h id body fallback (frame (id ∷ bs)) ≡ body (behind_header h id bs)
decode-enter h id body fallback bs bi b =
    decode-header h id id body fallback bs bi b ∙ checked-own h id body fallback bs b

-- On a frame of another type it does not look at what follows the type.
decode-other {ℓ} :
    {A : Type ℓ} (h : Host) (id k : ℕ) (body : Read A) (fallback : A) (bs : List ℕ)
    → k < 256
    → k ≢ id
    → length (frame (k ∷ bs)) < u32_mod
    → decode h id body fallback (frame (k ∷ bs)) ≡ (fallback, behind_header h k bs)
decode-other h id k body fallback bs bk ne b =
    decode-header h id k body fallback bs bk b ∙ checked-other h id k body fallback bs ne b

pub decode-own {ℓ} :
    {A : Type ℓ} (h : Host) (id : ℕ) {body : Read A} (fallback : A) {bs : List ℕ} {a : A}
    → id < 256
    → length (frame (id ∷ bs)) < u32_mod
    → ReadsAll h body bs a
    → decode h id body fallback (frame (id ∷ bs))
      ≡ (a, reader_at h ((big_bytes 4 (suc (length bs)) ++ (id ∷ [])) ++ bs) [])
decode-own h id {body} fallback {bs} bi b r =
    let n = suc (length bs) in
    decode-enter h id body fallback bs bi b
    ∙ r.at (big_bytes 4 n ++ (id ∷ [])) (
        omega (
          arith,
          length-append (big_bytes 4 n) (id ∷ []),
          length-big_bytes 4 n,
          length-frame (id ∷ bs),
        ))

-- So it returns what the body reads.
pub decode-frame {ℓ} :
    {A : Type ℓ} (h : Host) (id : ℕ) {body : Read A} (fallback failure : A) {bs : List ℕ} {a : A}
    → id < 256
    → length (frame (id ∷ bs)) < u32_mod
    → ReadsAll h body bs a
    → or_failure failure (decode h id body fallback (frame (id ∷ bs))) ≡ a
unfolding or_failure
decode-frame h id fallback failure bi b r =
    ap (or_failure failure) (decode-own h id fallback bi b r)

-- The rest of a buffer as a string, where it is the code units of one.
pub ReadsAll-rest_utf16 :
    (h : Host) (str : List ℕ)
    → All IsUnit str
    → ReadsAll h (read_rest_utf16 h) (wires (big_bytes 2) str) str
unfolding read_rest_utf16
ReadsAll-rest_utf16 h str ok = record {
  at = λ front b.
      let bs = wires (big_bytes 2) str in
      let units : (length (front ++ bs) - length front) / 2 ≡ length str =
        omega (arith, length-append front bs, length-units str) in
      ap (λ (n : ℕ). read_utf16 h n (reader_at h front bs)) units
      ∙ (ReadsAll-end h (Reads-utf16 h str ok)).at front b;
}
