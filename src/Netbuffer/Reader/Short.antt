-- ===== src/Netbuffer/Reader/Short.antt =====
-- `readSizedVector` at the end of a buffer that holds fewer items than are announced: it stops, and
-- does not go out of range.
use cpp_owl_common.Prelude.{
  ℕ, zero, suc, ◌+◌, ◌/◌, ◌<◌, ◌≤◌, ◌^◌, ◌≡◌, refl, sym, ap, subst, ◌∙◌, List, [], ◌∷◌, ◌++◌,
  append-nil, append_assoc, length, length-append, false, leb, lt→leb_false, u32_mod, arith, All,
}
use cpp_owl_common.Netbuffer.Endian.{Host, big_bytes}
use cpp_owl_common.Netbuffer.Primitive.{Primitive, uint8}
use cpp_owl_common.Netbuffer.Primitive.Laws.{Wire, wire8}
use cpp_owl_common.Netbuffer.Push.Laws.{wires}
use cpp_owl_common.Netbuffer.Reader.{
  Read, ◌>>=◌, read_primitive, vector_loop, read_loop, read_sized_vector,
}
use cpp_owl_common.Netbuffer.Reader.Reads.{
  reader_at, Reads, Reads-primitive, result_eq, ReadsAll, ReadsAll-bind, ReadsAll-last,
}
use cpp_owl_common.Netbuffer.Reader.Sequences.{
  read_loop_round, read_loop_end, vector_loop_round, Reads-uint32,
}

-- The loop at the end of the buffer.
vector_loop-stops :
    {T : Type 0} (h : Host) (t : Primitive T) (n : ℕ) (out : List T) (front : List ℕ)
    → 0 < t.size
    → vector_loop h t n out (reader_at h front []) ≡ (out, reader_at h front [])
unfolding vector_loop
vector_loop-stops h t zero out front some = refl
vector_loop-stops h t (suc n) out front some =
    let ends : leb (length front + t.size) (length (front ++ [])) ≡ false =
      lt→leb_false _ _ (omega (arith, length-append front [])) in
    rw (vector_loop, ends)

ReadsAll-vector_loop :
    {T : Type 0} (h : Host) {t : Primitive T} (w : Wire t) (xs : List T) (n : ℕ) (out : List T)
    → 0 < t.size
    → length xs ≤ n
    → All w.InRange xs
    → ReadsAll h (vector_loop h t n out) (wires w.wire xs) (out ++ xs)
ReadsAll-vector_loop h {t} w [] n out some few ok = record {
  at = λ front b.
      vector_loop-stops h t n out front some
      ∙ result_eq (sym (append-nil out))
          (ap (λ (x : List ℕ). reader_at h x []) (sym (append-nil front)));
}
ReadsAll-vector_loop h w (x ∷ xs) zero out some few ok = elim few [ ]
ReadsAll-vector_loop {T} h {t} w (x ∷ xs) (suc n) out some few (okx, oks) = record {
  at = λ front b.
      let bs = w.wire x ++ wires w.wire xs in
      ap (λ (y : List ℕ). vector_loop h t (suc n) out (reader_at h front y)) (sym (append-nil bs))
      ∙ vector_loop_round h w n x out front (wires w.wire xs) []
      ∙ ap
          (λ (y : List ℕ).
            (read_primitive h t >>= λ a. vector_loop h t n (out ++ (a ∷ []))) (reader_at h front y))
          (append-nil bs)
      ∙ (ReadsAll-bind h (λ (a : T). vector_loop h t n (out ++ (a ∷ [])))
            (Reads-primitive h w x okx)
            (ReadsAll-vector_loop h w xs n (out ++ (x ∷ [])) some (omega arith) oks)).at
          front b
      ∙ result_eq (append_assoc out (x ∷ []) xs) refl;
}

pub ReadsAll-short_bytes :
    (h : Host) (bytes : List ℕ) (n : ℕ)
    → length bytes ≤ n
    → n < u32_mod
    → All (λ b. b < 256 ^ 1) bytes
    → ReadsAll h (read_sized_vector h uint8) (big_bytes 4 n ++ wires (big_bytes 1) bytes) bytes
unfolding read_sized_vector
ReadsAll-short_bytes h bytes n few small ok =
    let same : n / 1 ≡ n = omega arith in
    ReadsAll-bind h (λ k. vector_loop h uint8 (k / 1) []) (Reads-uint32 h n small)
      (rw same (ReadsAll-vector_loop h wire8 bytes n [] (omega arith) few ok))

-- A loop whose last item runs to the end of the buffer.
pub ReadsAll-loop {ℓ} :
    {A : Type ℓ} (h : Host) {m : Read A} (w : A → List ℕ) (P : A → Type 0) {cut : List ℕ} {y : A}
    → ((x : A) → P x → Reads h m (w x) x)
    → ReadsAll h m cut y
    → (xs out : List A) → All P xs
    → ReadsAll h (read_loop (suc (length xs)) m out) (wires w xs ++ cut) (out ++ (xs ++ (y ∷ [])))
ReadsAll-loop {A} h {m} w P {cut} {y} reads last [] out ok = rw (read_loop_round zero m out) (
    subst (λ (f : A → Read (List A)). ReadsAll h (m >>= f) cut (out ++ (y ∷ [])))
      (λ i a. sym (read_loop_end m (out ++ (a ∷ []))) i)
      (ReadsAll-last h (λ a. out ++ (a ∷ [])) last))
ReadsAll-loop {A} h {m} w P {cut} {y} reads last (x ∷ xs) out (okx, oks) =
    rw
      (
        read_loop_round (suc (length xs)) m out,
        append_assoc (w x) (wires w xs) cut,
        ← append_assoc out (x ∷ []) (xs ++ (y ∷ [])),
      )
      (ReadsAll-bind h (λ (a : A). read_loop (suc (length xs)) m (out ++ (a ∷ []))) (reads x okx)
        (ReadsAll-loop h w P reads last xs (out ++ (x ∷ [])) oks))
