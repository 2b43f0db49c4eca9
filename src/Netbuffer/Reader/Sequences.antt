-- ===== src/Netbuffer/Reader/Sequences.antt =====
-- Loops that read a sequence, and the strings and byte vectors of the messages.
use cpp_owl_common.Prelude.{
  ℕ, zero, suc, ◌+◌, ◌*◌, ◌/◌, ◌<◌, ◌≤◌, ◌^◌, ◌≡◌, refl, ◌∙◌, List, [], ◌∷◌, ◌++◌, append-nil,
  append_assoc, true, length, length-append, leb, u32_mod, le→leb, arith, All,
}
use cpp_owl_common.Netbuffer.Endian.{Host, big_bytes}
use cpp_owl_common.Netbuffer.Endian.Laws.{length-big_bytes}
use cpp_owl_common.Netbuffer.Primitive.{Primitive, uint8, uint16, uint32}
use cpp_owl_common.Netbuffer.Primitive.Laws.{Wire, wire8, wire16, wire32}
use cpp_owl_common.Netbuffer.Push.Laws.{wires, sized, sized_utf16}
use cpp_owl_common.Netbuffer.Reader.{
  Read, ◌>>=◌, pure, read_primitive, vector_loop, read_loop, read_sized_vector, read_utf16,
  read_sized_utf16,
}
use cpp_owl_common.Netbuffer.Reader.Reads.{
  reader_at, Reads, result_eq, length-three, Reads-primitive, Reads-pure, Reads-bind,
}

-- One round of a loop that reads an item and puts it behind `out`.
pub read_loop_round {ℓ} :
    {A : Type ℓ} (n : ℕ) (m : Read A) (out : List A)
    → read_loop (suc n) m out ≡ (m >>= λ a. read_loop n m (out ++ (a ∷ [])))
unfolding read_loop ◌>>=◌
read_loop_round n m out = refl

pub read_loop_end {ℓ} : {A : Type ℓ} (m : Read A) (out : List A) → read_loop zero m out ≡ pure out
unfolding read_loop pure
read_loop_end m out = refl

pub Reads-loop {ℓ} :
    {A : Type ℓ} (h : Host) {m : Read A} (w : A → List ℕ) (P : A → Type 0)
    → ((x : A) → P x → Reads h m (w x) x)
    → (xs out : List A) → All P xs
    → Reads h (read_loop (length xs) m out) (wires w xs) (out ++ xs)
Reads-loop h {m} w P reads [] out ok = rw (read_loop_end m out, append-nil out) (Reads-pure h out)
Reads-loop {A} h {m} w P reads (x ∷ xs) out (okx, oks) =
    rw (read_loop_round (length xs) m out, ← append_assoc out (x ∷ []) xs)
      (Reads-bind h (λ (a : A). read_loop (length xs) m (out ++ (a ∷ []))) (reads x okx)
        (Reads-loop h w P reads xs (out ++ (x ∷ [])) oks))

-- The loop of `readSizedVector` also stops where the buffer ends, which it does not here.
pub vector_loop_round :
    {T : Type 0} (h : Host) {t : Primitive T} (w : Wire t) (n : ℕ) (x : T) (out : List T)
    (front more rest : List ℕ)
    → vector_loop h t (suc n) out (reader_at h front ((w.wire x ++ more) ++ rest))
      ≡ (read_primitive h t >>= λ a. vector_loop h t n (out ++ (a ∷ [])))
          (reader_at h front ((w.wire x ++ more) ++ rest))
unfolding vector_loop ◌>>=◌
vector_loop_round h {t} w n x out front more rest =
    let fits : leb (length front + t.size) (length (front ++ ((w.wire x ++ more) ++ rest))) ≡ true =
      le→leb _ _ (
        omega (
          arith,
          length-three front (w.wire x ++ more) rest,
          length-append (w.wire x) more,
          w.length-wire x,
        )) in
    rw (fits, vector_loop)

Reads-vector_loop :
    {T : Type 0} (h : Host) {t : Primitive T} (w : Wire t) (xs out : List T)
    → All w.InRange xs
    → Reads h (vector_loop h t (length xs) out) (wires w.wire xs) (out ++ xs)
Reads-vector_loop h {t} w [] out ok =
    let done : vector_loop h t zero out ≡ pure out = unfold vector_loop pure in refl in
    rw (done, append-nil out) (Reads-pure h out)
Reads-vector_loop {T} h {t} w (x ∷ xs) out (okx, oks) = record {
  at = λ front rest b.
      vector_loop_round h w (length xs) x out front (wires w.wire xs) rest
      ∙ (Reads-bind h (λ (a : T). vector_loop h t (length xs) (out ++ (a ∷ [])))
            (Reads-primitive h w x okx) (Reads-vector_loop h w xs (out ++ (x ∷ [])) oks)).at
          front rest b
      ∙ result_eq (append_assoc out (x ∷ []) xs) refl;
}

-- A UTF-16 code unit.
abbrev pub IsUnit : ℕ → Type 0
IsUnit c = c < 256 ^ 2

pub length-units : (str : List ℕ) → length (wires (big_bytes 2) str) ≡ length str * 2
length-units [] = omega arith
length-units (c ∷ str) = omega (
  arith,
  length-append (big_bytes 2 c) (wires (big_bytes 2) str),
  length-big_bytes 2 c,
  length-units str,
)

length-octets : (bytes : List ℕ) → length (wires (big_bytes 1) bytes) ≡ length bytes
length-octets [] = omega arith
length-octets (c ∷ str) = omega (
  arith,
  length-append (big_bytes 1 c) (wires (big_bytes 1) str),
  length-big_bytes 1 c,
  length-octets str,
)

pub Reads-uint32 :
    (h : Host) (v : ℕ) → v < u32_mod → Reads h (read_primitive h uint32) (big_bytes 4 v) v
Reads-uint32 h v b = Reads-primitive h wire32 v (omega arith)

pub Reads-utf16 :
    (h : Host) (str : List ℕ)
    → All IsUnit str
    → Reads h (read_utf16 h (length str)) (wires (big_bytes 2) str) str
unfolding read_utf16
Reads-utf16 h str ok = Reads-loop h (big_bytes 2) IsUnit (Reads-primitive h wire16) str [] ok

-- A reader behind a count of bytes: where the whole fits in 2 ^ 32 bytes, so does the count.
Reads-sized :
    {A : Type 0} (h : Host) (f : ℕ → Read A) (n : ℕ) {bs : List ℕ} {a : A}
    → n ≤ length bs
    → Reads h (f n) bs a
    → Reads h (read_primitive h uint32 >>= f) (big_bytes 4 n ++ bs) a
Reads-sized h f n {bs} le r = record {
  at = λ front rest b.
      (Reads-bind h f (Reads-uint32 h n (omega (arith, length-append (big_bytes 4 n) bs))) r).at
        front rest b;
}

pub Reads-sized_utf16 :
    (h : Host) (str : List ℕ) → All IsUnit str → Reads h (read_sized_utf16 h) (sized_utf16 str) str
unfolding read_sized_utf16 sized
Reads-sized_utf16 h str ok =
    let half : length str * 2 / 2 ≡ length str = omega arith in
    Reads-sized h (λ bytes. read_loop (bytes / 2) (read_primitive h uint16) []) (length str * 2)
      (omega (arith, length-units str))
      (rw half (Reads-loop h (big_bytes 2) IsUnit (Reads-primitive h wire16) str [] ok))

pub Reads-sized_bytes :
    (h : Host) (bytes : List ℕ)
    → All (λ b. b < 256 ^ 1) bytes
    → Reads h (read_sized_vector h uint8) (sized 1 (big_bytes 1) bytes) bytes
unfolding read_sized_vector sized
Reads-sized_bytes h bytes ok =
    let same : length bytes * 1 / 1 ≡ length bytes = omega arith in
    Reads-sized h (λ n. vector_loop h uint8 (n / 1) []) (length bytes * 1)
      (omega (arith, length-octets bytes)) (rw same (Reads-vector_loop h wire8 bytes [] ok))
