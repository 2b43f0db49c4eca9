-- ===== src/Netbuffer/Reader/Reads.antt =====
-- What a reader returns where the bytes under its cursor are the wire form of a value.
use cpp_owl_common.Prelude.{
  ℕ, ◌+◌, ◌%◌, ◌<◌, ◌≡◌, refl, sym, ap, ◌∙◌, List, [], ◌++◌, append-nil, append_assoc, true, false,
  length, length-append, take, drop-append, take-append_eq, leb, u32_mod, le→leb, arith,
}
use cpp_owl_common.Netbuffer.Endian.{Host, little_endian, from_network_endian}
use cpp_owl_common.Netbuffer.Primitive.{Primitive}
use cpp_owl_common.Netbuffer.Primitive.Laws.{Wire}
use cpp_owl_common.Netbuffer.Reader.{BuffReader, Read, ◌>>=◌, pure, read_primitive}

-- A reader that has taken `front` and has `rest` before it, with no read out of range.
abbrev pub reader_at : Host → List ℕ → List ℕ → BuffReader
reader_at h front rest = record {
  buff_i = length front;
  little_endian = little_endian h;
  out_of_range = false;
  cur_index = length front;
  buff = front ++ rest;
}

-- Where `bs` stands under the cursor, `m` returns `a` and moves behind `bs`. The buffer is shorter
-- than 2 ^ 32 bytes, so that the cursor does not wrap.
pub record Reads {ℓ} {A : Type ℓ} (h : Host) (m : Read A) (bs : List ℕ) (a : A) : Type ℓ where
  pub at :
      (front rest : List ℕ)
      → length front + length bs + length rest < u32_mod
      → m (reader_at h front (bs ++ rest)) ≡ (a, reader_at h (front ++ bs) rest)

-- The reader moved by `n` bytes stands behind `bs` if that is their number.
moved :
    (h : Host) (front bs rest : List ℕ) (n : ℕ)
    → length bs ≡ n
    → length front + length bs + length rest < u32_mod
    → record (reader_at h front (bs ++ rest)) {
      cur_index = (length front + n) % u32_mod;
      buff_i = length front + n;
    }
      ≡ reader_at h (front ++ bs) rest
moved h front bs rest n e b =
    let at_end : length front + n ≡ length (front ++ bs) = omega (arith, length-append front bs) in
    let at_cur : (length front + n) % u32_mod ≡ length (front ++ bs) =
      omega (arith, length-append front bs) in
    λ i. record {
      buff_i = at_end i;
      little_endian = little_endian h;
      out_of_range = false;
      cur_index = at_cur i;
      buff = sym (append_assoc front bs rest) i;
    }

pub result_eq {ℓ} :
    {A : Type ℓ} {a b : A} {r s : BuffReader}
    → a ≡ b
    → r ≡ s
    → ◌≡◌ {A = A × BuffReader} (a, r) (b, s)
result_eq p q = λ i. (p i, q i)

pub length-three :
    (front bs rest : List ℕ)
    → length (front ++ (bs ++ rest)) ≡ length front + length bs + length rest
length-three front bs rest = omega (arith, length-append front (bs ++ rest), length-append bs rest)

read_primitive-at :
    {T : Type 0} (h : Host) {t : Primitive T} (w : Wire t) (v : T) (front rest : List ℕ)
    → w.InRange v
    → length front + length (w.wire v) + length rest < u32_mod
    → read_primitive h t (reader_at h front (w.wire v ++ rest))
      ≡ (v, reader_at h (front ++ w.wire v) rest)
unfolding read_primitive
read_primitive-at h {t} w v front rest ok b =
    let bs = w.wire v in
    let fits : leb (length front + t.size) (length (front ++ (bs ++ rest))) ≡ true =
      le→leb _ _ (omega (arith, length-three front bs rest, w.length-wire v)) in
    let from = λ (x : List ℕ). t.value h (from_network_endian h x t.size) in
    rw fits (
      result_eq
        (ap (λ (x : List ℕ). from (take t.size x)) (drop-append front (bs ++ rest))
          ∙ ap from (take-append_eq bs rest (w.length-wire v))
          ∙ w.from_network h v ok)
        (moved h front bs rest t.size (w.length-wire v) b))

pub Reads-primitive :
    {T : Type 0} (h : Host) {t : Primitive T} (w : Wire t) (v : T)
    → w.InRange v
    → Reads h (read_primitive h t) (w.wire v) v
Reads-primitive h w v ok = record { at = λ front rest b. read_primitive-at h w v front rest ok b }

-- A reader that reads nothing.
pub Reads-pure {ℓ} : {A : Type ℓ} (h : Host) (a : A) → Reads h (pure a) [] a
unfolding pure
Reads-pure h a = record {
  at = λ front rest b.
      result_eq refl (ap (λ (x : List ℕ). reader_at h x rest) (sym (append-nil front)));
}

module _ {ℓ κ} {A : Type ℓ} {B : Type κ} (h : Host) where
  pub Reads-bind :
      {m : Read A} (f : A → Read B) {bs cs : List ℕ} {a : A} {c : B}
      → Reads h m bs a
      → Reads h (f a) cs c
      → Reads h (m >>= f) (bs ++ cs) c
  unfolding ◌>>=◌
  Reads-bind {m} f {bs} {cs} {a} {c} rm rf = record {
    at = λ front rest b.
        let k = λ (p : A × BuffReader). f p.0 p.1 in
        ap (λ (x : List ℕ). k (m (reader_at h front x))) (append_assoc bs cs rest)
        ∙ ap k
            (rm.at front (cs ++ rest) (omega (arith, length-append bs cs, length-append cs rest)))
        ∙ rf.at (front ++ bs) rest (omega (arith, length-append bs cs, length-append front bs))
        ∙ ap (λ (x : List ℕ). (c, reader_at h x rest)) (append_assoc front bs cs);
  }

  -- The last read of a block, whose result is made from it.
  pub Reads-last :
      {m : Read A} (f : A → B) {bs : List ℕ} {a : A}
      → Reads h m bs a
      → Reads h (m >>= λ x. pure (f x)) bs (f a)
  unfolding ◌>>=◌ pure
  Reads-last {m} f {bs} {a} rm = record {
    at = λ front rest b. ap (λ (p : A × BuffReader). (f p.0, p.1)) (rm.at front rest b);
  }

-- The same for a reader that runs to the end of the buffer.
pub record ReadsAll {ℓ} {A : Type ℓ} (h : Host) (m : Read A) (bs : List ℕ) (a : A) : Type ℓ where
  pub at :
      (front : List ℕ)
      → length front + length bs < u32_mod
      → m (reader_at h front bs) ≡ (a, reader_at h (front ++ bs) [])

pub ReadsAll-end {ℓ} :
    {A : Type ℓ} (h : Host) {m : Read A} {bs : List ℕ} {a : A} → Reads h m bs a → ReadsAll h m bs a
ReadsAll-end h {m} {bs} r = record {
  at = λ front b.
      ap (λ (x : List ℕ). m (reader_at h front x)) (sym (append-nil bs))
      ∙ r.at front [] (omega arith);
}

module _ {ℓ κ} {A : Type ℓ} {B : Type κ} (h : Host) where
  pub ReadsAll-bind :
      {m : Read A} (f : A → Read B) {bs cs : List ℕ} {a : A} {c : B}
      → Reads h m bs a
      → ReadsAll h (f a) cs c
      → ReadsAll h (m >>= f) (bs ++ cs) c
  unfolding ◌>>=◌
  ReadsAll-bind {m} f {bs} {cs} {a} {c} rm rf = record {
    at = λ front b.
        ap (λ (p : A × BuffReader). f p.0 p.1) (rm.at front cs (omega (arith, length-append bs cs)))
        ∙ rf.at (front ++ bs) (omega (arith, length-append bs cs, length-append front bs))
        ∙ ap (λ (x : List ℕ). (c, reader_at h x [])) (append_assoc front bs cs);
  }

  pub ReadsAll-last :
      {m : Read A} (f : A → B) {bs : List ℕ} {a : A}
      → ReadsAll h m bs a
      → ReadsAll h (m >>= λ x. pure (f x)) bs (f a)
  unfolding ◌>>=◌ pure
  ReadsAll-last f rm = record {
    at = λ front b. ap (λ (p : A × BuffReader). (f p.0, p.1)) (rm.at front b);
  }
