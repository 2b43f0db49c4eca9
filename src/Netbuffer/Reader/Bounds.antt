-- ===== src/Netbuffer/Reader/Bounds.antt =====
-- A reader on any bytes whatever: the iterator and the index move together and stay inside the
-- buffer, and a value that was read with no read out of range took its bytes from the buffer.
use cpp_owl_common.Prelude.{
  ℕ, zero, suc, ◌+◌, ◌/◌, ◌≤◌, ◌<◌, ◌≡◌, refl, ◌∙◌, List, [], ◌∷◌, ◌++◌, Bool, false, length,
  u32_mod, arith,
}
use cpp_owl_common.Netbuffer.Endian.{Host}
use cpp_owl_common.Netbuffer.Primitive.{Primitive, uint16, uint32}
use cpp_owl_common.Netbuffer.Reader.{
  BuffReader, new_reader, Read, ◌>>=◌, read_primitive, read_loop, read_sized_utf16,
}

pub record IsValid (r : BuffReader) : Type 0 where
  pub in_step : r.buff_i ≡ r.cur_index
  pub inside : r.cur_index ≤ length r.buff
  pub small : length r.buff < u32_mod

-- `m` keeps the reader valid and its buffer as it is; and if no read has gone out of range at its
-- end, none had before, and its result accounts for `width` bytes at most of those passed.
pub record Advances {ℓ} {A : Type ℓ} (m : Read A) (width : A → ℕ) : Type ℓ where
  pub valid : (r : BuffReader) → IsValid r → IsValid (m r).1
  pub same_buffer : (r : BuffReader) → (m r).1.buff ≡ r.buff
  pub in_range : (r : BuffReader) → (m r).1.out_of_range ≡ false → r.out_of_range ≡ false
  pub taken :
      (r : BuffReader)
      → IsValid r
      → (m r).1.out_of_range ≡ false
      → r.cur_index + width (m r).0 ≤ (m r).1.cur_index

new_reader-IsValid :
    (h : Host) (buff : List ℕ) (check : Bool)
    → length buff < u32_mod
    → IsValid (new_reader h buff check)
unfolding new_reader
new_reader-IsValid h buff check b = omega arith

module _ {T : Type 0} (h : Host) (t : Primitive T) where
  pub read_primitive-Advances : Advances (read_primitive h t) (λ _. t.size)
  unfolding read_primitive
  read_primitive-Advances = record {
    valid = λ r v. ground arith;
    same_buffer = λ r. ground arith;
    in_range = λ r e. ground arith;
    taken = λ r v e. ground arith;
  }

module _ {ℓ κ} {A : Type ℓ} {B : Type κ} where
  pub Advances-bind :
      {m : Read A} {f : A → Read B} (k : ℕ) (width : B → ℕ)
      → Advances m (λ _. k)
      → ((a : A) → Advances (f a) width)
      → Advances (m >>= f) (λ b. k + width b)
  unfolding ◌>>=◌
  Advances-bind {m} {f} k width am af = record {
    valid = λ r v. (af (m r).0).valid (m r).1 (am.valid r v);
    same_buffer = λ r. (af (m r).0).same_buffer (m r).1 ∙ am.same_buffer r;
    in_range = λ r e. am.in_range r ((af (m r).0).in_range (m r).1 e);
    taken = λ r v e. omega (
      arith,
      am.taken r v ((af (m r).0).in_range (m r).1 e),
      (af (m r).0).taken (m r).1 (am.valid r v) e,
    );
  }

-- The bytes that the items of a sequence account for.
abbrev pub total {ℓ} : {A : Type ℓ} → (A → ℕ) → List A → ℕ
total width [] = 0
total width (x ∷ xs) = width x + total width xs

total-snoc {ℓ} :
    {A : Type ℓ} (width : A → ℕ) (xs : List A) (y : A)
    → total width (xs ++ (y ∷ [])) ≡ total width xs + width y
total-snoc width [] y = omega arith
total-snoc width (x ∷ xs) y = omega (arith, total-snoc width xs y)

module _ {ℓ} {A : Type ℓ} {m : Read A} {width : A → ℕ} (am : Advances m width) where
  loop-IsValid :
      (n : ℕ) (out : List A) (r : BuffReader) → IsValid r → IsValid (read_loop n m out r).1
  unfolding read_loop
  loop-IsValid zero out r v = v
  loop-IsValid (suc n) out r v = loop-IsValid n (out ++ ((m r).0 ∷ [])) (m r).1 (am.valid r v)

  loop_same_buffer : (n : ℕ) (out : List A) (r : BuffReader) → (read_loop n m out r).1.buff ≡ r.buff
  unfolding read_loop
  loop_same_buffer zero out r = refl
  loop_same_buffer (suc n) out r =
      loop_same_buffer n (out ++ ((m r).0 ∷ [])) (m r).1 ∙ am.same_buffer r

  loop_in_range :
      (n : ℕ) (out : List A) (r : BuffReader)
      → (read_loop n m out r).1.out_of_range ≡ false
      → r.out_of_range ≡ false
  unfolding read_loop
  loop_in_range zero out r e = e
  loop_in_range (suc n) out r e = am.in_range r (loop_in_range n (out ++ ((m r).0 ∷ [])) (m r).1 e)

  loop_taken :
      (n : ℕ) (out : List A) (r : BuffReader)
      → IsValid r
      → (read_loop n m out r).1.out_of_range ≡ false
      → r.cur_index + total width (read_loop n m out r).0
        ≤ (read_loop n m out r).1.cur_index + total width out
  unfolding read_loop
  loop_taken zero out r v e = omega arith
  loop_taken (suc n) out r v e =
      let out' = out ++ ((m r).0 ∷ []) in
      omega (
        arith,
        am.taken r v (loop_in_range n out' (m r).1 e),
        loop_taken n out' (m r).1 (am.valid r v) e,
        total-snoc width out (m r).0,
      )

  pub read_loop-Advances : (n : ℕ) → Advances (read_loop n m []) (total width)
  read_loop-Advances n = record {
    valid = loop-IsValid n [];
    same_buffer = loop_same_buffer n [];
    in_range = loop_in_range n [];
    taken = λ r v e. omega (arith, loop_taken n [] r v e);
  }

-- On any bytes, reading a sized string keeps the reader inside its buffer and leaves the buffer as
-- it is; and if no read has gone out of range, the string took four bytes and two for each of its
-- code units, all of them in the buffer.
pub read_sized_utf16-Advances :
    (h : Host) → Advances (read_sized_utf16 h) (λ str. 4 + total (λ _. 2) str)
unfolding read_sized_utf16
read_sized_utf16-Advances h =
    Advances-bind 4 (total (λ _. 2)) (read_primitive-Advances h uint32)
      (λ bytes. read_loop-Advances (read_primitive-Advances h uint16) (bytes / 2))
