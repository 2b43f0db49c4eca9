-- ===== src/Netbuffer/Reader/Misses.antt =====
-- What a reader does where the bytes under its cursor are the front of a value's wire form and the
-- rest is not there: it remembers a read out of range.
use native.Mathlib.Decide.{dec_lt}
use cpp_owl_common.Prelude.{
  ℕ, zero, suc, ◌+◌, ◌-◌, ◌*◌, ◌/◌, ◌<◌, ◌≤◌, ◌≡◌, sym, ap, subst, ◌∙◌, List, [], ◌∷◌, ◌++◌, true,
  false, length, length-append, take, length-take, take-append_long, leb, lt→leb_false, All,
  u32_mod, arith,
}
use cpp_owl_common.Netbuffer.Endian.{Host, big_bytes}
use cpp_owl_common.Netbuffer.Primitive.{Primitive, uint16, uint32}
use cpp_owl_common.Netbuffer.Primitive.Laws.{Wire, wire16, wire32}
use cpp_owl_common.Netbuffer.Push.Laws.{wires, sized, sized_utf16}
use cpp_owl_common.Netbuffer.Reader.{
  BuffReader, Read, ◌>>=◌, pure, read_primitive, read_loop, read_sized_utf16,
}
use cpp_owl_common.Netbuffer.Reader.Reads.{reader_at, Reads, Reads-primitive}
use cpp_owl_common.Netbuffer.Reader.Sequences.{read_loop_round, Reads-uint32, IsUnit, length-units}

-- A read out of range is not forgotten.
pub record Sticky {ℓ} {A : Type ℓ} (m : Read A) : Type ℓ where
  pub stays : (r : BuffReader) → r.out_of_range ≡ true → (m r).1.out_of_range ≡ true

-- Where less than `bs` is left, `m` goes out of range.
pub record Misses {ℓ} {A : Type ℓ} (h : Host) (m : Read A) (bs : List ℕ) : Type ℓ where
  pub at :
      (front : List ℕ) (n : ℕ)
      → n < length bs
      → length front + length bs < u32_mod
      → (m (reader_at h front (take n bs))).1.out_of_range ≡ true

pub Sticky-pure {ℓ} : {A : Type ℓ} (a : A) → Sticky (pure a)
unfolding pure
Sticky-pure a = record { stays = λ r e. e }

pub Sticky-primitive : {T : Type 0} (h : Host) (t : Primitive T) → Sticky (read_primitive h t)
unfolding read_primitive
Sticky-primitive h t = record { stays = λ r e. ground arith }

pub Sticky-bind {ℓ κ} :
    {A : Type ℓ} {B : Type κ} {m : Read A} {f : A → Read B}
    → Sticky m
    → ((a : A) → Sticky (f a))
    → Sticky (m >>= f)
unfolding ◌>>=◌
Sticky-bind {m} {f} sm sf = record { stays = λ r e. (sf (m r).0).stays (m r).1 (sm.stays r e) }

pub Sticky-loop {ℓ} :
    {A : Type ℓ} {m : Read A} (n : ℕ) (out : List A) → Sticky m → Sticky (read_loop n m out)
unfolding read_loop
Sticky-loop zero out sm = record { stays = λ r e. e }
Sticky-loop {m} (suc n) out sm = record {
  stays = λ r e. (Sticky-loop n (out ++ ((m r).0 ∷ [])) sm).stays (m r).1 (sm.stays r e);
}

pub Sticky-sized_utf16 : (h : Host) → Sticky (read_sized_utf16 h)
unfolding read_sized_utf16
Sticky-sized_utf16 h =
    Sticky-bind (Sticky-primitive h uint32)
      (λ bytes. Sticky-loop (bytes / 2) [] (Sticky-primitive h uint16))

pub Misses-primitive :
    {T : Type 0} (h : Host) {t : Primitive T} (w : Wire t) (v : T)
    → Misses h (read_primitive h t) (w.wire v)
unfolding read_primitive
Misses-primitive h {t} w v = record {
  at = λ front n few b.
      let short : leb (length front + t.size) (length (front ++ take n (w.wire v))) ≡ false =
        lt→leb_false _ _ (
          omega (
            arith,
            length-append front (take n (w.wire v)),
            length-take n (w.wire v),
            w.length-wire v,
          )) in
      rw short;
}

take-append_more {ℓ} :
    {A : Type ℓ} (xs ys : List A) (n : ℕ)
    → length xs ≤ n
    → take n (xs ++ ys) ≡ xs ++ take (n - length xs) ys
take-append_more [] ys n b = let same : n ≡ n - 0 = omega arith in ap (λ (k : ℕ). take k ys) same
take-append_more (x ∷ xs) ys zero b = elim b [ ]
take-append_more (x ∷ xs) ys (suc n) b =
    let same : n - length xs ≡ suc n - suc (length xs) = omega arith in
    ap (λ t. x ∷ t) (take-append_more xs ys n (omega arith) ∙ ap (λ (k : ℕ). xs ++ take k ys) same)

module _ {ℓ κ} {A : Type ℓ} {B : Type κ} (h : Host) where
  pub Misses-bind :
      {m : Read A} (f : A → Read B) {bs cs : List ℕ} {a : A}
      → Reads h m bs a
      → Misses h m bs
      → ((x : A) → Sticky (f x))
      → Misses h (f a) cs
      → Misses h (m >>= f) (bs ++ cs)
  unfolding ◌>>=◌
  Misses-bind {m} f {bs} {cs} {a} reads mm sf mf = record {
    at = λ front n few b. elim (dec_lt n (length bs)) [
      | yes early ↦
          rw (take-append_long n bs cs (omega arith))
            ((sf _).stays _ (mm.at front n early (omega (arith, length-append bs cs))))
      | no late ↦
          let k = n - length bs in
          rw (take-append_more bs cs n (omega arith)) (
            subst (λ (p : A × BuffReader). (f p.0 p.1).1.out_of_range ≡ true)
              (sym
                (reads.at front (take k cs) (omega (arith, length-append bs cs, length-take k cs))))
              (mf.at (front ++ bs) k (omega (arith, length-append bs cs))
                (omega (arith, length-append bs cs, length-append front bs))))
    ];
  }

  -- The last read of a block, whose result is made from it.
  pub Misses-last :
      {m : Read A} (f : A → B) {bs : List ℕ} → Misses h m bs → Misses h (m >>= λ x. pure (f x)) bs
  unfolding ◌>>=◌ pure
  Misses-last f mm = record { at = mm.at }

  -- Where the first of two reads goes out of range, so does the whole.
  pub Misses-front :
      {m : Read A} {f : A → Read B} {bs : List ℕ}
      → Misses h m bs
      → ((x : A) → Sticky (f x))
      → Misses h (m >>= f) bs
  unfolding ◌>>=◌
  Misses-front mm sf = record { at = λ front n few b. (sf _).stays _ (mm.at front n few b) }

pub Misses-loop {ℓ} :
    {A : Type ℓ} (h : Host) {m : Read A} (w : A → List ℕ) (P : A → Type 0)
    → ((x : A) → P x → Reads h m (w x) x)
    → ((x : A) → P x → Misses h m (w x))
    → Sticky m
    → (xs out : List A) → All P xs
    → Misses h (read_loop (length xs) m out) (wires w xs)
Misses-loop h w P reads misses sticky [] out ok = record { at = λ front n few b. elim few [ ] }
Misses-loop {A} h {m} w P reads misses sticky (x ∷ xs) out (okx, oks) =
    rw (read_loop_round (length xs) m out) (
      Misses-bind h (λ (a : A). read_loop (length xs) m (out ++ (a ∷ []))) (reads x okx)
        (misses x okx) (λ a. Sticky-loop (length xs) (out ++ (a ∷ [])) sticky)
        (Misses-loop h w P reads misses sticky xs (out ++ (x ∷ [])) oks))

pub Misses-uint32 : (h : Host) (v : ℕ) → Misses h (read_primitive h uint32) (big_bytes 4 v)
Misses-uint32 h v = Misses-primitive h wire32 v

pub Misses-sized_utf16 :
    (h : Host) (str : List ℕ) → All IsUnit str → Misses h (read_sized_utf16 h) (sized_utf16 str)
unfolding read_sized_utf16 sized
Misses-sized_utf16 h str ok = record {
  at = λ front n few b.
      let half : length str * 2 / 2 ≡ length str = omega arith in
      let units = λ (k : ℕ). read_loop k (read_primitive h uint16) [] in
      let bytes = big_bytes 4 (length str * 2) in
      (Misses-bind h (λ k. units (k / 2))
          (Reads-uint32 h (length str * 2)
            (omega (arith, length-append bytes (wires (big_bytes 2) str), length-units str)))
          (Misses-uint32 h (length str * 2))
          (λ k. Sticky-loop (k / 2) [] (Sticky-primitive h uint16))
          (rw half (
            Misses-loop h (big_bytes 2) IsUnit (Reads-primitive h wire16)
              (λ c _. Misses-primitive h wire16 c) (Sticky-primitive h uint16) str [] ok))).at
        front n few b;
}

-- By these a block of reads is sticky, whatever is read.
pub ruleset sticky = (Sticky-pure, Sticky-primitive, Sticky-bind, Sticky-loop, Sticky-sized_utf16)
