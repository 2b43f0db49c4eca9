-- ===== src/Netbuffer/Strings.antt =====
-- The free functions of netbuffer.cpp that read strings at an index, `readUTF16` and
-- `readSizedUTF16`.
use cpp_owl_common.Prelude.{
  ℕ, zero, suc, ◌+◌, ◌-◌, ◌*◌, ◌/◌, ◌%◌, ◌^◌, ◌<◌, ◌≤◌, ◌≡◌, refl, sym, ap, ap₂, subst, ◌∙◌, List,
  Option, none, some, [], ◌∷◌, ◌++◌, append_assoc, length, length-append, All, Bool-cases, inl, inr,
  true, false, ltb, leb, le→leb, ◌&&◌, if◌then◌else◌, lt→ltb, take, take-append_eq, drop-append_eq,
  arith,
}
use cpp_owl_common.Netbuffer.Endian.{Host, big_bytes, from_network_endian}
use cpp_owl_common.Netbuffer.Endian.Laws.{length-big_bytes}
use cpp_owl_common.Netbuffer.Primitive.{Primitive, uint16, uint32}
use cpp_owl_common.Netbuffer.Primitive.Laws.{Wire, wire16, wire32}
use cpp_owl_common.Netbuffer.Push.{Buffer, push_back_sized_utf16}
use cpp_owl_common.Netbuffer.Push.Laws.{wires, sized, push_back_sized_utf16-Appends}
use cpp_owl_common.Netbuffer.Reader.{read_primitive_at}
use cpp_owl_common.Netbuffer.Reader.Sequences.{length-units}

-- The free function reads a value whose bytes all stand at the index.
pub read_primitive_at-middle :
    {T : Type 0} (h : Host) {t : Primitive T} (w : Wire t) (v : T) (front rest : List ℕ) (n : ℕ)
    → w.InRange v
    → 0 < t.size
    → length front ≡ n
    → read_primitive_at h t (front ++ (w.wire v ++ rest)) n ≡ v
unfolding read_primitive_at
read_primitive_at-middle h {t} w v front rest n ok wide e =
    let buff = front ++ (w.wire v ++ rest) in
    let there : ltb (n + (t.size - 1)) (length buff) ≡ true = lt→ltb _ _ (
      omega (
        arith,
        length-append front (w.wire v ++ rest),
        length-append (w.wire v) rest,
        w.length-wire v,
      )) in
    rw there (
      ap (λ (x : List ℕ). t.value h (from_network_endian h (take t.size x) t.size))
        (drop-append_eq front (w.wire v ++ rest) e)
      ∙ ap (λ (x : List ℕ). t.value h (from_network_endian h x t.size))
          (take-append_eq (w.wire v) rest (w.length-wire v))
      ∙ w.from_network h v ok)

-- An int, by its bit pattern, as a size_t: the sign is extended.
unfoldable pub to_size : ℕ → ℕ
to_size start = if ltb start (2 ^ 31) then start else start + (2 ^ 64 - 2 ^ 32)

module _ (h : Host) (buff : Buffer) where
  -- `for (size_t index = 0; index*sizeof(char16_t) < size and start + index*sizeof(char16_t) <=
  -- buff.size(); ++index)`, in as many rounds as are left at most.
  unfoldable pub utf16_loop : ℕ → ℕ → ℕ → ℕ → List ℕ
  utf16_loop zero start size index = []
  utf16_loop (suc fuel) start size index =
      let rest = utf16_loop fuel start size (index + 1) in
      if ltb (index * 2) size && leb (start + index * 2) (length buff)
      then read_primitive_at h uint16 buff (start + index * 2) ∷ rest
      else []

  -- `readUTF16`, with `size` as the fuel of its loop. `buff.size() - start` is a size_t.
  unfoldable pub read_utf16_at : ℕ → ℕ → List ℕ
  unfolding utf16_loop
  read_utf16_at start size =
      if ltb ((length buff + 2 ^ 64 - start) % 2 ^ 64) (size * 2 % 2 ^ 64)
      then []
      else utf16_loop size start size 0

  -- `start` is an int, here its bit pattern, and an index as a size_t; `start += sizeof(size)` turns
  -- the sum back to an int. None where adding 3 to a small negative index wraps, so that
  -- `readPrimitive` passes its test and reads in front of the buffer.
  unfoldable pub read_sized_utf16_at : ℕ → Option (List ℕ)
  unfolding to_size read_utf16_at
  read_sized_utf16_at start =
      let index = to_size start in
      let size = read_primitive_at h uint32 buff index / 2 in
      if ltb (length buff) index && ltb ((index + 3) % 2 ^ 64) (length buff)
      then none
      else some (read_utf16_at (to_size ((start + 4) % 2 ^ 32)) size)

take-nil : (n : ℕ) → take {A = ℕ} n [] ≡ []
take-nil zero = refl
take-nil (suc n) = refl

no_fuel : (index size n : ℕ) → index + suc n ≡ size → size ≤ index + 0 → ⊥
no_fuel index size n e b = omega arith

-- The loop with `index` characters read stops once two bytes a character make up the number of
-- characters.
utf16_loop-half :
    (h : Host) (str front back : List ℕ) (fuel start size index : ℕ)
    → All (λ c. c < 2 ^ 16) str
    → length front ≡ start + index * 2
    → index + length str ≡ size
    → size ≤ index + fuel
    → utf16_loop h (front ++ (wires (big_bytes 2) str ++ back)) fuel start size index
      ≡ take ((size + 1) / 2 - index) str
unfolding utf16_loop
utf16_loop-half h [] front back zero start size index ok e n enough =
    sym (take-nil ((size + 1) / 2 - index))
utf16_loop-half h (c ∷ str) front back zero start size index ok e n enough =
    elim (no_fuel index size (length str) n enough) [ ]
utf16_loop-half h [] front back (suc fuel) start size index ok e n enough =
    let ends : ltb (index * 2) size ≡ false = ground arith in
    rw ends (sym (take-nil ((size + 1) / 2 - index)))
utf16_loop-half h (c ∷ str) front back (suc fuel) start size index (fit, ok) e n enough =
    elim (Bool-cases (ltb (index * 2) size)) [
      | inl more ↦
          let one = big_bytes 2 c in
          let buff = front ++ ((one ++ wires (big_bytes 2) str) ++ back) in
          let inside : leb (start + index * 2) (length buff) ≡ true =
            le→leb _ _
              (omega (arith, e, length-append front ((one ++ wires (big_bytes 2) str) ++ back))) in
          let shape : buff ≡ front ++ (one ++ (wires (big_bytes 2) str ++ back)) =
            ap (λ (x : List ℕ). front ++ x) (append_assoc one (wires (big_bytes 2) str) back) in
          let shape' : buff ≡ (front ++ one) ++ (wires (big_bytes 2) str ++ back) =
            shape ∙ sym (append_assoc front one (wires (big_bytes 2) str ++ back)) in
          let value : read_primitive_at h uint16 buff (start + index * 2) ≡ c =
            ap (λ (x : List ℕ). read_primitive_at h uint16 x (start + index * 2)) shape
            ∙ read_primitive_at-middle h wire16 c front (wires (big_bytes 2) str ++ back) _
                (omega (arith, fit)) (omega arith) e in
          let rest : (utf16_loop h buff fuel start size (index + 1)
              ≡ take ((size + 1) / 2 - (index + 1)) str) =
            ap (λ (x : List ℕ). utf16_loop h x fuel start size (index + 1)) shape'
            ∙ utf16_loop-half h str (front ++ one) back fuel start size (index + 1) ok
                (omega (arith, length-append front one, length-big_bytes 2 c, e)) (omega (arith, n))
                (omega (arith, enough)) in
          let next : suc ((size + 1) / 2 - (index + 1)) ≡ (size + 1) / 2 - index = ground arith in
          rw (more, inside)
            (ap₂ (λ (x : ℕ) (xs : List ℕ). x ∷ xs) value rest
              ∙ ap (λ (k : ℕ). take k (c ∷ str)) next)
      | inr ends ↦ let stop : (size + 1) / 2 - index ≡ 0 = ground arith in rw (ends, stop)
    ]

to_size-small : (start : ℕ) → start < 2 ^ 31 → to_size start ≡ start
unfolding to_size
to_size-small start b = rw (lt→ltb start (2 ^ 31) b)

le→ltb_false : (a b : ℕ) → b ≤ a → ltb a b ≡ false
le→ltb_false a b h = ground arith

fits_in :
    (total start n : ℕ)
    → total < 2 ^ 32
    → start + n * 2 ≤ total
    → ltb ((total + 2 ^ 64 - start) % 2 ^ 64) (n * 2 % 2 ^ 64) ≡ false
fits_in total start n b e =
    let left : (total + 2 ^ 64 - start) % 2 ^ 64 ≡ total - start = omega arith in
    let bytes : n * 2 % 2 ^ 64 ≡ n * 2 = omega arith in
    let enough : ltb (total - start) (n * 2) ≡ false = ground arith in rw (left, bytes) enough

-- Where the characters are all there.
read_utf16_at-half :
    (h : Host) (str front back : List ℕ) (start : ℕ)
    → All (λ c. c < 2 ^ 16) str
    → length front ≡ start
    → length (front ++ (wires (big_bytes 2) str ++ back)) < 2 ^ 32
    → read_utf16_at h (front ++ (wires (big_bytes 2) str ++ back)) start (length str)
      ≡ take ((length str + 1) / 2) str
unfolding read_utf16_at
read_utf16_at-half h str front back start ok e fits =
    let buff = front ++ (wires (big_bytes 2) str ++ back) in
    let all_there : ltb ((length buff + 2 ^ 64 - start) % 2 ^ 64) (length str * 2 % 2 ^ 64)
        ≡ false =
      fits_in (length buff) start (length str) (omega (arith, fits)) (
        omega (
          arith,
          e,
          length-append front (wires (big_bytes 2) str ++ back),
          length-append (wires (big_bytes 2) str) back,
          length-units str,
        )) in
    let all_of_it : (length str + 1) / 2 - 0 ≡ (length str + 1) / 2 = omega arith in
    rw all_there (
      utf16_loop-half h str front back (length str) start (length str) 0 ok (omega (arith, e))
        (omega arith) (omega arith)
      ∙ ap (λ (k : ℕ). take k str) all_of_it)

-- A string written by `pushBackSizedUTF16` and read by the free function `readSizedUTF16` comes back
-- as its first half, the middle character included: the loop compares the number of bytes with the
-- number of characters. The string's characters fit 16 bits, and the buffer is shorter than
-- 2 ^ 31 bytes, so that the index fits an int.
pub read_sized_utf16_at-half :
    (h h' : Host) (str front back : List ℕ)
    → All (λ c. c < 2 ^ 16) str
    → length ((push_back_sized_utf16 h str front).0 ++ back) < 2 ^ 31
    → read_sized_utf16_at h' ((push_back_sized_utf16 h str front).0 ++ back) (length front)
      ≡ some (take ((length str + 1) / 2) str)
unfolding read_sized_utf16_at sized
read_sized_utf16_at-half h h' str front back ok fits =
    let n = length str in
    let ws = wires (big_bytes 2) str in
    let four = big_bytes 4 (n * 2) in
    let buff = (front ++ (four ++ ws)) ++ back in
    let written : (push_back_sized_utf16 h str front).0 ++ back ≡ buff =
      ap (λ (p : Buffer × ℕ). p.0 ++ back) (push_back_sized_utf16-Appends h str front) in
    let shape : buff ≡ front ++ (four ++ (ws ++ back)) =
      append_assoc front (four ++ ws) back
      ∙ ap (λ (x : List ℕ). front ++ x) (append_assoc four ws back) in
    let shape' : buff ≡ (front ++ four) ++ (ws ++ back) =
      shape ∙ sym (append_assoc front four (ws ++ back)) in
    let fits' : length ((front ++ four) ++ (ws ++ back)) < 2 ^ 31 =
      subst (λ x. length x < 2 ^ 31) (written ∙ shape') fits in
    let few : n * 2 < 2 ^ 32 = omega (
      arith,
      fits',
      length-append (front ++ four) (ws ++ back),
      length-append ws back,
      length-units str,
    ) in
    let size : read_primitive_at h' uint32 buff (length front) ≡ n * 2 =
      ap (λ (x : List ℕ). read_primitive_at h' uint32 x (length front)) shape
      ∙ read_primitive_at-middle h' wire32 (n * 2) front (ws ++ back) (length front)
          (omega (arith, few)) (omega arith) refl in
    let halved : n * 2 / 2 ≡ n = omega arith in
    let total : length front + 4 + length (ws ++ back) < 2 ^ 31 = omega (
      arith,
      fits',
      length-append (front ++ four) (ws ++ back),
      length-append front four,
      length-big_bytes 4 (n * 2),
    ) in
    let index : to_size (length front) ≡ length front =
      to_size-small (length front) (omega (arith, total)) in
    let index' : to_size ((length front + 4) % 2 ^ 32) ≡ length front + 4 =
      let fits_int : (length front + 4) % 2 ^ 32 ≡ length front + 4 = omega (arith, total) in
      ap to_size fits_int ∙ to_size-small (length front + 4) (omega (arith, total)) in
    let inside : ltb (length buff) (length front) ≡ false =
      le→ltb_false _ _
        (omega (arith, ap length shape, length-append front (four ++ (ws ++ back)))) in
    ap (λ (x : List ℕ). read_sized_utf16_at h' x (length front)) written
    ∙ rw (index, index', inside, size, halved)
        (ap (λ (x : List ℕ). some (read_utf16_at h' x (length front + 4) n)) shape'
          ∙ ap (λ (x : List ℕ). some x)
              (read_utf16_at-half h' str (front ++ four) back (length front + 4) ok
                (omega (arith, length-append front four, length-big_bytes 4 (n * 2)))
                (omega (arith, fits'))))
