-- ===== src/Netbuffer/Push/Laws.antt =====
-- What the writing functions append, on either host: each value in network order, and a count that
-- is the number of bytes appended.
use cpp_owl_common.Prelude.{
  ℕ, ◌+◌, ◌*◌, ◌/◌, ◌%◌, ◌<◌, ◌^◌, ◌≡◌, refl, sym, ap, ap₂, ◌∙◌, List, [], ◌∷◌, ◌++◌, append-nil,
  append_assoc, length, length-append, set, u32_mod, arith,
}
use cpp_owl_common.Netbuffer.Endian.{Host, big_bytes}
use cpp_owl_common.Netbuffer.Endian.Laws.{length-big_bytes}
use cpp_owl_common.Netbuffer.Primitive.{Primitive, uint32}
use cpp_owl_common.Netbuffer.Primitive.Laws.{Wire, wire16, wire32}
use cpp_owl_common.Netbuffer.Push.{
  Buffer, push_bytes, copy_into, push_back_val, push_back_val_at, push_each, push_container,
  push_sized_container, push_back_utf16, push_back_sized_utf16,
}

-- The wire form of a sequence: that of each item in turn.
abbrev pub wires {ℓ} : {A : Type ℓ} → (A → List ℕ) → List A → List ℕ
wires w [] = []
wires w (x ∷ xs) = w x ++ wires w xs

-- `p` appends `bs` to any buffer and returns their number, as a uint32_t.
abbrev pub Appends : (Buffer → Buffer × ℕ) → List ℕ → Type 0
Appends p bs = (buff : Buffer) → p buff ≡ (buff ++ bs, length bs % u32_mod)

push_bytes-eq-append : (bs buff : List ℕ) → push_bytes bs buff ≡ buff ++ bs
unfolding push_bytes
push_bytes-eq-append [] buff = sym (append-nil buff)
push_bytes-eq-append (b ∷ bs) buff =
    push_bytes-eq-append bs (buff ++ (b ∷ [])) ∙ append_assoc buff (b ∷ []) bs

pair_eq : {x y : Buffer} {m n : ℕ} → x ≡ y → m ≡ n → ◌≡◌ {A = Buffer × ℕ} (x, m) (y, n)
pair_eq p q = λ i. (p i, q i)

module _ {T : Type 0} (h : Host) {t : Primitive T} (w : Wire t) where
  -- `sizeof(T)` is far below 2 ^ 32 for each type that the code pushes.
  pub push_back_val-Appends : (v : T) → t.size < u32_mod → Appends (push_back_val h t v) (w.wire v)
  unfolding push_back_val
  push_back_val-Appends v s buff =
      pair_eq (push_bytes-eq-append _ buff ∙ ap (λ (x : List ℕ). buff ++ x) (w.to_network h v))
        (omega (arith, w.length-wire v))

  push_each-wires :
      (xs : List T) (buff : Buffer) (size : ℕ)
      → t.size < u32_mod
      → size < u32_mod
      → push_each h t xs buff size
        ≡ (buff ++ wires w.wire xs, (size + length (wires w.wire xs)) % u32_mod)
  unfolding push_each
  push_each-wires [] buff size s b = pair_eq (sym (append-nil buff)) (omega arith)
  push_each-wires (x ∷ xs) buff size s b =
      ap (λ (p : Buffer × ℕ). push_each h t xs p.0 ((size + p.1) % u32_mod))
        (push_back_val-Appends x s buff)
      ∙ push_each-wires xs (buff ++ w.wire x) _ s (omega arith)
      ∙ pair_eq (append_assoc buff (w.wire x) (wires w.wire xs))
          (omega (arith, length-append (w.wire x) (wires w.wire xs)))

  pub push_container-Appends :
      (xs : List T) → t.size < u32_mod → Appends (push_container h t xs) (wires w.wire xs)
  unfolding push_container
  push_container-Appends xs s buff =
      push_each-wires xs buff 0 s (omega arith) ∙ pair_eq refl (omega arith)

-- A sequence behind its size in bytes.
unfoldable pub sized {ℓ} : {A : Type ℓ} → ℕ → (A → List ℕ) → List A → List ℕ
sized size w xs = big_bytes 4 (length xs * size) ++ wires w xs

pub big_bytes-mod : (v : ℕ) → big_bytes 4 (v % u32_mod) ≡ big_bytes 4 v
unfolding big_bytes
big_bytes-mod v = λ i. a i ∷ b i ∷ c i ∷ d i ∷ []
  where
    a : v % u32_mod / 256 ^ 3 % 256 ≡ v / 256 ^ 3 % 256
    a = omega arith

    b : v % u32_mod / 256 ^ 2 % 256 ≡ v / 256 ^ 2 % 256
    b = omega arith

    c : v % u32_mod / 256 ^ 1 % 256 ≡ v / 256 ^ 1 % 256
    c = omega arith

    d : v % u32_mod / 256 ^ 0 % 256 ≡ v / 256 ^ 0 % 256
    d = omega arith

module _ {T : Type 0} (h : Host) {t : Primitive T} (w : Wire t) where
  -- The count that goes first is the size of the sequence in bytes, modulo 2 ^ 32.
  sized_each :
      (n : ℕ) (xs : List T) (buff : Buffer)
      → t.size < u32_mod
      → (let (buff', k) = push_back_val h uint32 (n % u32_mod) buff in
          push_each h t xs buff' ((0 + k) % u32_mod))
        ≡ (
          buff ++ (big_bytes 4 n ++ wires w.wire xs),
          length (big_bytes 4 n ++ wires w.wire xs) % u32_mod,
        )
  sized_each n xs buff s =
      ap (λ (p : Buffer × ℕ). push_each h t xs p.0 ((0 + p.1) % u32_mod))
        (push_back_val-Appends h wire32 (n % u32_mod) (omega arith) buff
          ∙ pair_eq (ap (λ (x : List ℕ). buff ++ x) (big_bytes-mod n)) refl)
      ∙ push_each-wires h w xs (buff ++ big_bytes 4 n) _ s (omega arith)
      ∙ pair_eq (append_assoc buff (big_bytes 4 n) (wires w.wire xs)) (
          omega (
            arith,
            length-append (big_bytes 4 n) (wires w.wire xs),
            length-big_bytes 4 n,
            length-big_bytes 4 (n % u32_mod),
          ))

  pub push_sized_container-Appends :
      (xs : List T)
      → t.size < u32_mod
      → Appends (push_sized_container h t xs) (sized t.size w.wire xs)
  unfolding push_sized_container sized
  push_sized_container-Appends xs s buff = sized_each (length xs * t.size) xs buff s

-- A UTF-16 string in a message: its size in bytes, then each code unit.
abbrev pub sized_utf16 : List ℕ → List ℕ
sized_utf16 = sized 2 (big_bytes 2)

pub push_back_utf16-Appends :
    (h : Host) (str : List ℕ) → Appends (push_back_utf16 h str) (wires (big_bytes 2) str)
unfolding push_back_utf16
push_back_utf16-Appends h str buff =
    push_each-wires h wire16 str buff 0 (omega arith) (omega arith) ∙ pair_eq refl (omega arith)

-- `pushBackSizedUTF16` appends, on either host, the size in bytes and each code unit in network
-- order, and returns the number of bytes that it appends.
pub push_back_sized_utf16-Appends :
    (h : Host) (str : List ℕ) → Appends (push_back_sized_utf16 h str) (sized_utf16 str)
unfolding push_back_sized_utf16 sized
push_back_sized_utf16-Appends h str buff =
    sized_each h wire16 (length str * 2) str buff (omega arith)

-- Bytes written over the same number of bytes in the middle of a buffer take their place.
copy_into-append :
    (new front old back : List ℕ)
    → length new ≡ length old
    → copy_into new (front ++ (old ++ back)) (length front) ≡ front ++ (new ++ back)
unfolding copy_into
copy_into-append [] front [] back e = refl
copy_into-append [] front (o ∷ old) back e = absurd (omega arith)
copy_into-append (b ∷ new) front [] back e = absurd (omega arith)
copy_into-append (b ∷ new) front (o ∷ old) back e =
    ap₂ (λ (x : List ℕ) (n : ℕ). copy_into new x n)
      (set-append front o b (old ++ back) ∙ sym (append_assoc front (b ∷ []) (old ++ back)))
      (omega (arith, length-append front (b ∷ [])))
    ∙ copy_into-append new (front ++ (b ∷ [])) old back (omega arith)
    ∙ append_assoc front (b ∷ []) (new ++ back)
  where
    set-append :
        (xs : List ℕ) (x y : ℕ) (ys : List ℕ) → set (xs ++ (x ∷ ys)) (length xs) y ≡ xs ++ (y ∷ ys)
    set-append [] x y ys = refl
    set-append (z ∷ xs) x y ys = ap (λ (l : List ℕ). z ∷ l) (set-append xs x y ys)

-- The overload with an index overwrites the front of a buffer that is long enough.
pub push_back_val_at-front :
    {T : Type 0} (h : Host) {t : Primitive T} (w : Wire t) (v : T) (old back : List ℕ)
    → length old ≡ t.size
    → push_back_val_at h t v (old ++ back) 0 ≡ (w.wire v ++ back, t.size)
unfolding push_back_val_at
push_back_val_at-front h {t} w v old back e =
    pair_eq
      (ap (λ (x : List ℕ). copy_into x (old ++ back) 0) (w.to_network h v)
        ∙ copy_into-append (w.wire v) [] old back (w.length-wire v ∙ sym e))
      refl
