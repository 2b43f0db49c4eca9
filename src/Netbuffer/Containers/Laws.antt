-- ===== src/Netbuffer/Containers/Laws.antt =====
-- What the free templates make of a container that `pushSizedContainer` pushed.
use cpp_owl_common.Prelude.{
  ℕ, zero, suc, ◌+◌, ◌*◌, ◌%◌, ◌^◌, ◌/◌, ◌<◌, ◌≡◌, refl, sym, ap, ◌∙◌, List, [], ◌∷◌, ◌++◌,
  append_assoc, append-nil, Option, none, some, length, length-append, take, drop, take-append_eq,
  drop-append_eq, replicate, leb, le→leb, lt→leb_false, All, arith, Bool-cases, inl, inr, true,
  false, u32_mod,
}
use native.Mathlib.Nat.{mul-div_cancel, suc-mul}
use Prim.Native.Nat.{bit_or, bit_or-bitwise}
use cpp_owl_common.Netbuffer.Endian.{Host, little, big, of_object, big_bytes}
use cpp_owl_common.Netbuffer.Endian.Laws.{length-big_bytes}
use cpp_owl_common.Netbuffer.Primitive.{uint, uint8, uint32}
use cpp_owl_common.Netbuffer.Primitive.Laws.{wire8, wire32, Wire}
use cpp_owl_common.Netbuffer.Push.{Buffer, push_sized_container}
use cpp_owl_common.Netbuffer.Push.Laws.{wires, sized, push_sized_container-Appends}
use cpp_owl_common.Netbuffer.Reader.{read_primitive_at}
use cpp_owl_common.Netbuffer.Strings.{read_primitive_at-middle}
use cpp_owl_common.Netbuffer.Containers.{
  object_at, shift_loop, with_item, container_loop, read_primitive_container_at,
  read_sized_container_at,
}

or_zero : (v : ℕ) → bit_or 0 v ≡ v
or_zero v = λ i. bit_or-bitwise 0 v i

one_byte : (h : Host) (v : ℕ) → v < 256 → of_object h (big_bytes 1 v) ≡ v
unfolding of_object big_bytes
one_byte little v b = omega arith
one_byte big v b = omega arith

-- A byte of the buffer is or-ed to the zero of the new container.
read-byte :
    (h : Host) (v : ℕ) (front rest : List ℕ) (n : ℕ)
    → v < 256
    → length front ≡ n
    → shift_loop h 1 (front ++ (big_bytes 1 v ++ rest)) 1 n 0 ≡ some v
unfolding shift_loop object_at
read-byte h v front rest n b e =
    let buff = front ++ (big_bytes 1 v ++ rest) in
    let there : leb (n + 1) (length buff) ≡ true = le→leb _ _ (
      omega (
        arith,
        e,
        length-append front (big_bytes 1 v ++ rest),
        length-append (big_bytes 1 v) rest,
        length-big_bytes 1 v,
      )) in
    let byte : of_object h (take 1 (drop n buff)) ≡ v =
      ap (λ (x : List ℕ). of_object h (take 1 x)) (drop-append_eq front (big_bytes 1 v ++ rest) e)
      ∙ ap (of_object h) (take-append_eq (big_bytes 1 v) rest (length-big_bytes 1 v))
      ∙ one_byte h v b in
    rw (shift_loop, object_at, there, byte, or_zero (v * 1)) (ap some (omega (arith, b)))

bytes-read :
    (h : Host) (xs front back : List ℕ) (n total : ℕ)
    → All (λ x. x < 256) xs
    → length front ≡ n
    → total + length xs < 2 ^ 32
    → container_loop h 1
        (front ++ (wires (big_bytes 1) xs ++ back))
        (replicate (length xs) 0)
        total
        n
      ≡ some (xs, total + length xs)
unfolding container_loop with_item
bytes-read h [] front back n total ok e small = ap (λ (k : ℕ). some ([], k)) (omega arith)
bytes-read h (x ∷ xs) front back n total (b, ok) e small =
    let stays : (total + 1) % 2 ^ 32 ≡ total + 1 = omega (arith, small) in
    let more = wires (big_bytes 1) xs ++ back in
    let apart : front ++ ((big_bytes 1 x ++ wires (big_bytes 1) xs) ++ back)
        ≡ front ++ (big_bytes 1 x ++ more) =
      ap (λ (l : List ℕ). front ++ l)
        (append_assoc (big_bytes 1 x) (wires (big_bytes 1) xs) back) in
    let rest =
      bytes-read h xs (front ++ big_bytes 1 x) back (n + 1) (total + 1) ok
        (omega (arith, e, length-append front (big_bytes 1 x), length-big_bytes 1 x))
        (omega (arith, small)) in
    let step : container_loop h 1 (front ++ (big_bytes 1 x ++ more)) (0 ∷ replicate (length xs) 0)
          total n
        ≡ with_item x (
            container_loop h 1 (front ++ (big_bytes 1 x ++ more)) (replicate (length xs) 0)
              (total + 1) (n + 1)) =
      rw (container_loop, read-byte h x front more n b e, stays) refl in
    ap (λ (buff : List ℕ). container_loop h 1 buff (0 ∷ replicate (length xs) 0) total n) apart
    ∙ step
    ∙ ap
        (λ (buff : List ℕ).
          with_item x (container_loop h 1 buff (replicate (length xs) 0) (total + 1) (n + 1)))
        (sym (append_assoc front (big_bytes 1 x) more))
    ∙ ap (with_item x) rest
    ∙ ap (λ (k : ℕ). some (x ∷ xs, k)) (omega arith)

-- Both sides have the size at the front, in elements of `w` bytes.
size-read :
    (h : Host) (w n : ℕ) (front rest : List ℕ)
    → 0 < w
    → n * w < u32_mod
    → read_primitive_at h uint32 (front ++ (big_bytes 4 (n * w) ++ rest)) (length front) / w ≡ n
size-read h w n front rest some_bytes fits =
    ap (λ (k : ℕ). k / w)
      (read_primitive_at-middle h wire32 (n * w) front rest (length front) (omega (arith, fits))
        (omega arith) refl)
    ∙ mul-div_cancel n some_bytes

pushed :
    (h : Host) (w : ℕ) (wire : Wire (uint w)) (xs front back : List ℕ)
    → w < u32_mod
    → (push_sized_container h (uint w) xs front).0 ++ back
      ≡ front ++ (big_bytes 4 (length xs * w) ++ (wires wire.wire xs ++ back))
unfolding sized
pushed h w wire xs front back fits =
    ap (λ (p : Buffer × ℕ). p.0 ++ back) (push_sized_container-Appends h wire xs fits front)
    ∙ append_assoc front _ back
    ∙ ap (λ (l : List ℕ). front ++ l)
        (append_assoc (big_bytes 4 (length xs * w)) (wires wire.wire xs) back)

-- Bytes that `pushSizedContainer` pushed behind anything, with anything behind them, fill the
-- container of `readSizedContainer`, and it returns their number, on any two hosts, if they are fewer
-- than 2 ^ 32.
read_sized_container_at-bytes :
    (h h' : Host) (xs front back : List ℕ)
    → All (λ x. x < 256) xs
    → length xs < u32_mod
    → read_sized_container_at h' 1
        ((push_sized_container h uint8 xs front).0 ++ back)
        (length front)
      ≡ some (xs, length xs)
unfolding read_sized_container_at read_primitive_container_at
read_sized_container_at-bytes h h' xs front back ok fits =
    let size = big_bytes 4 (length xs * 1) in
    let buff = front ++ (size ++ (wires (big_bytes 1) xs ++ back)) in
    ap (λ (b : Buffer). read_sized_container_at h' 1 b (length front))
      (pushed h 1 wire8 xs front back (omega arith))
    ∙ ap (λ (n : ℕ). container_loop h' 1 buff (replicate n 0) 0 (length front + 4))
        (size-read h' 1 (length xs) front (wires (big_bytes 1) xs ++ back) (omega arith)
          (omega (arith, fits)))
    ∙ ap (λ (b : Buffer). container_loop h' 1 b (replicate (length xs) 0) 0 (length front + 4))
        (sym (append_assoc front size (wires (big_bytes 1) xs ++ back)))
    ∙ bytes-read h' xs (front ++ size) back (length front + 4) 0 ok
        (omega (arith, length-append front size, length-big_bytes 4 (length xs * 1)))
        (omega (arith, fits))
    ∙ ap (λ (n : ℕ). some (xs, n)) (omega arith)

-- An object of `w` bytes that starts `n` bytes from here reaches past the end of the buffer.
shifts-end :
    (h : Host) (w : ℕ) (buff : Buffer) (n at item : ℕ)
    → length buff < at + n + w
    → shift_loop h w buff (suc n) at item ≡ none
unfolding shift_loop object_at
shifts-end h w buff zero at item short =
    let past : leb (at + w) (length buff) ≡ false = lt→leb_false _ _ (omega (arith, short)) in
    rw (shift_loop, object_at, past) refl
shifts-end h w buff (suc n) at item short = elim (Bool-cases (leb (at + w) (length buff))) [
  | inl there ↦
      rw (shift_loop, object_at, there) (shifts-end h w buff n (at + 1) _ (omega (arith, short)))
  | inr past ↦ rw (shift_loop, object_at, past) refl
]

-- An item is read or not, but the items behind it are not.
no_items :
    (item : Option ℕ) (items : Option (List ℕ × ℕ))
    → items ≡ none
    → elim item [ none ↦ none | some read ↦ with_item read items ] ≡ none
unfolding with_item
no_items none items e = refl
no_items (some read) items e = ap (with_item read) e

items-end :
    (h : Host) (n : ℕ) (buff : Buffer) (k total at : ℕ)
    → 0 < n
    → length buff ≡ at + suc k * suc n
    → container_loop h (suc n) buff (replicate (suc k) 0) total at ≡ none
unfolding container_loop
items-end h n buff zero total at wide e =
    rw (container_loop, shifts-end h (suc n) buff n at 0 (omega (arith, e, wide))) refl
items-end h n buff (suc k) total at wide e =
    let more : length buff ≡ at + suc n + suc k * suc n =
      omega (arith, e, suc-mul (suc k) (suc n)) in
    no_items _ _ (items-end h n buff k ((total + suc n) % 2 ^ 32) (at + suc n) wide more)

length-wires :
    {w : ℕ} (wire : Wire (uint w)) (xs : List ℕ) → length (wires wire.wire xs) ≡ length xs * w
length-wires wire [] = omega arith
length-wires {w} wire (x ∷ xs) = omega (
  arith,
  length-append (wire.wire x) (wires wire.wire xs),
  wire.length-wire x,
  length-wires wire xs,
  suc-mul (length xs) w,
)

-- What `pushSizedContainer` pushed of values of more than one byte, if there are any, is not read back
-- when it stands at the end of the buffer: `readSizedContainer` reads past the end, whatever values and
-- hosts they are, if they are fewer than 2 ^ 32 bytes.
pub read_sized_container_at-past :
    (h h' : Host) (n : ℕ) (wire : Wire (uint (suc n))) (x : ℕ) (xs front : List ℕ)
    → 0 < n
    → length (x ∷ xs) * suc n < u32_mod
    → read_sized_container_at h'
        (suc n)
        (push_sized_container h (uint (suc n)) (x ∷ xs) front).0
        (length front)
      ≡ none
unfolding read_sized_container_at read_primitive_container_at
read_sized_container_at-past h h' n wire x xs front wide fits =
    let size = big_bytes 4 (length (x ∷ xs) * suc n) in
    let body = wires wire.wire (x ∷ xs) ++ [] in
    let small : suc n < u32_mod = omega (arith, fits, suc-mul (length xs) (suc n)) in
    let buff = front ++ (size ++ body) in
    let long : length buff ≡ length front + 4 + length (x ∷ xs) * suc n = omega (
      arith,
      length-append front (size ++ body),
      length-append size body,
      length-append (wires wire.wire (x ∷ xs)) [],
      length-big_bytes 4 (length (x ∷ xs) * suc n),
      length-wires wire (x ∷ xs),
    ) in
    ap (λ (b : Buffer). read_sized_container_at h' (suc n) b (length front))
      (sym (append-nil _) ∙ pushed h (suc n) wire (x ∷ xs) front [] small)
    ∙ ap (λ (k : ℕ). container_loop h' (suc n) buff (replicate k 0) 0 (length front + 4))
        (size-read h' (suc n) (length (x ∷ xs)) front body (omega arith) fits)
    ∙ items-end h' n buff (length xs) 0 (length front + 4) wide long
