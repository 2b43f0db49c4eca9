-- ===== src/Netbuffer/Endian/Laws.antt =====
-- Numbers and their bytes in memory, and what the conversions of netbuffer.cpp do to them.
use cpp_owl_common.Prelude.{
  ℕ, zero, suc, ◌/◌, ◌%◌, ◌^◌, ◌<◌, ◌≡◌, refl, sym, ap, ap₂, subst, ◌∙◌, List, [], ◌∷◌, ◌++◌,
  reverse, take, drop, length, length-reverse, take-append, drop-append, take-append_eq,
  drop-append_eq, All, All-reverse, arith, append-nil,
}
use cpp_owl_common.Netbuffer.Endian.{
  Host, little, big, IsByte, little_bytes, little_number, big_bytes, to_object, of_object,
  network_order, convert_front, to_network_endian, from_network_endian,
}
use mathlib.Core.List.{reverse-reverse, reverse-cons}
use native.Mathlib.Nat.{div-div-eq-div-mul, pow-succ'}

length-little_bytes : (w v : ℕ) → length (little_bytes w v) ≡ w
unfolding little_bytes
length-little_bytes zero v = refl
length-little_bytes (suc w) v = ap suc (length-little_bytes w (v / 256))

little_bytes-IsByte : (w v : ℕ) → All IsByte (little_bytes w v)
unfolding little_bytes
little_bytes-IsByte zero v = tt
little_bytes-IsByte (suc w) v = (omega arith, little_bytes-IsByte w (v / 256))

little_number-little_bytes : (w v : ℕ) → v < 256 ^ w → little_number (little_bytes w v) ≡ v
unfolding little_bytes little_number
little_number-little_bytes zero v h = omega arith
little_number-little_bytes (suc w) v h =
    omega (arith, little_number-little_bytes w (v / 256) (omega (arith, pow-succ' 256 w)))

little_bytes-little_number :
    (bs : List ℕ) → All IsByte bs → little_bytes (length bs) (little_number bs) ≡ bs
unfolding little_bytes little_number
little_bytes-little_number [] h = refl
little_bytes-little_number (b ∷ bs) (h, hs) =
    ap₂ (λ x xs. x ∷ xs) (omega arith)
      (ap (little_bytes (length bs)) (omega arith) ∙ little_bytes-little_number bs hs)

big_bytes-suc : (w v : ℕ) → big_bytes (suc w) v ≡ big_bytes w (v / 256) ++ ((v % 256) ∷ [])
unfolding big_bytes
big_bytes-suc zero v = ap (λ (x : ℕ). x ∷ []) (omega arith)
big_bytes-suc (suc w) v =
    ap₂ (λ (x : ℕ) xs. (x % 256) ∷ xs)
      (ap (λ (x : ℕ). v / x) (pow-succ' 256 w) ∙ sym (div-div-eq-div-mul v 256 (256 ^ w)))
      (big_bytes-suc w v)

-- Reversing an object's bytes on a little-endian host puts the highest byte first.
reverse-little_bytes : (w v : ℕ) → reverse (little_bytes w v) ≡ big_bytes w v
unfolding little_bytes
reverse-little_bytes zero v = unfold big_bytes in refl
reverse-little_bytes (suc w) v =
    reverse-cons (v % 256) (little_bytes w (v / 256))
    ∙ ap (λ t. t ++ ((v % 256) ∷ [])) (reverse-little_bytes w (v / 256))
    ∙ sym (big_bytes-suc w v)

pub length-big_bytes : (w v : ℕ) → length (big_bytes w v) ≡ w
unfolding big_bytes
length-big_bytes zero v = refl
length-big_bytes (suc w) v = ap suc (length-big_bytes w v)

pub big_bytes-IsByte : (w v : ℕ) → All IsByte (big_bytes w v)
unfolding big_bytes
big_bytes-IsByte zero v = tt
big_bytes-IsByte (suc w) v = (omega arith, big_bytes-IsByte w v)

-- A conversion of the whole object on a little-endian host reverses its bytes.
convert_front-little :
    (bytes rest : List ℕ)
    → All IsByte bytes
    → convert_front little (length bytes) (network_order little (length bytes)) (bytes ++ rest)
      ≡ reverse bytes ++ rest
unfolding convert_front network_order
convert_front-little bytes rest hb =
    rw (take-append bytes rest, drop-append bytes rest, little_bytes-little_number bytes hb)
      (ap (λ (t : List ℕ). t ++ rest)
        (ap (λ (n : ℕ). little_bytes n (little_number (reverse bytes))) (sym (length-reverse bytes))
          ∙ little_bytes-little_number (reverse bytes) (All-reverse IsByte bytes hb)))

convert_front-reverse :
    (w : ℕ) (bytes rest : List ℕ)
    → length bytes ≡ w
    → All IsByte bytes
    → convert_front little w (network_order little w) (bytes ++ rest) ≡ reverse bytes ++ rest
convert_front-reverse w bytes rest hl hb =
    subst
      (λ n. convert_front little n (network_order little n) (bytes ++ rest) ≡ reverse bytes ++ rest)
      hl (convert_front-little bytes rest hb)

-- What `toNetworkEndian` does to the object of an unsigned integer: it writes the highest byte
-- first, whatever the order of the host.
abbrev WritesBigBytes : ℕ → Type 0
WritesBigBytes w = (h : Host) (v : ℕ) → to_network_endian h (to_object h w v) w ≡ big_bytes w v

-- The conversion of a little-endian object of `w` bytes that stands alone.
front-little_bytes :
    (w v : ℕ) → convert_front little w (network_order little w) (little_bytes w v) ≡ big_bytes w v
front-little_bytes w v =
    ap (convert_front little w (network_order little w)) (sym (append-nil (little_bytes w v)))
    ∙ convert_front-reverse w (little_bytes w v) [] (length-little_bytes w v)
        (little_bytes-IsByte w v)
    ∙ append-nil (reverse (little_bytes w v))
    ∙ reverse-little_bytes w v

pub to_network_endian-one : WritesBigBytes 1
unfolding to_network_endian to_object
to_network_endian-one little v =
    unfold big_bytes little_bytes in ap (λ (x : ℕ). x ∷ []) (omega arith)
to_network_endian-one big v = reverse-little_bytes 1 v

pub to_network_endian-two : WritesBigBytes 2
unfolding to_network_endian
to_network_endian-two little v = front-little_bytes 2 v
to_network_endian-two big v = reverse-little_bytes 2 v

pub to_network_endian-four : WritesBigBytes 4
unfolding to_network_endian
to_network_endian-four little v = front-little_bytes 4 v
to_network_endian-four big v = reverse-little_bytes 4 v

pub to_network_endian-eight : WritesBigBytes 8
unfolding to_network_endian
to_network_endian-eight little v = front-little_bytes 8 v
to_network_endian-eight big v = reverse-little_bytes 8 v

-- A struct of two 64-bit numbers goes out as the one behind the other, each highest byte first.
pub to_network_endian-sixteen :
    (h : Host) (u v : ℕ)
    → to_network_endian h (to_object h 8 u ++ to_object h 8 v) 16 ≡ big_bytes 8 u ++ big_bytes 8 v
unfolding to_network_endian
to_network_endian-sixteen little u v =
    let upper : convert_front little 8 (network_order little 8)
          (little_bytes 8 u ++ little_bytes 8 v)
        ≡ big_bytes 8 u ++ little_bytes 8 v =
      convert_front-reverse 8 (little_bytes 8 u) (little_bytes 8 v) (length-little_bytes 8 u)
        (little_bytes-IsByte 8 u)
      ∙ ap (λ (t : List ℕ). t ++ little_bytes 8 v) (reverse-little_bytes 8 u) in
    let put = convert_front little 8 (network_order little 8) in
    ap (λ (t : List ℕ). take 8 t ++ put (drop 8 t)) upper
    ∙ ap₂ (λ (x y : List ℕ). x ++ put y)
        (take-append_eq (big_bytes 8 u) (little_bytes 8 v) (length-big_bytes 8 u))
        (drop-append_eq (big_bytes 8 u) (little_bytes 8 v) (length-big_bytes 8 u))
    ∙ ap (λ (t : List ℕ). big_bytes 8 u ++ t) (front-little_bytes 8 v)
to_network_endian-sixteen big u v =
    ap₂ (λ (x y : List ℕ). x ++ y) (reverse-little_bytes 8 u) (reverse-little_bytes 8 v)

-- The two conversions are one function.
from_network_endian-eq-to :
    (h : Host) (bytes : List ℕ) (size : ℕ)
    → from_network_endian h bytes size ≡ to_network_endian h bytes size
unfolding from_network_endian to_network_endian
from_network_endian-eq-to little bytes size = refl
from_network_endian-eq-to big bytes size = refl

pub of_object-to_object : (h : Host) (w v : ℕ) → v < 256 ^ w → of_object h (to_object h w v) ≡ v
unfolding of_object to_object
of_object-to_object little w v b = little_number-little_bytes w v b
of_object-to_object big w v b =
    ap little_number (reverse-reverse (little_bytes w v)) ∙ little_number-little_bytes w v b

reverse-big_bytes : (w v : ℕ) → reverse (big_bytes w v) ≡ little_bytes w v
reverse-big_bytes w v =
    ap reverse (sym (reverse-little_bytes w v)) ∙ reverse-reverse (little_bytes w v)

abbrev ReadsBigBytes : ℕ → Type 0
ReadsBigBytes w = (h : Host) (v : ℕ) → from_network_endian h (big_bytes w v) w ≡ to_object h w v

front-big_bytes :
    (w v : ℕ) → convert_front little w (network_order little w) (big_bytes w v) ≡ little_bytes w v
front-big_bytes w v =
    ap (convert_front little w (network_order little w)) (sym (append-nil (big_bytes w v)))
    ∙ convert_front-reverse w (big_bytes w v) [] (length-big_bytes w v) (big_bytes-IsByte w v)
    ∙ append-nil (reverse (big_bytes w v))
    ∙ reverse-big_bytes w v

pub from_network_endian-one : ReadsBigBytes 1
unfolding from_network_endian to_object
from_network_endian-one little v =
    unfold big_bytes little_bytes in ap (λ (x : ℕ). x ∷ []) (omega arith)
from_network_endian-one big v = sym (reverse-little_bytes 1 v)

pub from_network_endian-two : ReadsBigBytes 2
unfolding from_network_endian
from_network_endian-two little v = front-big_bytes 2 v
from_network_endian-two big v = sym (reverse-little_bytes 2 v)

pub from_network_endian-four : ReadsBigBytes 4
unfolding from_network_endian
from_network_endian-four little v = front-big_bytes 4 v
from_network_endian-four big v = sym (reverse-little_bytes 4 v)

pub from_network_endian-eight : ReadsBigBytes 8
unfolding from_network_endian
from_network_endian-eight little v = front-big_bytes 8 v
from_network_endian-eight big v = sym (reverse-little_bytes 8 v)

-- Two 64-bit numbers in network order become the struct of the two in memory.
pub from_network_endian-sixteen :
    (h : Host) (u v : ℕ)
    → from_network_endian h (big_bytes 8 u ++ big_bytes 8 v) 16 ≡ to_object h 8 u ++ to_object h 8 v
unfolding from_network_endian
from_network_endian-sixteen little u v =
    let upper : convert_front little 8 (network_order little 8) (big_bytes 8 u ++ big_bytes 8 v)
        ≡ little_bytes 8 u ++ big_bytes 8 v =
      convert_front-reverse 8 (big_bytes 8 u) (big_bytes 8 v) (length-big_bytes 8 u)
        (big_bytes-IsByte 8 u)
      ∙ ap (λ (t : List ℕ). t ++ big_bytes 8 v) (reverse-big_bytes 8 u) in
    let put = convert_front little 8 (network_order little 8) in
    ap (λ (t : List ℕ). take 8 t ++ put (drop 8 t)) upper
    ∙ ap₂ (λ (x y : List ℕ). x ++ put y)
        (take-append_eq (little_bytes 8 u) (big_bytes 8 v) (length-little_bytes 8 u))
        (drop-append_eq (little_bytes 8 u) (big_bytes 8 v) (length-little_bytes 8 u))
    ∙ ap (λ (t : List ℕ). little_bytes 8 u ++ t) (front-big_bytes 8 v)
from_network_endian-sixteen big u v =
    ap₂ (λ (x y : List ℕ). x ++ y) (sym (reverse-little_bytes 8 u)) (sym (reverse-little_bytes 8 v))

pub length-to_object : (h : Host) (w v : ℕ) → length (to_object h w v) ≡ w
unfolding to_object
length-to_object little w v = length-little_bytes w v
length-to_object big w v = length-reverse (little_bytes w v) ∙ length-little_bytes w v
