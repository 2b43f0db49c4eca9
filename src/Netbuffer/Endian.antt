-- ===== src/Netbuffer/Endian.antt =====
-- The byte orders of netbuffer.cpp: a host stores a number lowest or highest byte first, and
-- `toNetworkEndian` and `fromNetworkEndian` turn an object's bytes into network order and back.
pub mod Laws
use cpp_owl_common.Prelude.{
  ℕ, zero, suc, ◌+◌, ◌*◌, ◌/◌, ◌%◌, ◌^◌, ◌<◌, List, [], ◌∷◌, ◌++◌, reverse, Bool, take, drop,
  get_or, ◌==◌, if◌then◌else◌, not,
}

-- The two memory layouts that the code tells apart.
pub data Host : Type 0 where
  little big : Host

abbrev pub IsByte : ℕ → Type 0
IsByte b = b < 256

-- The lowest `w` bytes of a number, lowest first.
unfoldable pub little_bytes : ℕ → ℕ → List ℕ
little_bytes zero v = []
little_bytes (suc w) v = (v % 256) ∷ little_bytes w (v / 256)

-- The number that bytes stand for, lowest first.
unfoldable pub little_number : List ℕ → ℕ
little_number [] = 0
little_number (b ∷ bs) = b + 256 * little_number bs

-- The `w` bytes of a number, highest first: what network order means.
unfoldable pub big_bytes : ℕ → ℕ → List ℕ
big_bytes zero v = []
big_bytes (suc w) v = (v / 256 ^ w % 256) ∷ big_bytes w v

-- An unsigned integer of `w` bytes in the memory of a host, read byte by byte and written.
unfoldable pub to_object : Host → ℕ → ℕ → List ℕ
unfolding little_bytes
to_object little w v = little_bytes w v
to_object big w v = reverse (little_bytes w v)

unfoldable pub of_object : Host → List ℕ → ℕ
unfolding little_number
of_object little bs = little_number bs
of_object big bs = little_number (reverse bs)

-- `*(unsigned char*)(&endian_test) == 1` for a uint32_t that holds 1.
unfoldable pub little_endian : Host → Bool
unfolding to_object
little_endian h = get_or (to_object h 4 1) 0 0 == 1

-- A number with its bytes in memory reversed on a little-endian host, as `be64toh` and `htobe64`
-- do for 8 bytes, and `htons`, `ntohs`, `htonl` and `ntohl` for 2 and 4.
unfoldable pub network_order : Host → ℕ → ℕ → ℕ
unfolding to_object of_object little_endian
network_order h w val =
    if not (little_endian h) then val else of_object h (reverse (to_object h w val))

unfoldable pub be64toh : Host → ℕ → ℕ
unfolding network_order
be64toh h val = network_order h 8 val

unfoldable pub htobe64 : Host → ℕ → ℕ
unfolding network_order
htobe64 h val = network_order h 8 val

unfoldable pub ntohll : Host → ℕ → ℕ
unfolding be64toh
ntohll h val = be64toh h val

unfoldable pub htonll : Host → ℕ → ℕ
unfolding htobe64
htonll h val = htobe64 h val

-- `*p = convert(*p)` where `p` points to an integer of `w` bytes at the front of the bytes.
unfoldable pub convert_front : Host → ℕ → (ℕ → ℕ) → List ℕ → List ℕ
unfolding to_object of_object
convert_front h w convert bytes =
    to_object h w (convert (of_object h (take w bytes))) ++ drop w bytes

unfoldable pub to_network_endian : Host → List ℕ → ℕ → List ℕ
unfolding convert_front network_order htonll little_endian
to_network_endian h bytes size =
    if little_endian h
    then (if size == 2
        then convert_front h 2 (network_order h 2) bytes
        else if size == 4
        then convert_front h 4 (network_order h 4) bytes
        else if size == 8
        then convert_front h 8 (htonll h) bytes
        else if size == 16
        then (let first = convert_front h 8 (htonll h) bytes in
            take 8 first ++ convert_front h 8 (htonll h) (drop 8 first))
        else bytes)
    else bytes

unfoldable pub from_network_endian : Host → List ℕ → ℕ → List ℕ
unfolding convert_front network_order ntohll little_endian
from_network_endian h bytes size =
    if little_endian h
    then (if size == 2
        then convert_front h 2 (network_order h 2) bytes
        else if size == 4
        then convert_front h 4 (network_order h 4) bytes
        else if size == 8
        then convert_front h 8 (ntohll h) bytes
        else if size == 16
        then (let first = convert_front h 8 (ntohll h) bytes in
            take 8 first ++ convert_front h 8 (ntohll h) (drop 8 first))
        else bytes)
    else bytes
