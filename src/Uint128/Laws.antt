-- ===== src/Uint128/Laws.antt =====
-- A `uint128_t` in a message: 16 bytes, highest first.
use cpp_owl_common.Prelude.{
  ℕ, ◌≡◌, ap, ◌∙◌, ◌++◌, length, length-append, All-append, take-append_eq, drop-append_eq, arith,
}
use cpp_owl_common.Netbuffer.Endian.{
  Host, IsByte, big_bytes, to_object, of_object, from_network_endian,
}
use cpp_owl_common.Netbuffer.Endian.Laws.{
  length-big_bytes, big_bytes-IsByte, of_object-to_object, length-to_object,
  to_network_endian-sixteen, from_network_endian-sixteen,
}
use cpp_owl_common.Netbuffer.Primitive.Laws.{Wire}
use cpp_owl_common.Uint128.{Uint128, uint128}
use cpp_owl_common.Uint128.Order.{IsUint128}

pub length-sixteen : (u v : ℕ) → length (big_bytes 8 u ++ big_bytes 8 v) ≡ 16
length-sixteen u v = omega (
  arith,
  length-append (big_bytes 8 u) (big_bytes 8 v),
  length-big_bytes 8 u,
  length-big_bytes 8 v,
)

pub uint128_from :
    (h : Host) (v : Uint128)
    → IsUint128 v
    → uint128.value h (from_network_endian h (big_bytes 8 v.upper ++ big_bytes 8 v.lower) 16) ≡ v
uint128_from h v ok =
    let a = to_object h 8 v.upper in
    let b = to_object h 8 v.lower in
    ap (uint128.value h) (from_network_endian-sixteen h v.upper v.lower) ∙ (λ i. record {
      upper =
          (ap (of_object h) (take-append_eq a b (length-to_object h 8 v.upper))
              ∙ of_object-to_object h 8 v.upper (omega (arith, ok.upper_ok)))
            i;
      lower =
          (ap (of_object h) (drop-append_eq a b (length-to_object h 8 v.upper))
              ∙ of_object-to_object h 8 v.lower (omega (arith, ok.lower_ok)))
            i;
    })

abbrev pub wire128 : Wire uint128
wire128 = record {
  wire = λ v. big_bytes 8 v.upper ++ big_bytes 8 v.lower;
  InRange = IsUint128;
  to_network = λ h v. to_network_endian-sixteen h v.upper v.lower;
  from_network = uint128_from;
  length-wire = λ v. length-sixteen v.upper v.lower;
  wire-IsByte = λ v.
      All-append IsByte (big_bytes 8 v.upper) (big_bytes 8 v.lower) (big_bytes-IsByte 8 v.upper)
        (big_bytes-IsByte 8 v.lower);
}
