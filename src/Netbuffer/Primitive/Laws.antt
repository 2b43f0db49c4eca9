-- ===== src/Netbuffer/Primitive/Laws.antt =====
-- What network order makes of a primitive type: the same bytes on both kinds of host.
use cpp_owl_common.Prelude.{ℕ, ◌<◌, ◌^◌, ◌≡◌, ap, ◌∙◌, List, length, All}
use cpp_owl_common.Netbuffer.Endian.{
  Host, IsByte, to_network_endian, from_network_endian, big_bytes,
}
use cpp_owl_common.Netbuffer.Endian.Laws.{
  length-big_bytes, big_bytes-IsByte, of_object-to_object, to_network_endian-one,
  to_network_endian-two, to_network_endian-four, to_network_endian-eight, from_network_endian-one,
  from_network_endian-two, from_network_endian-four, from_network_endian-eight,
}
use cpp_owl_common.Netbuffer.Primitive.{Primitive, uint, uint8, uint16, uint32, uint64}

-- `wire v` is what stands in a message for `v`, for the values in `InRange`.
pub record Wire {T : Type 0} (t : Primitive T) : Type 1 where
  pub wire : T → List ℕ
  pub InRange : T → Type 0
  pub to_network : (h : Host) (v : T) → to_network_endian h (t.object h v) t.size ≡ wire v
  pub from_network :
      (h : Host) (v : T) → InRange v → t.value h (from_network_endian h (wire v) t.size) ≡ v
  pub length-wire : (v : T) → length (wire v) ≡ t.size
  pub wire-IsByte : (v : T) → All IsByte (wire v)

pub uint_from :
    (w : ℕ) (h : Host) (v : ℕ)
    → ((h : Host) (v : ℕ) → from_network_endian h (big_bytes w v) w ≡ (uint w).object h v)
    → v < 256 ^ w
    → (uint w).value h (from_network_endian h (big_bytes w v) w) ≡ v
uint_from w h v e b = ap ((uint w).value h) (e h v) ∙ of_object-to_object h w v b

abbrev pub wire8 : Wire uint8
wire8 = record {
  wire = big_bytes 1;
  InRange = λ v. v < 256 ^ 1;
  to_network = to_network_endian-one;
  from_network = λ h v b. uint_from 1 h v from_network_endian-one b;
  length-wire = length-big_bytes 1;
  wire-IsByte = big_bytes-IsByte 1;
}

abbrev pub wire16 : Wire uint16
wire16 = record {
  wire = big_bytes 2;
  InRange = λ v. v < 256 ^ 2;
  to_network = to_network_endian-two;
  from_network = λ h v b. uint_from 2 h v from_network_endian-two b;
  length-wire = length-big_bytes 2;
  wire-IsByte = big_bytes-IsByte 2;
}

abbrev pub wire32 : Wire uint32
wire32 = record {
  wire = big_bytes 4;
  InRange = λ v. v < 256 ^ 4;
  to_network = to_network_endian-four;
  from_network = λ h v b. uint_from 4 h v from_network_endian-four b;
  length-wire = length-big_bytes 4;
  wire-IsByte = big_bytes-IsByte 4;
}

abbrev pub wire64 : Wire uint64
wire64 = record {
  wire = big_bytes 8;
  InRange = λ v. v < 256 ^ 8;
  to_network = to_network_endian-eight;
  from_network = λ h v b. uint_from 8 h v from_network_endian-eight b;
  length-wire = length-big_bytes 8;
  wire-IsByte = big_bytes-IsByte 8;
}
