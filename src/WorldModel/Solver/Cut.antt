-- ===== src/WorldModel/Solver/Cut.antt =====
-- Demands and changes whose fields are cut short.
use cpp_owl_common.Prelude.{
  ℕ, ◌+◌, ◌<◌, ◌≡◌, ap, ◌∙◌, List, [], ◌∷◌, ◌++◌, length, length-append, take, u32_mod, arith, All,
  Bool-cases, inl, inr, true, false,
}
use cpp_owl_common.Netbuffer.Endian.{Host, big_bytes}
use cpp_owl_common.Netbuffer.Endian.Laws.{length-big_bytes}
use cpp_owl_common.Netbuffer.Primitive.Laws.{wire64}
use cpp_owl_common.Netbuffer.Push.Laws.{sized_utf16}
use cpp_owl_common.Netbuffer.Reader.{pure}
use cpp_owl_common.Netbuffer.Reader.Sequences.{Reads-uint32, Reads-sized_utf16}
use cpp_owl_common.Netbuffer.Reader.Misses.{
  Sticky, Misses, Misses-bind, Misses-last, Misses-front, Misses-primitive, Misses-uint32,
  Misses-sized_utf16, Misses-loop, Sticky-loop, sticky,
}
use cpp_owl_common.Message.Draft.Laws.{frame, length-frame, set-frame}
use cpp_owl_common.Message.Decode.{decode}
use cpp_owl_common.Message.Decode.Cut.{or_failure-cut, Sticky-rest_utf16}
use cpp_owl_common.WorldModel.Types.{Uri, U16String, GrailTime, IsString, IsU32}
use cpp_owl_common.WorldModel.Solver.Demand.{
  Demand, read_demand, read_demands, decode_start_on_demand, decode_stop_on_demand,
}
use cpp_owl_common.WorldModel.Solver.Demand.RoundTrip.{
  IsDemand, wire_demand, wire_demands, Reads-demand,
}
use cpp_owl_common.WorldModel.Solver.Change.{
  read_timed_uri, read_timed_attribute, read_uri, read_attribute, decode_create_uri,
  decode_expire_uri, decode_expire_attribute, decode_delete_uri, decode_delete_attribute,
}

Misses-demand : (h : Host) (d : Demand) → IsDemand d → Misses h (read_demand h) (wire_demand d)
unfolding read_demand wire_demand
Misses-demand h (alias, attribs) ok =
    Misses-bind h _ (Reads-uint32 h alias ok.alias_ok) (Misses-uint32 h alias)
      (λ n. search sticky depth 20)
      (Misses-bind h _ (Reads-uint32 h (length attribs) ok.few_attribs)
        (Misses-uint32 h (length attribs)) (λ n. search sticky depth 20)
        (Misses-last h _ (
          Misses-loop h sized_utf16 IsString (Reads-sized_utf16 h) (Misses-sized_utf16 h)
            (search sticky depth 20) attribs [] ok.attribs_ok)))

Sticky-demand : (h : Host) → Sticky (read_demand h)
unfolding read_demand
Sticky-demand h = search sticky depth 20

Misses-demands :
    (h : Host) (aliases : List Demand)
    → All IsDemand aliases
    → IsU32 (length aliases)
    → Misses h (read_demands h) (wire_demands aliases)
unfolding read_demands wire_demands
Misses-demands h aliases ok few =
    Misses-bind h _ (Reads-uint32 h (length aliases) few) (Misses-uint32 h (length aliases))
      (λ n. Sticky-loop n [] (Sticky-demand h))
      (Misses-loop h wire_demand IsDemand (Reads-demand h) (Misses-demand h) (Sticky-demand h)
        aliases [] ok)

start-cut :
    (h : Host) (aliases : List Demand) (n : ℕ)
    → All IsDemand aliases
    → IsU32 (length aliases)
    → length (wire_demands aliases) + 5 < u32_mod
    → n < length (wire_demands aliases)
    → decode_start_on_demand h (frame (2 ∷ take n (wire_demands aliases))) ≡ []
unfolding decode_start_on_demand
start-cut h aliases n ok few fits cut =
    or_failure-cut h 2 _ n (omega arith) cut
      (omega (arith, fits, length-frame (2 ∷ wire_demands aliases)))
      (Misses-demands h aliases ok few) []

stop-none :
    (h : Host) (bs : List ℕ)
    → decode_start_on_demand h (frame (2 ∷ bs)) ≡ []
    → (decode_stop_on_demand h (frame (3 ∷ bs))).0 ≡ []
unfolding decode_stop_on_demand
stop-none h bs e = elim (Bool-cases (decode h 3 (pure true) false (frame (3 ∷ bs))).0) [
  | inl own ↦ rw own (ap (λ (b : List ℕ). decode_start_on_demand h b) (set-frame 3 2 bs) ∙ e)
  | inr other ↦ rw other
]

-- A message that holds a strict front of the requests of a start or stop message, under a length
-- field that fits it, is turned away: both decoders return no request, if the requests' values fit
-- their types and their message is shorter than 2 ^ 32 bytes.
decode_demands-cut :
    (h : Host) (aliases : List Demand) (n : ℕ)
    → All IsDemand aliases
    → IsU32 (length aliases)
    → length (wire_demands aliases) + 5 < u32_mod
    → n < length (wire_demands aliases)
    → (decode_start_on_demand h (frame (2 ∷ take n (wire_demands aliases))) ≡ [])
      × ((decode_stop_on_demand h (frame (3 ∷ take n (wire_demands aliases)))).0 ≡ [])
decode_demands-cut h aliases n ok few fits cut =
    let none = start-cut h aliases n ok few fits cut in
    (none, stop-none h (take n (wire_demands aliases)) none)

-- What stands in front of the origin.
abbrev pub front_timed_uri : Uri → GrailTime → List ℕ
front_timed_uri uri time = sized_utf16 uri ++ big_bytes 8 time

abbrev pub front_attribute : Uri → U16String → List ℕ
front_attribute uri attribute = sized_utf16 uri ++ sized_utf16 attribute

abbrev pub front_timed_attribute : Uri → U16String → GrailTime → List ℕ
front_timed_attribute uri attribute time =
    sized_utf16 uri ++ (sized_utf16 attribute ++ big_bytes 8 time)

module _ (h : Host) where
  Misses-timed_uri :
      (uri : Uri) (time : GrailTime)
      → IsString uri
      → Misses h (read_timed_uri h) (front_timed_uri uri time)
  unfolding read_timed_uri
  Misses-timed_uri uri time ok =
      Misses-bind h _ (Reads-sized_utf16 h uri ok) (Misses-sized_utf16 h uri ok)
        (λ u. search (sticky, Sticky-rest_utf16) depth 20)
        (Misses-front h (Misses-primitive h wire64 time)
          (λ t. search (sticky, Sticky-rest_utf16) depth 20))

  Misses-uri : (uri : Uri) → IsString uri → Misses h (read_uri h) (sized_utf16 uri)
  unfolding read_uri
  Misses-uri uri ok =
      Misses-front h (Misses-sized_utf16 h uri ok)
        (λ u. search (sticky, Sticky-rest_utf16) depth 20)

  Misses-attribute :
      (uri : Uri) (attribute : U16String)
      → IsString uri
      → IsString attribute
      → Misses h (read_attribute h) (front_attribute uri attribute)
  unfolding read_attribute
  Misses-attribute uri attribute ok ok' =
      Misses-bind h _ (Reads-sized_utf16 h uri ok) (Misses-sized_utf16 h uri ok)
        (λ u. search (sticky, Sticky-rest_utf16) depth 20)
        (Misses-front h (Misses-sized_utf16 h attribute ok')
          (λ a. search (sticky, Sticky-rest_utf16) depth 20))

  Misses-timed_attribute :
      (uri : Uri) (attribute : U16String) (time : GrailTime)
      → IsString uri
      → IsString attribute
      → Misses h (read_timed_attribute h) (front_timed_attribute uri attribute time)
  unfolding read_timed_attribute
  Misses-timed_attribute uri attribute time ok ok' =
      Misses-bind h _ (Reads-sized_utf16 h uri ok) (Misses-sized_utf16 h uri ok)
        (λ u. search (sticky, Sticky-rest_utf16) depth 20)
        (Misses-bind h _ (Reads-sized_utf16 h attribute ok') (Misses-sized_utf16 h attribute ok')
          (λ a. search (sticky, Sticky-rest_utf16) depth 20)
          (Misses-front h (Misses-primitive h wire64 time)
            (λ t. search (sticky, Sticky-rest_utf16) depth 20)))

-- The fields in front of the origin are all there, or the decoders of changes turn the message away:
-- each returns empty strings and time zero for a strict front of those fields, under a length field
-- that fits it, if the strings' code units fit 16 bits and the fields are shorter than 2 ^ 32 - 5 bytes.
pub decode_changes-cut :
    (h : Host) (uri : Uri) (attribute : U16String) (time : GrailTime) (k l m n : ℕ)
    → IsString uri
    → IsString attribute
    → length (front_timed_attribute uri attribute time) + 5 < u32_mod
    → k < length (front_timed_uri uri time)
    → l < length (sized_utf16 uri)
    → m < length (front_timed_attribute uri attribute time)
    → n < length (front_attribute uri attribute)
    → (decode_create_uri h (frame (5 ∷ take k (front_timed_uri uri time))) ≡ ([], 0, []))
      × (decode_expire_uri h (frame (6 ∷ take k (front_timed_uri uri time))) ≡ ([], 0, []))
      × (decode_delete_uri h (frame (7 ∷ take l (sized_utf16 uri))) ≡ ([], []))
      × (decode_expire_attribute h (frame (8 ∷ take m (front_timed_attribute uri attribute time)))
          ≡ ([], [], 0, []))
      × (decode_delete_attribute h (frame (9 ∷ take n (front_attribute uri attribute)))
          ≡ ([], [], []))
unfolding decode_create_uri decode_expire_uri decode_delete_uri decode_expire_attribute
    decode_delete_attribute
decode_changes-cut h uri attribute time k l m n ok ok' fits cut_k cut_l cut_m cut_n =
    let a = sized_utf16 uri in
    let b = sized_utf16 attribute in
    let t = big_bytes 8 time in
    let total : length a + length b + 13 < u32_mod =
      omega (arith, fits, length-append a (b ++ t), length-append b t, length-big_bytes 8 time) in
    let fits_timed : (id : ℕ) → length (frame (id ∷ (a ++ t))) < u32_mod = λ id.
      omega
        (arith, total, length-frame (id ∷ (a ++ t)), length-append a t, length-big_bytes 8 time) in
    (
      or_failure-cut h 5 _ k (omega arith) cut_k (fits_timed 5) (Misses-timed_uri h uri time ok) _,
      or_failure-cut h 6 _ k (omega arith) cut_k (fits_timed 6) (Misses-timed_uri h uri time ok) _,
      or_failure-cut h 7 _ l (omega arith) cut_l (omega (arith, total, length-frame (7 ∷ a)))
          (Misses-uri h uri ok) _,
      or_failure-cut h 8 _ m (omega arith) cut_m
          (omega (arith, fits, length-frame (8 ∷ (a ++ (b ++ t)))))
          (Misses-timed_attribute h uri attribute time ok ok') _,
      or_failure-cut h 9 _ n (omega arith) cut_n
          (omega (arith, total, length-frame (9 ∷ (a ++ b)), length-append a b))
          (Misses-attribute h uri attribute ok ok') _,
    )
