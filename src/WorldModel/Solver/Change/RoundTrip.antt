-- ===== src/WorldModel/Solver/Change/RoundTrip.antt =====
-- The wire form of the messages that create, expire and delete, and that they come back.
use cpp_owl_common.Prelude.{
  ℕ, ◌<◌, ◌≡◌, ap, subst, ◌∙◌, List, ◌∷◌, ◌++◌, length, length-append, u32_mod, arith, ◌+◌,
}
use cpp_owl_common.Netbuffer.Endian.{Host, big_bytes}
use cpp_owl_common.Netbuffer.Primitive.Laws.{wire64}
use cpp_owl_common.Netbuffer.Push.Laws.{wires, sized_utf16}
use cpp_owl_common.Netbuffer.Reader.Reads.{ReadsAll, Reads-primitive, ReadsAll-bind, ReadsAll-last}
use cpp_owl_common.Netbuffer.Reader.Sequences.{Reads-sized_utf16}
use cpp_owl_common.Message.Draft.Laws.{
  frame, length-frame, make-frame, Emits-seq, Emits-id, Emits-uint64, Emits-utf16,
  Emits-sized_utf16,
}
use cpp_owl_common.Message.Decode.Laws.{decode-frame, ReadsAll-rest_utf16}
use cpp_owl_common.WorldModel.Types.{U16String, Uri, GrailTime, IsString, IsU32, IsTime}
use cpp_owl_common.WorldModel.Solver.Change.{
  make_create_uri, make_expire_uri, make_expire_attribute, make_delete_uri, make_delete_attribute,
  read_timed_uri, read_timed_attribute, read_uri, read_attribute, decode_create_uri,
  decode_expire_uri, decode_expire_attribute, decode_delete_uri, decode_delete_attribute,
}

-- What follows the message type. The origin takes the rest of the message.
abbrev pub wire_timed_uri : Uri → GrailTime → U16String → List ℕ
wire_timed_uri uri time origin = sized_utf16 uri ++ (big_bytes 8 time ++ wires (big_bytes 2) origin)

abbrev pub wire_timed_attribute : Uri → U16String → GrailTime → U16String → List ℕ
wire_timed_attribute uri attribute time origin =
    sized_utf16 uri ++ (sized_utf16 attribute ++ (big_bytes 8 time ++ wires (big_bytes 2) origin))

abbrev pub wire_uri : Uri → U16String → List ℕ
wire_uri uri origin = sized_utf16 uri ++ wires (big_bytes 2) origin

abbrev pub wire_attribute : Uri → U16String → U16String → List ℕ
wire_attribute uri attribute origin =
    sized_utf16 uri ++ (sized_utf16 attribute ++ wires (big_bytes 2) origin)

pub make_create_uri-frame :
    (h : Host) (uri : Uri) (time : GrailTime) (origin : U16String)
    → make_create_uri h uri time origin ≡ frame (5 ∷ wire_timed_uri uri time origin)
unfolding make_create_uri
make_create_uri-frame h uri time origin = make-frame h (
    Emits-seq (Emits-id h 5 (omega arith)) (
      Emits-seq (Emits-sized_utf16 h uri) (Emits-seq (Emits-uint64 h time) (Emits-utf16 h origin))))

pub make_expire_uri-frame :
    (h : Host) (uri : Uri) (time : GrailTime) (origin : U16String)
    → make_expire_uri h uri time origin ≡ frame (6 ∷ wire_timed_uri uri time origin)
unfolding make_expire_uri
make_expire_uri-frame h uri time origin = make-frame h (
    Emits-seq (Emits-id h 6 (omega arith)) (
      Emits-seq (Emits-sized_utf16 h uri) (Emits-seq (Emits-uint64 h time) (Emits-utf16 h origin))))

pub make_expire_attribute-frame :
    (h : Host) (uri attribute origin : U16String) (time : GrailTime)
    → make_expire_attribute h uri attribute origin time
      ≡ frame (8 ∷ wire_timed_attribute uri attribute time origin)
unfolding make_expire_attribute
make_expire_attribute-frame h uri attribute origin time = make-frame h (
    Emits-seq (Emits-id h 8 (omega arith)) (
      Emits-seq (Emits-sized_utf16 h uri) (
        Emits-seq (Emits-sized_utf16 h attribute)
          (Emits-seq (Emits-uint64 h time) (Emits-utf16 h origin)))))

pub make_delete_uri-frame :
    (h : Host) (uri : Uri) (origin : U16String)
    → make_delete_uri h uri origin ≡ frame (7 ∷ wire_uri uri origin)
unfolding make_delete_uri
make_delete_uri-frame h uri origin = make-frame h (
    Emits-seq (Emits-id h 7 (omega arith))
      (Emits-seq (Emits-sized_utf16 h uri) (Emits-utf16 h origin)))

pub make_delete_attribute-frame :
    (h : Host) (uri attribute origin : U16String)
    → make_delete_attribute h uri attribute origin ≡ frame (9 ∷ wire_attribute uri attribute origin)
unfolding make_delete_attribute
make_delete_attribute-frame h uri attribute origin = make-frame h (
    Emits-seq (Emits-id h 9 (omega arith)) (
      Emits-seq (Emits-sized_utf16 h uri)
        (Emits-seq (Emits-sized_utf16 h attribute) (Emits-utf16 h origin))))

module _ (h : Host) {uri origin : U16String} (uri_ok : IsString uri)
    (origin_ok : IsString origin) where
  reads_timed_uri :
      (time : GrailTime)
      → IsTime time
      → ReadsAll h (read_timed_uri h) (wire_timed_uri uri time origin) (uri, time, origin)
  unfolding read_timed_uri
  reads_timed_uri time time_ok = ReadsAll-bind h _ (Reads-sized_utf16 h uri uri_ok) (
      ReadsAll-bind h _ (Reads-primitive h wire64 time (omega (arith, time_ok))) (
        ReadsAll-last h (λ (o : U16String). (uri, time, o))
          (ReadsAll-rest_utf16 h origin origin_ok)))

  reads_timed_attribute :
      (attribute : U16String) (time : GrailTime)
      → IsString attribute
      → IsTime time
      → ReadsAll h
          (read_timed_attribute h)
          (wire_timed_attribute uri attribute time origin)
          (uri, attribute, time, origin)
  unfolding read_timed_attribute
  reads_timed_attribute attribute time attribute_ok time_ok =
      ReadsAll-bind h _ (Reads-sized_utf16 h uri uri_ok) (
        ReadsAll-bind h _ (Reads-sized_utf16 h attribute attribute_ok) (
          ReadsAll-bind h _ (Reads-primitive h wire64 time (omega (arith, time_ok))) (
            ReadsAll-last h (λ (o : U16String). (uri, attribute, time, o))
              (ReadsAll-rest_utf16 h origin origin_ok))))

  reads_uri : ReadsAll h (read_uri h) (wire_uri uri origin) (uri, origin)
  unfolding read_uri
  reads_uri =
      ReadsAll-bind h _ (Reads-sized_utf16 h uri uri_ok)
        (ReadsAll-last h (λ (o : U16String). (uri, o)) (ReadsAll-rest_utf16 h origin origin_ok))

  reads_attribute :
      (attribute : U16String)
      → IsString attribute
      → ReadsAll h (read_attribute h) (wire_attribute uri attribute origin) (uri, attribute, origin)
  unfolding read_attribute
  reads_attribute attribute attribute_ok = ReadsAll-bind h _ (Reads-sized_utf16 h uri uri_ok) (
      ReadsAll-bind h _ (Reads-sized_utf16 h attribute attribute_ok) (
        ReadsAll-last h (λ (o : U16String). (uri, attribute, o))
          (ReadsAll-rest_utf16 h origin origin_ok)))

-- A creation and an expiration of a URI, made on any host and decoded on any host, give the URI, the
-- time and the origin, if the values fit their types and the message is shorter than 2 ^ 32 bytes.
pub decode-make_timed_uri :
    (h h' : Host) (uri origin : U16String) (time : GrailTime)
    → IsString uri
    → IsString origin
    → IsTime time
    → IsU32 (length (make_create_uri h uri time origin))
    → (decode_create_uri h' (make_create_uri h uri time origin) ≡ (uri, time, origin))
      × (decode_expire_uri h' (make_expire_uri h uri time origin) ≡ (uri, time, origin))
unfolding decode_create_uri decode_expire_uri
decode-make_timed_uri h h' uri origin time uri_ok origin_ok time_ok fits =
    let body = wire_timed_uri uri time origin in
    let fits' : length body + 5 < u32_mod =
      omega (arith, ap length (make_create_uri-frame h uri time origin), length-frame (5 ∷ body)) in
    let reads = reads_timed_uri h' uri_ok origin_ok time time_ok in
    (
      ap (decode_create_uri h') (make_create_uri-frame h uri time origin)
          ∙ decode-frame h' 5 _ _ (omega arith) (omega (arith, length-frame (5 ∷ body))) reads,
      ap (decode_expire_uri h') (make_expire_uri-frame h uri time origin)
          ∙ decode-frame h' 6 _ _ (omega arith) (omega (arith, length-frame (6 ∷ body))) reads,
    )

-- The expiration of an attribute, made on any host and decoded on any host, gives its four values,
-- if they fit their types and the message is shorter than 2 ^ 32 bytes.
pub decode-make_expire_attribute :
    (h h' : Host) (uri attribute origin : U16String) (time : GrailTime)
    → IsString uri
    → IsString attribute
    → IsString origin
    → IsTime time
    → IsU32 (length (make_expire_attribute h uri attribute origin time))
    → decode_expire_attribute h' (make_expire_attribute h uri attribute origin time)
      ≡ (uri, attribute, time, origin)
unfolding decode_expire_attribute
decode-make_expire_attribute h h' uri attribute origin time uri_ok attribute_ok origin_ok time_ok
      fits =
    ap (decode_expire_attribute h') (make_expire_attribute-frame h uri attribute origin time)
    ∙ decode-frame h' 8 _ _ (omega arith)
        (subst (λ b. IsU32 (length b)) (make_expire_attribute-frame h uri attribute origin time)
          fits)
        (reads_timed_attribute h' uri_ok origin_ok attribute time attribute_ok time_ok)

-- The deletion of a URI, made on any host and decoded on any host, gives the URI and the origin, and
-- that of an attribute the attribute besides, if the strings hold 16-bit units and the longer of the
-- two messages is shorter than 2 ^ 32 bytes.
pub decode-make_delete :
    (h h' : Host) (uri attribute origin : U16String)
    → IsString uri
    → IsString attribute
    → IsString origin
    → IsU32 (length (make_delete_attribute h uri attribute origin))
    → (decode_delete_uri h' (make_delete_uri h uri origin) ≡ (uri, origin))
      × (decode_delete_attribute h' (make_delete_attribute h uri attribute origin)
          ≡ (uri, attribute, origin))
unfolding decode_delete_uri decode_delete_attribute
decode-make_delete h h' uri attribute origin uri_ok attribute_ok origin_ok fits =
    let rest = wires (big_bytes 2) origin in
    (
      ap (decode_delete_uri h') (make_delete_uri-frame h uri origin)
          ∙ decode-frame h' 7 _ _ (omega arith)
              (omega (
                arith,
                ap length (make_delete_attribute-frame h uri attribute origin),
                length-frame (9 ∷ wire_attribute uri attribute origin),
                length-frame (7 ∷ wire_uri uri origin),
                length-append (sized_utf16 uri) rest,
                length-append (sized_utf16 uri) (sized_utf16 attribute ++ rest),
                length-append (sized_utf16 attribute) rest,
              ))
              (reads_uri h' uri_ok origin_ok),
      ap (decode_delete_attribute h') (make_delete_attribute-frame h uri attribute origin)
          ∙ decode-frame h' 9 _ _ (omega arith)
              (subst (λ b. IsU32 (length b)) (make_delete_attribute-frame h uri attribute origin)
                fits)
              (reads_attribute h' uri_ok origin_ok attribute attribute_ok),
    )
