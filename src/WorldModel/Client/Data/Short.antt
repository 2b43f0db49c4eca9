-- ===== src/WorldModel/Client/Data/Short.antt =====
-- Data responses whose last attribute has fewer bytes than it announces.
use cpp_owl_common.Prelude.{ℕ, suc, ◌<◌, ◌≤◌, ◌≡◌, List, [], ◌∷◌, ◌++◌, length, All, arith}
use cpp_owl_common.Netbuffer.Endian.{Host, big_bytes}
use cpp_owl_common.Netbuffer.Primitive.Laws.{wire64}
use cpp_owl_common.Netbuffer.Push.Laws.{wires, sized_utf16}
use cpp_owl_common.Netbuffer.Reader.Reads.{Reads-primitive, ReadsAll, ReadsAll-bind, ReadsAll-last}
use cpp_owl_common.Netbuffer.Reader.Sequences.{Reads-uint32, Reads-sized_utf16}
use cpp_owl_common.Netbuffer.Reader.Short.{ReadsAll-short_bytes, ReadsAll-loop}
use cpp_owl_common.Message.Draft.Laws.{frame}
use cpp_owl_common.Message.Decode.Laws.{decode-frame}
use cpp_owl_common.WorldModel.Types.{Uri, IsString, IsU32}
use cpp_owl_common.WorldModel.Client.Data.{
  AliasedAttribute, read_attribute, read_world_data, decode_data_message,
}
use cpp_owl_common.WorldModel.Client.Data.RoundTrip.{IsAttribute, wire_attribute, Reads-attribute}

-- An attribute that announces `n` bytes of data and holds its own.
unfoldable pub wire_announcing : ℕ → AliasedAttribute → List ℕ
wire_announcing n a =
    big_bytes 4 a.name_alias
    ++ (big_bytes 8 a.creation_date
        ++ (big_bytes 8 a.expiration_date
            ++ (big_bytes 4 a.origin_alias ++ (big_bytes 4 n ++ wires (big_bytes 1) a.bytes))))

-- What follows the message type.
unfoldable pub wire_short : Uri → ℕ → List AliasedAttribute → ℕ → AliasedAttribute → List ℕ
wire_short uri ticket attributes n last =
    sized_utf16 uri
    ++ (big_bytes 4 ticket
        ++ (big_bytes 4 (suc (length attributes))
            ++ (wires wire_attribute attributes ++ wire_announcing n last)))

ReadsAll-announcing :
    (h : Host) (n : ℕ) (a : AliasedAttribute)
    → IsAttribute a
    → length a.bytes ≤ n
    → IsU32 n
    → ReadsAll h (read_attribute h) (wire_announcing n a) a
unfolding read_attribute wire_announcing
ReadsAll-announcing h n a ok few small =
    ReadsAll-bind h _ (Reads-uint32 h a.name_alias ok.name_ok) (
      ReadsAll-bind h _ (Reads-primitive h wire64 a.creation_date (omega (arith, ok.creation_ok))) (
        ReadsAll-bind h _
          (Reads-primitive h wire64 a.expiration_date (omega (arith, ok.expiration_ok)))
          (ReadsAll-bind h _ (Reads-uint32 h a.origin_alias ok.origin_ok)
            (ReadsAll-last h _ (ReadsAll-short_bytes h a.bytes n few small ok.bytes_ok)))))

ReadsAll-short :
    (h : Host) (uri : Uri) (ticket : ℕ) (attributes : List AliasedAttribute) (n : ℕ)
    (last : AliasedAttribute)
    → IsString uri
    → IsU32 ticket
    → All IsAttribute attributes
    → IsU32 (suc (length attributes))
    → IsAttribute last
    → length last.bytes ≤ n
    → IsU32 n
    → ReadsAll h
        (read_world_data h)
        (wire_short uri ticket attributes n last)
        (record { object_uri = uri; attributes = attributes ++ (last ∷ []) }, ticket)
unfolding read_world_data wire_short
ReadsAll-short h uri ticket attributes n last uri_ok ticket_ok ok many last_ok few small =
    ReadsAll-bind h _ (Reads-sized_utf16 h uri uri_ok) (
      ReadsAll-bind h _ (Reads-uint32 h ticket ticket_ok) (
        ReadsAll-bind h _ (Reads-uint32 h (suc (length attributes)) many) (
          ReadsAll-last h _ (
            ReadsAll-loop h wire_attribute IsAttribute (Reads-attribute h)
              (ReadsAll-announcing h n last last_ok few small) attributes [] ok))))

-- A data response whose last attribute announces `n` bytes and holds fewer, under a length field that
-- fits, is decoded as if it were whole: the last attribute has the bytes that are there, and nothing
-- tells that the others are missing, if the values fit their types and the message is shorter than
-- 2 ^ 32 bytes.
pub decode_data_message-short :
    (h : Host) (uri : Uri) (ticket : ℕ) (attributes : List AliasedAttribute) (n : ℕ)
    (last : AliasedAttribute)
    → IsString uri
    → IsU32 ticket
    → All IsAttribute attributes
    → IsU32 (suc (length attributes))
    → IsAttribute last
    → length last.bytes < n
    → IsU32 n
    → IsU32 (length (frame (8 ∷ wire_short uri ticket attributes n last)))
    → decode_data_message h (frame (8 ∷ wire_short uri ticket attributes n last))
      ≡ (record { object_uri = uri; attributes = attributes ++ (last ∷ []) }, ticket)
unfolding decode_data_message
decode_data_message-short h uri ticket attributes n last uri_ok ticket_ok ok many last_ok few small
      fits =
    decode-frame h 8 _ _ (omega arith) fits (
      ReadsAll-short h uri ticket attributes n last uri_ok ticket_ok ok many last_ok (omega arith)
        small)
