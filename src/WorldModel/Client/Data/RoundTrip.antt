-- ===== src/WorldModel/Client/Data/RoundTrip.antt =====
-- The wire form of data responses, and that they come back.
use cpp_owl_common.Prelude.{ℕ, ◌≡◌, ap, subst, ◌∙◌, List, [], ◌∷◌, ◌++◌, length, All, arith}
use cpp_owl_common.Netbuffer.Endian.{Host, big_bytes}
use cpp_owl_common.Netbuffer.Primitive.Laws.{wire64}
use cpp_owl_common.Netbuffer.Push.Laws.{wires, sized, sized_utf16}
use cpp_owl_common.Netbuffer.Reader.Reads.{
  Reads, Reads-bind, Reads-last, Reads-primitive, ReadsAll-end,
}
use cpp_owl_common.Netbuffer.Reader.Sequences.{
  Reads-uint32, Reads-sized_utf16, Reads-sized_bytes, Reads-loop,
}
use cpp_owl_common.Message.Draft.Laws.{
  frame, make-frame, Emits, Emits-seq, Emits-id, Emits-count, Emits-each, Emits-uint32,
  Emits-uint64, Emits-sized_utf16, Emits-sized_bytes,
}
use cpp_owl_common.Message.Decode.Laws.{decode-frame}
use cpp_owl_common.WorldModel.Types.{IsString, IsU32, IsTime, IsOctets}
use cpp_owl_common.WorldModel.Client.Data.{
  AliasedAttribute, AliasedWorldData, push_attribute, make_data_message, read_attribute,
  read_world_data, decode_data_message,
}

pub record IsAttribute (a : AliasedAttribute) : Type 0 where
  pub name_ok : IsU32 a.name_alias
  pub creation_ok : IsTime a.creation_date
  pub expiration_ok : IsTime a.expiration_date
  pub origin_ok : IsU32 a.origin_alias
  pub bytes_ok : IsOctets a.bytes

pub record IsWorldData (wd : AliasedWorldData) : Type 0 where
  pub uri_ok : IsString wd.object_uri
  pub attributes_ok : All IsAttribute wd.attributes
  pub few : IsU32 (length wd.attributes)

unfoldable pub wire_attribute : AliasedAttribute → List ℕ
wire_attribute a =
    big_bytes 4 a.name_alias
    ++ (big_bytes 8 a.creation_date
        ++ (big_bytes 8 a.expiration_date
            ++ (big_bytes 4 a.origin_alias ++ sized 1 (big_bytes 1) a.bytes)))

-- What follows the message type.
unfoldable pub wire_world_data : AliasedWorldData → ℕ → List ℕ
wire_world_data wd ticket =
    sized_utf16 wd.object_uri
    ++ (big_bytes 4 ticket
        ++ (big_bytes 4 (length wd.attributes) ++ wires wire_attribute wd.attributes))

Emits-attribute : (h : Host) (a : AliasedAttribute) → Emits (push_attribute h a) (wire_attribute a)
unfolding push_attribute wire_attribute
Emits-attribute h a = Emits-seq (Emits-uint32 h a.name_alias) (
    Emits-seq (Emits-uint64 h a.creation_date) (
      Emits-seq (Emits-uint64 h a.expiration_date)
        (Emits-seq (Emits-uint32 h a.origin_alias) (Emits-sized_bytes h a.bytes))))

-- A data response is, on either host, the frame of its type, the URI, the ticket, the number of
-- attributes and the attributes, all in network order.
pub make_data_message-frame :
    (h : Host) (wd : AliasedWorldData) (ticket : ℕ)
    → make_data_message h wd ticket ≡ frame (8 ∷ wire_world_data wd ticket)
unfolding make_data_message wire_world_data
make_data_message-frame h wd ticket = make-frame h (
    Emits-seq (Emits-id h 8 (omega arith)) (
      Emits-seq (Emits-sized_utf16 h wd.object_uri) (
        Emits-seq (Emits-uint32 h ticket) (
          Emits-seq (Emits-count h (length wd.attributes))
            (Emits-each wire_attribute wd.attributes (Emits-attribute h))))))

pub Reads-attribute :
    (h : Host) (a : AliasedAttribute)
    → IsAttribute a
    → Reads h (read_attribute h) (wire_attribute a) a
unfolding read_attribute wire_attribute
Reads-attribute h a ok = Reads-bind h _ (Reads-uint32 h a.name_alias ok.name_ok) (
    Reads-bind h _ (Reads-primitive h wire64 a.creation_date (omega (arith, ok.creation_ok))) (
      Reads-bind h _ (Reads-primitive h wire64 a.expiration_date (omega (arith, ok.expiration_ok)))
        (Reads-bind h _ (Reads-uint32 h a.origin_alias ok.origin_ok)
          (Reads-last h _ (Reads-sized_bytes h a.bytes ok.bytes_ok)))))

Reads-world_data :
    (h : Host) (wd : AliasedWorldData) (ticket : ℕ)
    → IsWorldData wd
    → IsU32 ticket
    → Reads h (read_world_data h) (wire_world_data wd ticket) (wd, ticket)
unfolding read_world_data wire_world_data
Reads-world_data h wd ticket ok bt = Reads-bind h _ (Reads-sized_utf16 h wd.object_uri ok.uri_ok) (
    Reads-bind h _ (Reads-uint32 h ticket bt) (
      Reads-bind h _ (Reads-uint32 h (length wd.attributes) ok.few) (
        Reads-last h _ (
          Reads-loop h wire_attribute IsAttribute (Reads-attribute h) wd.attributes []
            ok.attributes_ok))))

-- A data response made on any host, and decoded on any host, gives the world data and the ticket,
-- if the values fit their types and the message is shorter than 2 ^ 32 bytes.
pub decode-make_data_message :
    (h h' : Host) (wd : AliasedWorldData) (ticket : ℕ)
    → IsWorldData wd
    → IsU32 ticket
    → IsU32 (length (make_data_message h wd ticket))
    → decode_data_message h' (make_data_message h wd ticket) ≡ (wd, ticket)
unfolding decode_data_message
decode-make_data_message h h' wd ticket ok bt fits =
    ap (decode_data_message h') (make_data_message-frame h wd ticket)
    ∙ decode-frame h' 8 _ _ (omega arith)
        (subst (λ b. IsU32 (length b)) (make_data_message-frame h wd ticket) fits)
        (ReadsAll-end h' (Reads-world_data h' wd ticket ok bt))
