-- ===== src/WorldModel/Client/Alias.antt =====
-- The messages that define aliases for attribute names and origins.
pub mod RoundTrip
use cpp_owl_common.Prelude.{
  ℕ, ◌%◌, List, [], length, set, get_or, ltb, ◌==◌, ◌&&◌, if◌then◌else◌, u32_mod,
}
use cpp_owl_common.Netbuffer.Endian.{Host}
use cpp_owl_common.Netbuffer.Primitive.{uint8, uint32}
use cpp_owl_common.Netbuffer.Push.{Buffer, push_back_val, push_back_sized_utf16}
use cpp_owl_common.Netbuffer.Reader.{Read, ◌>>=◌, pure, read_primitive, read_loop, read_sized_utf16}
use cpp_owl_common.Message.Draft.{Draft, ◌>>◌, counted, for_each, make}
use cpp_owl_common.Message.Decode.{decode, or_failure}
use cpp_owl_common.WorldModel.Types.{U16String}
use cpp_owl_common.WorldModel.Client.Id.{id_of, attribute_alias, origin_alias}

pub record AliasType : Type 0 where
  pub alias : ℕ
  pub type : U16String

module _ (h : Host) where
  unfoldable pub push_alias : AliasType → Draft → Draft
  push_alias a = do
    counted (push_back_val h uint32 a.alias)
    counted (push_back_sized_utf16 h a.type)

  unfoldable pub make_attr_alias_msg : List AliasType → Buffer
  make_attr_alias_msg aliases = make h do
    counted (push_back_val h uint8 (id_of attribute_alias))
    counted (push_back_val h uint32 (length aliases % u32_mod))
    for_each push_alias aliases

  unfoldable pub make_origin_alias_msg : List AliasType → Buffer
  make_origin_alias_msg aliases = set (make_attr_alias_msg aliases) 4 (id_of origin_alias)

  unfoldable pub read_alias : Read AliasType
  read_alias = do
    alias ← read_primitive h uint32
    type ← read_sized_utf16 h
    pure (record { alias = alias; type = type })

  unfoldable pub read_aliases : Read (List AliasType)
  read_aliases = do
    total_attributes ← read_primitive h uint32
    read_loop total_attributes read_alias []

  unfoldable pub decode_attr_alias_msg : Buffer → List AliasType
  decode_attr_alias_msg buff = or_failure [] (decode h (id_of attribute_alias) read_aliases [] buff)

  -- The result, and the buffer after the call.
  unfoldable pub decode_origin_alias_msg : Buffer → List AliasType × Buffer
  decode_origin_alias_msg buff =
      if ltb 5 (length buff) && id_of origin_alias == get_or buff 4 0
      then (let buff' = set buff 4 (id_of attribute_alias) in (decode_attr_alias_msg buff', buff'))
      else ([], buff)
