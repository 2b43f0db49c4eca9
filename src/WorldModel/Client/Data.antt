-- ===== src/WorldModel/Client/Data.antt =====
-- The data responses of the world model.
pub mod RoundTrip
pub mod Short
use cpp_owl_common.Prelude.{ℕ, ◌%◌, List, [], length, u32_mod}
use cpp_owl_common.Netbuffer.Endian.{Host}
use cpp_owl_common.Netbuffer.Primitive.{uint8, uint32, uint64}
use cpp_owl_common.Netbuffer.Push.{
  Buffer, push_back_val, push_back_sized_utf16, push_sized_container,
}
use cpp_owl_common.Netbuffer.Reader.{
  Read, ◌>>=◌, pure, read_primitive, read_loop, read_sized_utf16, read_sized_vector,
}
use cpp_owl_common.Message.Draft.{Draft, ◌>>◌, counted, for_each, make}
use cpp_owl_common.Message.Decode.{decode, or_failure}
use cpp_owl_common.WorldModel.Types.{Uri, GrailTime}
use cpp_owl_common.WorldModel.Client.Id.{id_of, data_response}

pub record AliasedAttribute : Type 0 where
  pub name_alias : ℕ
  pub creation_date : GrailTime
  pub expiration_date : GrailTime
  pub origin_alias : ℕ
  pub bytes : Buffer

pub record AliasedWorldData : Type 0 where
  pub object_uri : Uri
  pub attributes : List AliasedAttribute

abbrev pub no_world_data : AliasedWorldData
no_world_data = record { object_uri = []; attributes = [] }

module _ (h : Host) where
  unfoldable pub push_attribute : AliasedAttribute → Draft → Draft
  push_attribute attr = do
    counted (push_back_val h uint32 attr.name_alias)
    counted (push_back_val h uint64 attr.creation_date)
    counted (push_back_val h uint64 attr.expiration_date)
    counted (push_back_val h uint32 attr.origin_alias)
    counted (push_sized_container h uint8 attr.bytes)

  unfoldable pub make_data_message : AliasedWorldData → ℕ → Buffer
  make_data_message wd ticket = make h do
    counted (push_back_val h uint8 (id_of data_response))
    counted (push_back_sized_utf16 h wd.object_uri)
    counted (push_back_val h uint32 ticket)
    counted (push_back_val h uint32 (length wd.attributes % u32_mod))
    for_each push_attribute wd.attributes

  unfoldable pub read_attribute : Read AliasedAttribute
  read_attribute = do
    name_alias ← read_primitive h uint32
    creation_date ← read_primitive h uint64
    expiration_date ← read_primitive h uint64
    origin_alias ← read_primitive h uint32
    bytes ← read_sized_vector h uint8
    pure (record {
      name_alias = name_alias;
      creation_date = creation_date;
      expiration_date = expiration_date;
      origin_alias = origin_alias;
      bytes = bytes;
    })

  unfoldable pub read_world_data : Read (AliasedWorldData × ℕ)
  read_world_data = do
    object_uri ← read_sized_utf16 h
    ticket_number ← read_primitive h uint32
    total_attributes ← read_primitive h uint32
    attributes ← read_loop total_attributes read_attribute []
    pure (record { object_uri = object_uri; attributes = attributes }, ticket_number)

  unfoldable pub decode_data_message : Buffer → AliasedWorldData × ℕ
  decode_data_message buff =
      or_failure (no_world_data, 0)
        (decode h (id_of data_response) read_world_data (no_world_data, 0) buff)
