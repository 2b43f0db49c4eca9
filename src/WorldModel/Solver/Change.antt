-- ===== src/WorldModel/Solver/Change.antt =====
-- The messages that create, expire and delete URIs and attributes. Each ends in the origin, which
-- has no size of its own.
pub mod RoundTrip
use cpp_owl_common.Prelude.{[]}
use cpp_owl_common.Netbuffer.Endian.{Host}
use cpp_owl_common.Netbuffer.Primitive.{uint8, uint64}
use cpp_owl_common.Netbuffer.Push.{Buffer, push_back_val, push_back_utf16, push_back_sized_utf16}
use cpp_owl_common.Netbuffer.Reader.{Read, ◌>>=◌, pure, read_primitive, read_sized_utf16}
use cpp_owl_common.Message.Draft.{◌>>◌, counted, make}
use cpp_owl_common.Message.Decode.{decode, or_failure, read_rest_utf16}
use cpp_owl_common.WorldModel.Types.{U16String, Uri, GrailTime}
use cpp_owl_common.WorldModel.Solver.Id.{
  id_of, create_uri, expire_uri, delete_uri, expire_attribute, delete_attribute,
}

module _ (h : Host) where
  unfoldable pub make_create_uri : Uri → GrailTime → U16String → Buffer
  make_create_uri new_uri creation origin = make h do
    counted (push_back_val h uint8 (id_of create_uri))
    counted (push_back_sized_utf16 h new_uri)
    counted (push_back_val h uint64 creation)
    counted (push_back_utf16 h origin)

  unfoldable pub make_expire_uri : Uri → GrailTime → U16String → Buffer
  make_expire_uri uri expiration origin = make h do
    counted (push_back_val h uint8 (id_of expire_uri))
    counted (push_back_sized_utf16 h uri)
    counted (push_back_val h uint64 expiration)
    counted (push_back_utf16 h origin)

  unfoldable pub make_expire_attribute : Uri → U16String → U16String → GrailTime → Buffer
  make_expire_attribute uri attribute origin expiration = make h do
    counted (push_back_val h uint8 (id_of expire_attribute))
    counted (push_back_sized_utf16 h uri)
    counted (push_back_sized_utf16 h attribute)
    counted (push_back_val h uint64 expiration)
    counted (push_back_utf16 h origin)

  unfoldable pub make_delete_uri : Uri → U16String → Buffer
  make_delete_uri uri origin = make h do
    counted (push_back_val h uint8 (id_of delete_uri))
    counted (push_back_sized_utf16 h uri)
    counted (push_back_utf16 h origin)

  unfoldable pub make_delete_attribute : Uri → U16String → U16String → Buffer
  make_delete_attribute uri attribute origin = make h do
    counted (push_back_val h uint8 (id_of delete_attribute))
    counted (push_back_sized_utf16 h uri)
    counted (push_back_sized_utf16 h attribute)
    counted (push_back_utf16 h origin)

  -- A URI, a time and an origin, as the decoders for creation and expiration read them.
  unfoldable pub read_timed_uri : Read (Uri × GrailTime × U16String)
  read_timed_uri = do
    uri ← read_sized_utf16 h
    time ← read_primitive h uint64
    origin ← read_rest_utf16 h
    pure (uri, time, origin)

  unfoldable pub decode_create_uri : Buffer → Uri × GrailTime × U16String
  decode_create_uri buff =
      or_failure ([], 0, []) (decode h (id_of create_uri) read_timed_uri ([], 0, []) buff)

  unfoldable pub decode_expire_uri : Buffer → Uri × GrailTime × U16String
  decode_expire_uri buff =
      or_failure ([], 0, []) (decode h (id_of expire_uri) read_timed_uri ([], 0, []) buff)

  unfoldable pub read_timed_attribute : Read (Uri × U16String × GrailTime × U16String)
  read_timed_attribute = do
    uri ← read_sized_utf16 h
    attribute ← read_sized_utf16 h
    expired ← read_primitive h uint64
    origin ← read_rest_utf16 h
    pure (uri, attribute, expired, origin)

  unfoldable pub decode_expire_attribute : Buffer → Uri × U16String × GrailTime × U16String
  decode_expire_attribute buff =
      or_failure ([], [], 0, [])
        (decode h (id_of expire_attribute) read_timed_attribute ([], [], 0, []) buff)

  unfoldable pub read_uri : Read (Uri × U16String)
  read_uri = do uri ← read_sized_utf16 h; origin ← read_rest_utf16 h; pure (uri, origin)

  unfoldable pub decode_delete_uri : Buffer → Uri × U16String
  decode_delete_uri buff = or_failure ([], []) (decode h (id_of delete_uri) read_uri ([], []) buff)

  unfoldable pub read_attribute : Read (Uri × U16String × U16String)
  read_attribute = do
    uri ← read_sized_utf16 h
    attribute ← read_sized_utf16 h
    origin ← read_rest_utf16 h
    pure (uri, attribute, origin)

  unfoldable pub decode_delete_attribute : Buffer → Uri × U16String × U16String
  decode_delete_attribute buff =
      or_failure ([], [], []) (decode h (id_of delete_attribute) read_attribute ([], [], []) buff)
