-- ===== src/WorldModel/Client/Search.antt =====
-- Searches for URIs and their responses.
pub mod RoundTrip
use cpp_owl_common.Prelude.{List, []}
use cpp_owl_common.Netbuffer.Endian.{Host}
use cpp_owl_common.Netbuffer.Primitive.{uint8, uint32}
use cpp_owl_common.Netbuffer.Push.{Buffer, push_back_val, push_back_utf16, push_back_sized_utf16}
use cpp_owl_common.Netbuffer.Reader.{Read, ◌>>=◌, read_primitive, read_loop, read_sized_utf16}
use cpp_owl_common.Message.Draft.{◌>>◌, counted, for_each, make}
use cpp_owl_common.Message.Decode.{decode, or_failure, read_rest_utf16}
use cpp_owl_common.WorldModel.Types.{Uri}
use cpp_owl_common.WorldModel.Client.Id.{id_of, uri_search, uri_response}

module _ (h : Host) where
  unfoldable pub make_uri_search : Uri → Buffer
  make_uri_search uri =
      make h do counted (push_back_val h uint8 (id_of uri_search)); counted (push_back_utf16 h uri)

  unfoldable pub decode_uri_search : Buffer → Uri
  decode_uri_search buff = (decode h (id_of uri_search) (read_rest_utf16 h) [] buff).0

  unfoldable pub make_uri_search_response : List Uri → Buffer
  make_uri_search_response uris = make h do
    counted (push_back_val h uint8 (id_of uri_response))
    for_each (λ uri. counted (push_back_sized_utf16 h uri)) uris

  -- The decoder takes the first four bytes for the number of URIs.
  unfoldable pub read_uris : Read (List Uri)
  read_uris = do total_uris ← read_primitive h uint32; read_loop total_uris (read_sized_utf16 h) []

  unfoldable pub decode_uri_search_response : Buffer → List Uri
  decode_uri_search_response buff = or_failure [] (decode h (id_of uri_response) read_uris [] buff)
