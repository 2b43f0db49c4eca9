-- ===== src/WorldModel/Solver/Announce.antt =====
-- The announcement of the types that a solver makes.
pub mod RoundTrip
use cpp_owl_common.Prelude.{ℕ, ◌%◌, List, [], length, Bool, true, not, ◌==◌, if◌then◌else◌, u32_mod}
use cpp_owl_common.Netbuffer.Endian.{Host}
use cpp_owl_common.Netbuffer.Primitive.{uint8, uint32}
use cpp_owl_common.Netbuffer.Push.{Buffer, push_back_val, push_back_utf16, push_back_sized_utf16}
use cpp_owl_common.Netbuffer.Reader.{
  new_reader, Read, ◌>>=◌, pure, read_primitive, read_loop, read_sized_utf16,
}
use cpp_owl_common.Message.Draft.{Draft, ◌>>◌, empty, counted, for_each, push_total, make}
use cpp_owl_common.Message.Decode.{or_failure, read_rest_utf16, read_header, checked}
use cpp_owl_common.WorldModel.Types.{U16String}
use cpp_owl_common.WorldModel.Solver.Id.{id_of, keep_alive, type_announce}

pub record AliasType : Type 0 where
  pub alias : ℕ
  pub type : U16String
  pub on_demand : Bool

module _ (h : Host) where
  unfoldable pub make_keep_alive : Buffer
  make_keep_alive =
      ((do push_total h; counted (push_back_val h uint8 (id_of keep_alive))) (empty 1)).buff

  unfoldable pub push_alias : AliasType → Draft → Draft
  push_alias a = do
    counted (push_back_val h uint32 a.alias)
    counted (push_back_sized_utf16 h a.type)
    counted (push_back_val h uint8 (if a.on_demand then 1 else 0))

  unfoldable pub make_type_announce_msg : List AliasType → U16String → Buffer
  make_type_announce_msg type_alias origin = make h do
    counted (push_back_val h uint8 (id_of type_announce))
    counted (push_back_val h uint32 (length type_alias % u32_mod))
    for_each push_alias type_alias
    counted (push_back_utf16 h origin)

  unfoldable pub read_alias : Read AliasType
  read_alias = do
    alias ← read_primitive h uint32
    type ← read_sized_utf16 h
    on_demand ← read_primitive h uint8
    pure (record { alias = alias; type = type; on_demand = not (on_demand == 0) })

  unfoldable pub read_aliases : Read (List AliasType)
  read_aliases = do total_aliases ← read_primitive h uint32; read_loop total_aliases read_alias []

  -- The origin is read whether the test of the header succeeds or not.
  unfoldable pub read_announce : Read (List AliasType × U16String)
  read_announce = do
    header ← read_header h
    aliases ← checked (id_of type_announce) read_aliases [] header
    origin ← read_rest_utf16 h
    pure (aliases, origin)

  unfoldable pub decode_type_announce_msg : Buffer → List AliasType × U16String
  decode_type_announce_msg buff = or_failure ([], []) (read_announce (new_reader h buff true))
