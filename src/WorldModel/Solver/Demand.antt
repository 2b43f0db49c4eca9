-- ===== src/WorldModel/Solver/Demand.antt =====
-- The messages that start and stop the solutions made on demand.
pub mod RoundTrip
use cpp_owl_common.Prelude.{ℕ, ◌%◌, List, [], length, set, true, false, if◌then◌else◌, u32_mod}
use cpp_owl_common.Netbuffer.Endian.{Host}
use cpp_owl_common.Netbuffer.Primitive.{uint8, uint32}
use cpp_owl_common.Netbuffer.Push.{Buffer, push_back_val, push_back_sized_utf16}
use cpp_owl_common.Netbuffer.Reader.{Read, ◌>>=◌, pure, read_primitive, read_loop, read_sized_utf16}
use cpp_owl_common.Message.Draft.{Draft, ◌>>◌, counted, for_each, make}
use cpp_owl_common.Message.Decode.{decode, or_failure}
use cpp_owl_common.WorldModel.Types.{U16String}
use cpp_owl_common.WorldModel.Solver.Id.{id_of, start_on_demand, stop_on_demand}

-- An alias and the URIs that it is asked for.
abbrev pub Demand : Type 0
Demand = ℕ × List U16String

module _ (h : Host) where
  unfoldable pub push_demand : Demand → Draft → Draft
  push_demand (alias, attribs) = do
    counted (push_back_val h uint32 alias)
    counted (push_back_val h uint32 (length attribs % u32_mod))
    for_each (λ attr. counted (push_back_sized_utf16 h attr)) attribs

  unfoldable pub make_start_on_demand : List Demand → Buffer
  make_start_on_demand aliases = make h do
    counted (push_back_val h uint8 (id_of start_on_demand))
    counted (push_back_val h uint32 (length aliases % u32_mod))
    for_each push_demand aliases

  unfoldable pub make_stop_on_demand : List Demand → Buffer
  make_stop_on_demand aliases = set (make_start_on_demand aliases) 4 (id_of stop_on_demand)

  unfoldable pub read_demand : Read Demand
  read_demand = do
    cur_alias ← read_primitive h uint32
    total_attribs ← read_primitive h uint32
    attribs ← read_loop total_attribs (read_sized_utf16 h) []
    pure (cur_alias, attribs)

  unfoldable pub read_demands : Read (List Demand)
  read_demands = do total_aliases ← read_primitive h uint32; read_loop total_aliases read_demand []

  unfoldable pub decode_start_on_demand : Buffer → List Demand
  decode_start_on_demand buff =
      or_failure [] (decode h (id_of start_on_demand) read_demands [] buff)

  -- The result, and the buffer after the call. The header is tested before the type is changed.
  unfoldable pub decode_stop_on_demand : Buffer → List Demand × Buffer
  decode_stop_on_demand buff =
      if (decode h (id_of stop_on_demand) (pure true) false buff).0
      then (let buff' = set buff 4 (id_of start_on_demand) in (decode_start_on_demand buff', buff'))
      else ([], buff)
