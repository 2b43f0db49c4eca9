-- ===== src/WorldModel/Solver/Solution.antt =====
-- The data that a solver sends.
pub mod RoundTrip
pub mod Short
use cpp_owl_common.Prelude.{ℕ, ◌%◌, List, [], length, Bool, false, ◌==◌, if◌then◌else◌, u32_mod}
use cpp_owl_common.Netbuffer.Endian.{Host}
use cpp_owl_common.Netbuffer.Primitive.{uint8, uint32, uint64}
use cpp_owl_common.Netbuffer.Push.{
  Buffer, push_back_val, push_back_sized_utf16, push_sized_container,
}
use cpp_owl_common.Netbuffer.Reader.{
  Read, ◌>>=◌, pure, read_primitive, read_loop, read_sized_utf16, read_sized_vector,
}
use cpp_owl_common.Message.Draft.{Draft, ◌>>◌, counted, for_each, make}
use cpp_owl_common.Message.Decode.{decode, or_failure}
use cpp_owl_common.WorldModel.Types.{Uri, GrailTime}
use cpp_owl_common.WorldModel.Solver.Id.{id_of, solver_data}

pub record SolutionData : Type 0 where
  pub type_alias : ℕ
  pub time : GrailTime
  pub target : Uri
  pub bytes : Buffer

module _ (h : Host) where
  unfoldable pub push_solution : SolutionData → Draft → Draft
  push_solution soln = do
    counted (push_back_val h uint32 soln.type_alias)
    counted (push_back_val h uint64 soln.time)
    counted (push_back_sized_utf16 h soln.target)
    counted (push_sized_container h uint8 soln.bytes)

  unfoldable pub make_solution_msg : Bool → List SolutionData → Buffer
  make_solution_msg create_uris solutions = make h do
    counted (push_back_val h uint8 (id_of solver_data))
    counted (push_back_val h uint8 (if create_uris then 1 else 0))
    counted (push_back_val h uint32 (length solutions % u32_mod))
    for_each push_solution solutions

  unfoldable pub read_solution : Read SolutionData
  read_solution = do
    type_alias ← read_primitive h uint32
    time ← read_primitive h uint64
    target ← read_sized_utf16 h
    bytes ← read_sized_vector h uint8
    pure (record { type_alias = type_alias; time = time; target = target; bytes = bytes })

  unfoldable pub read_solutions : Read (Bool × List SolutionData)
  read_solutions = do
    create_uris ← read_primitive h uint8
    num_solns ← read_primitive h uint32
    solutions ← read_loop num_solns read_solution []
    pure (create_uris == 1, solutions)

  unfoldable pub decode_solution_msg : Buffer → Bool × List SolutionData
  decode_solution_msg buff =
      or_failure (false, []) (decode h (id_of solver_data) read_solutions (false, []) buff)
