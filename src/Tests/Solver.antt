-- ===== src/Tests/Solver.antt =====
-- The messages of the solver at concrete values, made on one host and decoded on the other.
use cpp_owl_common.Prelude.{◌^◌, ◌≡◌, refl, List, [], ◌∷◌, length, true, arith}
use cpp_owl_common.Netbuffer.Endian.{little, big, big_bytes}
use cpp_owl_common.Netbuffer.Push.Laws.{wires}
use cpp_owl_common.Message.Draft.Laws.{frame}
use cpp_owl_common.Tests.Sizes.{size}
use cpp_owl_common.WorldModel.Solver.Announce.{decode_type_announce_msg}
use cpp_owl_common.WorldModel.Solver.Announce.RoundTrip.{decode_type_announce_msg-other}
use cpp_owl_common.WorldModel.Solver.Demand.{
  Demand, push_demand, make_start_on_demand, decode_start_on_demand,
}
use cpp_owl_common.WorldModel.Solver.Demand.RoundTrip.{decode-make_start_on_demand}
use cpp_owl_common.WorldModel.Solver.Solution.{
  SolutionData, push_solution, make_solution_msg, decode_solution_msg,
}
use cpp_owl_common.WorldModel.Solver.Solution.RoundTrip.{decode-make_solution_msg}

other_size : length (frame (2 ∷ wires (big_bytes 2) (97 ∷ []))) ≡ 7
unfolding frame big_bytes
other_size = refl

decode_type_announce_msg-other_example :
    decode_type_announce_msg big (frame (2 ∷ wires (big_bytes 2) (97 ∷ []))) ≡ ([], 97 ∷ [])
decode_type_announce_msg-other_example =
    decode_type_announce_msg-other big 2 (97 ∷ []) (omega arith) (omega arith) (omega arith)
      (omega (arith, other_size))

abbrev two_demands : List Demand
two_demands = (3, (97 ∷ []) ∷ [] ∷ []) ∷ (4, []) ∷ []

demands_size : length (make_start_on_demand little two_demands) ≡ 35
unfolding size make_start_on_demand push_demand
demands_size = refl

decode-make_start_on_demand_example :
    decode_start_on_demand big (make_start_on_demand little two_demands) ≡ two_demands
decode-make_start_on_demand_example =
    decode-make_start_on_demand little big two_demands (omega arith) (omega arith)
      (omega (arith, demands_size))

abbrev a_solution : List SolutionData
a_solution = record { type_alias = 3; time = 2 ^ 35; target = 97 ∷ []; bytes = 255 ∷ [] } ∷ []

solution_size : length (make_solution_msg little true a_solution) ≡ 33
unfolding size make_solution_msg push_solution
solution_size = refl

decode-make_solution_msg_example :
    decode_solution_msg big (make_solution_msg little true a_solution) ≡ (true, a_solution)
decode-make_solution_msg_example =
    decode-make_solution_msg little big true a_solution (omega arith) (omega arith)
      (omega (arith, solution_size))
