-- ===== src/WorldModel/Solver/Solution/Short.antt =====
-- Solutions of which the last has fewer bytes than it announces.
use cpp_owl_common.Prelude.{
  ℕ, suc, ◌<◌, ◌≤◌, ◌≡◌, List, [], ◌∷◌, ◌++◌, Bool, ◌==◌, if◌then◌else◌, length, subst, All, arith,
}
use cpp_owl_common.Netbuffer.Endian.{Host, big_bytes}
use cpp_owl_common.Netbuffer.Primitive.Laws.{wire8, wire64}
use cpp_owl_common.Netbuffer.Push.Laws.{wires, sized_utf16}
use cpp_owl_common.Netbuffer.Reader.Reads.{Reads-primitive, ReadsAll, ReadsAll-bind, ReadsAll-last}
use cpp_owl_common.Netbuffer.Reader.Sequences.{Reads-uint32, Reads-sized_utf16}
use cpp_owl_common.Netbuffer.Reader.Short.{ReadsAll-short_bytes, ReadsAll-loop}
use cpp_owl_common.Message.Draft.Laws.{frame}
use cpp_owl_common.Message.Decode.Laws.{decode-frame}
use cpp_owl_common.WorldModel.Types.{IsU32}
use cpp_owl_common.WorldModel.Solver.Solution.{
  SolutionData, read_solution, read_solutions, decode_solution_msg,
}
use cpp_owl_common.WorldModel.Solver.Solution.RoundTrip.{
  IsSolution, wire_solution, Reads-solution, flag-small, flag-back,
}

-- A solution that announces `n` bytes and holds its own.
unfoldable pub wire_announcing : ℕ → SolutionData → List ℕ
wire_announcing n s =
    big_bytes 4 s.type_alias
    ++ (big_bytes 8 s.time
        ++ (sized_utf16 s.target ++ (big_bytes 4 n ++ wires (big_bytes 1) s.bytes)))

-- What follows the message type.
unfoldable pub wire_short : Bool → List SolutionData → ℕ → SolutionData → List ℕ
wire_short create_uris solutions n last =
    big_bytes 1 (if create_uris then 1 else 0)
    ++ (big_bytes 4 (suc (length solutions))
        ++ (wires wire_solution solutions ++ wire_announcing n last))

ReadsAll-announcing :
    (h : Host) (n : ℕ) (s : SolutionData)
    → IsSolution s
    → length s.bytes ≤ n
    → IsU32 n
    → ReadsAll h (read_solution h) (wire_announcing n s) s
unfolding read_solution wire_announcing
ReadsAll-announcing h n s ok few small =
    ReadsAll-bind h _ (Reads-uint32 h s.type_alias ok.alias_ok) (
      ReadsAll-bind h _ (Reads-primitive h wire64 s.time (omega (arith, ok.time_ok))) (
        ReadsAll-bind h _ (Reads-sized_utf16 h s.target ok.target_ok)
          (ReadsAll-last h _ (ReadsAll-short_bytes h s.bytes n few small ok.bytes_ok))))

ReadsAll-short :
    (h : Host) (create_uris : Bool) (solutions : List SolutionData) (n : ℕ) (last : SolutionData)
    → All IsSolution solutions
    → IsU32 (suc (length solutions))
    → IsSolution last
    → length last.bytes ≤ n
    → IsU32 n
    → ReadsAll h
        (read_solutions h)
        (wire_short create_uris solutions n last)
        (create_uris, solutions ++ (last ∷ []))
unfolding read_solutions wire_short
ReadsAll-short h create_uris solutions n last ok many last_ok few small =
    let flag : ℕ = if create_uris then 1 else 0 in
    subst
      (λ c.
        ReadsAll {A = Bool × List SolutionData} h (read_solutions h)
          (wire_short create_uris solutions n last) (c, solutions ++ (last ∷ [])))
      (flag-back create_uris)
      (ReadsAll-bind h _ (Reads-primitive h wire8 flag (flag-small create_uris)) (
        ReadsAll-bind h _ (Reads-uint32 h (suc (length solutions)) many) (
          ReadsAll-last h (λ (xs : List SolutionData). (flag == 1, xs))
            (ReadsAll-loop h wire_solution IsSolution (Reads-solution h)
              (ReadsAll-announcing h n last last_ok few small) solutions [] ok))))

-- A solution message whose last solution announces `n` bytes and holds fewer, under a length field
-- that fits, is decoded as if it were whole, if the values fit their types and the message is shorter
-- than 2 ^ 32 bytes.
decode_solution_msg-short :
    (h : Host) (create_uris : Bool) (solutions : List SolutionData) (n : ℕ) (last : SolutionData)
    → All IsSolution solutions
    → IsU32 (suc (length solutions))
    → IsSolution last
    → length last.bytes < n
    → IsU32 n
    → IsU32 (length (frame (4 ∷ wire_short create_uris solutions n last)))
    → decode_solution_msg h (frame (4 ∷ wire_short create_uris solutions n last))
      ≡ (create_uris, solutions ++ (last ∷ []))
unfolding decode_solution_msg
decode_solution_msg-short h create_uris solutions n last ok many last_ok few small fits =
    decode-frame h 4 _ _ (omega arith) fits
      (ReadsAll-short h create_uris solutions n last ok many last_ok (omega arith) small)
