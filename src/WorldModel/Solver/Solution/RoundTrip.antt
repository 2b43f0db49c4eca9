-- ===== src/WorldModel/Solver/Solution/RoundTrip.antt =====
-- The wire form of solution messages, and that they come back.
use cpp_owl_common.Prelude.{
  ℕ, ◌^◌, ◌<◌, ◌≡◌, refl, ap, subst, ◌∙◌, List, [], ◌∷◌, ◌++◌, length, All, arith, ◌==◌,
  if◌then◌else◌, true, false, Bool,
}
use cpp_owl_common.Netbuffer.Endian.{Host, big_bytes}
use cpp_owl_common.Netbuffer.Primitive.Laws.{wire8, wire64}
use cpp_owl_common.Netbuffer.Push.Laws.{wires, sized, sized_utf16}
use cpp_owl_common.Netbuffer.Reader.Reads.{
  Reads, Reads-bind, Reads-last, Reads-primitive, ReadsAll-end,
}
use cpp_owl_common.Netbuffer.Reader.Sequences.{
  Reads-uint32, Reads-sized_utf16, Reads-sized_bytes, Reads-loop,
}
use cpp_owl_common.Message.Draft.Laws.{
  frame, make-frame, Emits, Emits-seq, Emits-id, Emits-count, Emits-each, Emits-uint8, Emits-uint32,
  Emits-uint64, Emits-sized_utf16, Emits-sized_bytes,
}
use cpp_owl_common.Message.Decode.Laws.{decode-frame}
use cpp_owl_common.WorldModel.Types.{IsString, IsU32, IsTime, IsOctets}
use cpp_owl_common.WorldModel.Solver.Solution.{
  SolutionData, push_solution, make_solution_msg, read_solution, read_solutions,
  decode_solution_msg,
}

pub record IsSolution (s : SolutionData) : Type 0 where
  pub alias_ok : IsU32 s.type_alias
  pub time_ok : IsTime s.time
  pub target_ok : IsString s.target
  pub bytes_ok : IsOctets s.bytes

unfoldable pub wire_solution : SolutionData → List ℕ
wire_solution s =
    big_bytes 4 s.type_alias
    ++ (big_bytes 8 s.time ++ (sized_utf16 s.target ++ sized 1 (big_bytes 1) s.bytes))

-- What follows the message type.
unfoldable pub wire_solutions : Bool → List SolutionData → List ℕ
wire_solutions create_uris solutions =
    big_bytes 1 (if create_uris then 1 else 0)
    ++ (big_bytes 4 (length solutions) ++ wires wire_solution solutions)

Emits-solution : (h : Host) (s : SolutionData) → Emits (push_solution h s) (wire_solution s)
unfolding push_solution wire_solution
Emits-solution h s = Emits-seq (Emits-uint32 h s.type_alias) (
    Emits-seq (Emits-uint64 h s.time)
      (Emits-seq (Emits-sized_utf16 h s.target) (Emits-sized_bytes h s.bytes)))

-- A solution message is, on either host, the frame of its type, the flag, the number of solutions
-- and the solutions, all in network order.
pub make_solution_msg-frame :
    (h : Host) (create_uris : Bool) (solutions : List SolutionData)
    → make_solution_msg h create_uris solutions ≡ frame (4 ∷ wire_solutions create_uris solutions)
unfolding make_solution_msg wire_solutions
make_solution_msg-frame h create_uris solutions = make-frame h (
    Emits-seq (Emits-id h 4 (omega arith)) (
      Emits-seq (Emits-uint8 h (if create_uris then 1 else 0)) (
        Emits-seq (Emits-count h (length solutions))
          (Emits-each wire_solution solutions (Emits-solution h)))))

pub Reads-solution :
    (h : Host) (s : SolutionData) → IsSolution s → Reads h (read_solution h) (wire_solution s) s
unfolding read_solution wire_solution
Reads-solution h s ok = Reads-bind h _ (Reads-uint32 h s.type_alias ok.alias_ok) (
    Reads-bind h _ (Reads-primitive h wire64 s.time (omega (arith, ok.time_ok))) (
      Reads-bind h _ (Reads-sized_utf16 h s.target ok.target_ok)
        (Reads-last h _ (Reads-sized_bytes h s.bytes ok.bytes_ok))))

pub flag-small : (b : Bool) → (if b then 1 else 0) < 256 ^ 1
flag-small b = ground arith

pub flag-back : (b : Bool) → ((if b then 1 else 0) == 1) ≡ b
flag-back true = refl
flag-back false = refl

Reads-solutions :
    (h : Host) (create_uris : Bool) (solutions : List SolutionData)
    → All IsSolution solutions
    → IsU32 (length solutions)
    → Reads h (read_solutions h) (wire_solutions create_uris solutions) (create_uris, solutions)
unfolding read_solutions wire_solutions
Reads-solutions h create_uris solutions ok few =
    let flag : ℕ = if create_uris then 1 else 0 in
    subst
      (λ c.
        Reads {A = Bool × List SolutionData} h (read_solutions h)
          (wire_solutions create_uris solutions) (c, solutions))
      (flag-back create_uris)
      (Reads-bind h _ (Reads-primitive h wire8 flag (flag-small create_uris)) (
        Reads-bind h _ (Reads-uint32 h (length solutions) few) (
          Reads-last h (λ (xs : List SolutionData). (flag == 1, xs))
            (Reads-loop h wire_solution IsSolution (Reads-solution h) solutions [] ok))))

-- Solutions made on any host, and decoded on any host, come back with the flag that goes with them,
-- if the values fit their types and the message is shorter than 2 ^ 32 bytes.
pub decode-make_solution_msg :
    (h h' : Host) (create_uris : Bool) (solutions : List SolutionData)
    → All IsSolution solutions
    → IsU32 (length solutions)
    → IsU32 (length (make_solution_msg h create_uris solutions))
    → decode_solution_msg h' (make_solution_msg h create_uris solutions) ≡ (create_uris, solutions)
unfolding decode_solution_msg
decode-make_solution_msg h h' create_uris solutions ok few fits =
    ap (decode_solution_msg h') (make_solution_msg-frame h create_uris solutions)
    ∙ decode-frame h' 4 _ _ (omega arith)
        (subst (λ b. IsU32 (length b)) (make_solution_msg-frame h create_uris solutions) fits)
        (ReadsAll-end h' (Reads-solutions h' create_uris solutions ok few))
