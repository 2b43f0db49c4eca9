-- ===== src/WorldModel/Solver/Rejects.antt =====
-- What the decoders of the solver messages return for messages that they turn away at the header.
use cpp_owl_common.Prelude.{ℕ, ◌<◌, ◌≤◌, ◌≡◌, ◌⊎◌, ap, List, [], arith, true, false, Bool}
use cpp_owl_common.Netbuffer.Endian.{Host}
use cpp_owl_common.Netbuffer.Reader.{BuffReader, pure}
use cpp_owl_common.Message.Decode.{decode}
use cpp_owl_common.Message.Decode.Rejects.{
  packet, IsPacket, IsForeign, IsMisfit, misfit-IsForeign, decode-foreign, or_failure-decode,
}
use cpp_owl_common.WorldModel.Solver.Demand.{decode_start_on_demand, decode_stop_on_demand}
use cpp_owl_common.WorldModel.Solver.Solution.{decode_solution_msg}
use cpp_owl_common.WorldModel.Solver.Change.{
  decode_create_uri, decode_expire_uri, decode_expire_attribute, decode_delete_uri,
  decode_delete_attribute,
}

-- A stop message that is turned away leaves the buffer as it is.
stop_rejects :
    (h : Host) (n k : ℕ) (bs : List ℕ)
    → IsPacket n k bs
    → IsForeign 3 n k bs
    → decode_stop_on_demand h (packet n k bs) ≡ ([], packet n k bs)
unfolding decode_stop_on_demand
stop_rejects h n k bs ok foreign =
    let seen : (decode h 3 (pure true) false (packet n k bs)).0 ≡ false =
      ap (λ (r : Bool × BuffReader). r.0) (decode-foreign h ok 3 (pure true) false foreign) in
    rw seen

-- Five bytes or more that are no message of the solver, by their length or because no type is that
-- high, are turned away by every decoder of the solver but that of type announcements: each returns
-- empty values and a time of zero, and that of stop messages leaves the buffer as it is.
decode_solver-foreign :
    (h : Host) (n k : ℕ) (bs : List ℕ)
    → IsPacket n k bs
    → IsMisfit n bs ⊎ (9 < k)
    → (decode_start_on_demand h (packet n k bs) ≡ [])
      × (decode_stop_on_demand h (packet n k bs) ≡ ([], packet n k bs))
      × (decode_solution_msg h (packet n k bs) ≡ (false, []))
      × (decode_create_uri h (packet n k bs) ≡ ([], 0, []))
      × (decode_expire_uri h (packet n k bs) ≡ ([], 0, []))
      × (decode_delete_uri h (packet n k bs) ≡ ([], []))
      × (decode_expire_attribute h (packet n k bs) ≡ ([], [], 0, []))
      × (decode_delete_attribute h (packet n k bs) ≡ ([], [], []))
unfolding decode_start_on_demand decode_solution_msg decode_create_uri decode_expire_uri
    decode_delete_uri decode_expire_attribute decode_delete_attribute
decode_solver-foreign h n k bs ok bad =
    let foreign : (id : ℕ) → id ≤ 9 → IsForeign id n k bs =
      λ id b. misfit-IsForeign n k bs id bad b in
    (
      or_failure-decode h ok 2 _ _ _ (foreign 2 (omega arith)),
      stop_rejects h n k bs ok (foreign 3 (omega arith)),
      or_failure-decode h ok 4 _ _ _ (foreign 4 (omega arith)),
      or_failure-decode h ok 5 _ _ _ (foreign 5 (omega arith)),
      or_failure-decode h ok 6 _ _ _ (foreign 6 (omega arith)),
      or_failure-decode h ok 7 _ _ _ (foreign 7 (omega arith)),
      or_failure-decode h ok 8 _ _ _ (foreign 8 (omega arith)),
      or_failure-decode h ok 9 _ _ _ (foreign 9 (omega arith)),
    )
