-- ===== src/Tests/Streams.antt =====
-- Streams cut into chunks, and the receiver at the edges.
use cpp_owl_common.Prelude.{ℕ, ◌^◌, ◌-◌, ◌≡◌, refl, List, [], ◌∷◌, ◌++◌, map, arith}
use cpp_owl_common.Netbuffer.Endian.{little, big_bytes}
use cpp_owl_common.Netbuffer.Push.Laws.{wires}
use cpp_owl_common.Message.Draft.Laws.{frame, length-frame}
use cpp_owl_common.Receiver.{chunk, again, closed, returned, Receiver, get_next_message}
use cpp_owl_common.Receiver.Rounds.{pending, quiet}
use cpp_owl_common.Receiver.Framing.{
  Delivers, Receives, get_next_message-Delivers, get_next_message-Receives,
}
use cpp_owl_common.Receiver.Starved.{hang_up, GivesUp, get_next_message-GivesUp}
use cpp_owl_common.Receiver.Edges.{get_next_message_stuck}

abbrev two_bodies : List (List ℕ)
two_bodies = (8 ∷ 1 ∷ []) ∷ [] ∷ []

-- Two bytes are in the buffer, and the rest of two messages and one byte more come in pieces.
abbrev cut_up : Receiver
cut_up =
    quiet (0 ∷ 0 ∷ []) []
      (chunk 0 [] ∷ again ∷ chunk 2 (8 ∷ []) ∷ chunk 1 (0 ∷ []) ∷ chunk 0 (0 ∷ 0 ∷ 7 ∷ []) ∷ [])

cut_up-pending : pending cut_up ≡ wires frame two_bodies ++ (7 ∷ [])
unfolding frame big_bytes
cut_up-pending = refl

get_next_message-Receives_example : Receives little cut_up (map frame two_bodies)
get_next_message-Receives_example =
    get_next_message-Receives little two_bodies cut_up (7 ∷ []) (tt, refl) cut_up-pending
      (omega (arith, length-frame (8 ∷ 1 ∷ []), length-frame []))

get_next_message-Delivers_example :
    Delivers little cut_up (frame (8 ∷ 1 ∷ [])) (frame [] ++ (7 ∷ []))
unfolding frame big_bytes
get_next_message-Delivers_example =
    get_next_message-Delivers little cut_up (8 ∷ 1 ∷ []) (frame [] ++ (7 ∷ [])) (tt, refl)
      cut_up-pending (omega (arith, length-frame (8 ∷ 1 ∷ [])))

-- The length says two bytes; one comes, in two pieces, and the peer hangs up.
starved_start : (0 ∷ 0 ∷ []) ++ ((0 ∷ 2 ∷ 8 ∷ []) ++ (9 ∷ [])) ≡ frame (8 ∷ 9 ∷ [])
unfolding frame big_bytes
starved_start = refl

get_next_message-GivesUp_example :
    GivesUp little
      (quiet (0 ∷ 0 ∷ []) [] (chunk 0 [] ∷ again ∷ chunk 2 (8 ∷ []) ∷ closed ∷ []))
      hang_up
      (0 ∷ 0 ∷ 0 ∷ 2 ∷ 8 ∷ [])
get_next_message-GivesUp_example =
    get_next_message-GivesUp little (0 ∷ 0 ∷ []) [] (8 ∷ 9 ∷ []) (9 ∷ [])
      (chunk 0 [] ∷ again ∷ chunk 2 (8 ∷ []) ∷ []) hang_up tt starved_start (omega arith)
      (omega (arith, length-frame (8 ∷ 9 ∷ [])))

get_next_message_stuck_example :
    get_next_message little (quiet (big_bytes 4 (2 ^ 32 - 4) ++ (1 ∷ [])) [] [])
    ≡ (returned [], quiet (big_bytes 4 (2 ^ 32 - 4) ++ (1 ∷ [])) [] [])
get_next_message_stuck_example = get_next_message_stuck little (1 ∷ []) [] []
