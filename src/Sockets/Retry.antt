-- ===== src/Sockets/Retry.antt =====
-- `ClientSocket::send` called again with the same buffer, after it threw `temporarily_unavailable`.
use cpp_owl_common.Prelude.{
  ℕ, ◌+◌, ◌-◌, ◌^◌, ◌<◌, ◌≤◌, ◌≡◌, refl, sym, ap, subst, ◌∙◌, List, [], ◌++◌, append_assoc, length,
  length-append, length-take, length-drop, take, drop, take-append_eq, take-append_long,
  take-append-drop, u32_mod, arith,
}
use cpp_owl_common.Netbuffer.Endian.{Host, big_bytes}
use cpp_owl_common.Netbuffer.Endian.Laws.{length-big_bytes}
use cpp_owl_common.Message.Draft.Laws.{frame, length-frame}
use cpp_owl_common.Receiver.{Event, new_receiver}
use cpp_owl_common.Receiver.Rounds.{bytes_of, AreQuiet}
use cpp_owl_common.Receiver.Framing.{Delivers, get_next_message-Delivers}
use cpp_owl_common.Sockets.{
  ClientSocket, Call, temporarily_unavailable, returned, thrown, Round, send_buffer,
}
use cpp_owl_common.Sockets.Stream.{taken, taken-append, AreHonest, send_buffer-Sends, Sends}
use cpp_owl_common.Sockets.Delivery.{taken-returned}

-- A front of a message that holds its length field, and as many bytes as are missing from whatever
-- follows, are a message.
module _ (body front unsent : List ℕ) (e : front ++ unsent ≡ frame body)
    (head : 4 ≤ length front) where
  abbrev mixed : List ℕ
  mixed = front ++ take (length unsent) (frame body)

  lengths : length front + length unsent ≡ length body + 4
  lengths = sym (length-append front unsent) ∙ ap length e ∙ length-frame body

  length-mixed : length mixed ≡ length body + 4
  length-mixed = omega (
    arith,
    lengths,
    length-append front (take (length unsent) (frame body)),
    length-take (length unsent) (frame body),
    length-frame body,
  )

  take-mixed : take 4 mixed ≡ big_bytes 4 (length body)
  unfolding frame
  take-mixed =
      take-append_long 4 front (take (length unsent) (frame body)) head
      ∙ sym (take-append_long 4 front unsent head)
      ∙ ap (take 4) e
      ∙ take-append_eq (big_bytes 4 (length body)) body (length-big_bytes 4 (length body))

  frame-mixed : frame (drop 4 mixed) ≡ mixed
  unfolding frame
  frame-mixed =
      let same : length (drop 4 mixed) ≡ length body =
        omega (arith, length-mixed, length-drop 4 mixed) in
      ap (λ (n : ℕ). big_bytes 4 n ++ drop 4 mixed) same
      ∙ ap (λ (x : List ℕ). x ++ drop 4 mixed) (sym take-mixed)
      ∙ take-append-drop 4 mixed

-- After a call of `send` that threw `temporarily_unavailable` with the length field of a message sent,
-- or more of it, the same message is sent again, and that call returns. The first message of the
-- receiver then is the part that was sent, filled up to the message's length from the front of the
-- second copy, and the rest of that copy is left in the stream: if the message is shorter than 2 ^ 31
-- bytes, no call of the system takes more bytes than it is given, and the stream, however it is cut
-- into chunks, carries exactly the bytes that the system took, with no error, no end and nobody
-- interrupting.
pub send_again-Delivers :
    (h : Host) (body : List ℕ) (rounds again : List Round) (socket next last : ClientSocket)
    (calls more : List Call) (events : List Event)
    → length (frame body) < 2 ^ 31
    → AreHonest (length (frame body)) rounds
    → AreHonest (length (frame body)) again
    → send_buffer rounds (frame body) socket ≡ (thrown temporarily_unavailable, next, calls)
    → send_buffer again (frame body) next ≡ (returned tt, last, more)
    → 4 ≤ length (taken calls)
    → AreQuiet events
    → bytes_of events ≡ taken (calls ++ more)
    → Delivers h
        (new_receiver events [])
        (taken calls ++ take (length (frame body) - length (taken calls)) (frame body))
        (drop (length (frame body) - length (taken calls)) (frame body))
unfolding new_receiver
send_again-Delivers h body rounds again socket next last calls more events fits honest honest'
      thrown_away comes_back head quiet e =
    let sends : Sends (thrown temporarily_unavailable, next, calls) (frame body) =
      subst (λ run. Sends run (frame body)) thrown_away
        (send_buffer-Sends rounds (frame body) socket fits honest) in
    let front = taken calls in
    let unsent = sends.unsent in
    let missing : length (frame body) - length front ≡ length unsent =
      omega (arith, ap length sends.in_order, length-append front unsent) in
    let filled = mixed body front unsent sends.in_order head in
    let same : frame (drop 4 filled) ≡ filled = frame-mixed body front unsent sends.in_order head in
    let whole : length (frame (drop 4 filled)) < u32_mod = omega (
      arith,
      fits,
      length-frame body,
      ap length same,
      length-mixed body front unsent sends.in_order head,
    ) in
    rw missing (
      subst (λ m. Delivers h (new_receiver events []) m (drop (length unsent) (frame body))) same
        (get_next_message-Delivers h (new_receiver events []) (drop 4 filled) _ (quiet, refl)
          (e
            ∙ taken-append calls more
            ∙ ap (λ (x : List ℕ). front ++ x)
                (taken-returned again (frame body) next last more fits honest' comes_back)
            ∙ ap (λ (x : List ℕ). front ++ x) (sym (take-append-drop (length unsent) (frame body)))
            ∙ sym (
                append_assoc front (take (length unsent) (frame body))
                  (drop (length unsent) (frame body)))
            ∙ ap (λ (x : List ℕ). x ++ drop (length unsent) (frame body)) (sym same))
          whole))
