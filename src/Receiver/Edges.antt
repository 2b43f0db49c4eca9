-- ===== src/Receiver/Edges.antt =====
-- `messageAvailable` against `getNextMessage`, interrupts, and length fields that wrap.
use cpp_owl_common.Prelude.{
  ℕ, ◌^◌, ◌+◌, ◌-◌, ◌<◌, ◌≤◌, ◌≡◌, refl, sym, ap, subst, ◌∙◌, List, [], ◌∷◌, ◌++◌, append-nil, Bool,
  true, false, length, length-append, take, drop, take-append-drop, ltb, leb, if◌then◌else◌, arith,
  lt→ltb, le→leb,
}
use native.Mathlib.Decide.{dec_lt}
use cpp_owl_common.Netbuffer.Endian.{
  Host, little, big, big_bytes, from_network_endian, little_endian, to_object, of_object,
}
use cpp_owl_common.Netbuffer.Endian.Laws.{length-big_bytes}
use cpp_owl_common.Netbuffer.Reader.{read_primitive_at}
use cpp_owl_common.Receiver.{
  Event, chunk, again, broken, closed, returned, Receiver, read_flag, frame_length, piece_length,
  needs_more, append_raw, receive_loop, cut_message, after_loop, get_next_message, Poll, ready,
  not_ready, poll_error, message_available, poll_and_receive, receive_once, is_complete,
}
use cpp_owl_common.Receiver.Rounds.{quiet, full_round, read_length}
use cpp_owl_common.Receiver.Framing.{saved, cut-whole}

-- `getNextMessage` with a length field that is not larger than the buffer returns at once.
at_once :
    (h : Host) (buff raw : List ℕ) (events : List Event)
    → 4 ≤ length buff
    → frame_length h buff ≤ length buff
    → get_next_message h (quiet buff raw events) ≡ cut_message h (quiet buff raw events)
unfolding get_next_message after_loop read_flag piece_length
at_once h buff raw events long enough =
    let known : (if leb 4 (length buff) then frame_length h buff else 0) ≡ frame_length h buff =
      rw (le→leb 4 (length buff) long) in
    let done : needs_more (if leb 4 (length buff) then frame_length h buff else 0) buff ≡ false =
      unfold needs_more in ground arith in
    ap (after_loop h) (full_round h _ events events buff raw done)

-- A length field of 2 ^ 32 - 4 wraps to a message of no bytes: `getNextMessage` returns an empty
-- message and leaves the receiver as it was, so that every later call does the same.
pub get_next_message_stuck :
    (h : Host) (front raw : List ℕ) (events : List Event)
    → get_next_message h (quiet (big_bytes 4 (2 ^ 32 - 4) ++ front) raw events)
      ≡ (returned [], quiet (big_bytes 4 (2 ^ 32 - 4) ++ front) raw events)
get_next_message_stuck h front raw events =
    let buff = big_bytes 4 (2 ^ 32 - 4) ++ front in
    let long : 4 ≤ length buff =
      omega
        (arith, length-append (big_bytes 4 (2 ^ 32 - 4)) front, length-big_bytes 4 (2 ^ 32 - 4)) in
    let wrapped : frame_length h buff ≡ 0 =
      unfold frame_length in
      omega
        (arith, read_length h (2 ^ 32 - 4) buff [] front (omega arith) long (append-nil buff)) in
    at_once h buff raw events long (omega arith)
    ∙ cut-whole h (quiet buff raw events) 0 wrapped (omega arith)
    ∙ ap (λ (t : Bool). (returned [], quiet (if t then buff else []) raw events))
        (lt→ltb 0 (length buff) (omega arith))

-- A loop that finds the interrupt at its first test leaves everything as it is.
pub loop_interrupted :
    (h : Host) (piece : ℕ) (events old : List Event) (buff raw : List ℕ) (flags : List Bool)
    → receive_loop h piece events (record {
      previous_unfinished = buff;
      raw_messages = raw;
      events = old;
      flags = true ∷ flags;
    })
      ≡ (
        returned tt,
        record { previous_unfinished = buff; raw_messages = raw; events = events; flags = flags },
      )
unfolding receive_loop read_flag
loop_interrupted h piece [] old buff raw flags = refl
loop_interrupted h piece (chunk b bs ∷ events) old buff raw flags = refl
loop_interrupted h piece (again ∷ events) old buff raw flags = refl
loop_interrupted h piece (broken n ∷ events) old buff raw flags = refl
loop_interrupted h piece (closed ∷ events) old buff raw flags = refl

-- An interrupt that is seen by both tests ends the call with an empty message, whatever the socket
-- would bring; nothing is received and nothing is lost.
get_next_message_interrupted :
    (h : Host) (r : Receiver) (flags : List Bool)
    → r.flags ≡ true ∷ true ∷ flags
    → get_next_message h r ≡ (returned [], record r { flags = flags })
unfolding get_next_message after_loop read_flag
get_next_message_interrupted h r flags e =
    let same : r ≡ record r { flags = true ∷ true ∷ flags } = λ i. record r { flags = e i } in
    ap (get_next_message h) same
    ∙ ap (after_loop h)
        (loop_interrupted h _ r.events r.events r.previous_unfinished r.raw_messages (true ∷ flags))

-- With fewer than four bytes the length reads as zero, and a message would take four bytes.
short_length : (h : Host) (buff : List ℕ) → length buff < 4 → frame_length h buff ≡ 4
unfolding frame_length read_primitive_at from_network_endian little_endian to_object of_object
short_length little buff few =
    let miss : ltb (0 + (4 - 1)) (length buff) ≡ false = ground arith in rw miss
short_length big buff few =
    let miss : ltb (0 + (4 - 1)) (length buff) ≡ false = ground arith in rw miss

complete_inv :
    (h : Host) (r r' : Receiver)
    → r.flags ≡ []
    → is_complete h r ≡ (returned true, r')
    → (leb (frame_length h r'.previous_unfinished) (length r'.previous_unfinished) ≡ true)
      × (r'.flags ≡ [])
unfolding is_complete
complete_inv h r r' no_flags e = ground arith

receive_inv :
    (h : Host) (events : List Event) (r r' : Receiver)
    → r.flags ≡ []
    → receive_once h events r ≡ (returned true, r')
    → (leb (frame_length h r'.previous_unfinished) (length r'.previous_unfinished) ≡ true)
      × (r'.flags ≡ [])
unfolding receive_once append_raw
receive_inv h [] r r' no_flags e = ground arith
receive_inv h (chunk b bs ∷ events) r r' no_flags e = complete_inv h _ r' no_flags e
receive_inv h (again ∷ events) r r' no_flags e = ground arith
receive_inv h (broken n ∷ events) r r' no_flags e = ground arith
receive_inv h (closed ∷ events) r r' no_flags e = ground arith

poll_inv :
    (h : Host) (poll : Poll) (b : Bool) (r r' : Receiver)
    → r.flags ≡ []
    → (if b then poll_and_receive h poll r else is_complete h r) ≡ (returned true, r')
    → (leb (frame_length h r'.previous_unfinished) (length r'.previous_unfinished) ≡ true)
      × (r'.flags ≡ [])
unfolding poll_and_receive
poll_inv h poll false r r' no_flags e = complete_inv h r r' no_flags e
poll_inv h ready true r r' no_flags e = receive_inv h r.events r r' no_flags e
poll_inv h not_ready true r r' no_flags e = ground arith
poll_inv h (poll_error n) true r r' no_flags e = ground arith

available_inv :
    (h : Host) (poll : Poll) (buff raw : List ℕ) (events : List Event) (r' : Receiver)
    → message_available h poll (quiet buff raw events) ≡ (returned true, r')
    → (leb (frame_length h r'.previous_unfinished) (length r'.previous_unfinished) ≡ true)
      × (r'.flags ≡ [])
unfolding message_available read_flag
available_inv h poll buff raw events r' e =
    poll_inv h poll (needs_more (piece_length h 0 buff) buff) (quiet buff raw events) r' refl e

-- What one call of `getNextMessage` returns at once: a message off the front of the buffer, with
-- nothing received.
record AtOnce (h : Host) (r : Receiver) : Type 0 where
  pub message : List ℕ
  pub next : Receiver
  pub result : get_next_message h r ≡ (returned message, next)
  pub off_the_front : r.previous_unfinished ≡ message ++ next.previous_unfinished
  pub nothing_received : next.events ≡ r.events

cut-AtOnce :
    (h : Host) (buff raw : List ℕ) (events : List Event)
    → leb (frame_length h buff) (length buff) ≡ true
    → AtOnce h (quiet buff raw events)
cut-AtOnce h buff raw events whole =
    let n = frame_length h buff in
    let long : 4 ≤ length buff = elim (dec_lt (length buff) 4) [
      | yes few ↦ absurd (ground (arith, short_length h buff few))
      | no enough ↦ omega arith
    ] in
    record {
      message = take n buff;
      next = quiet (if ltb n (length buff) then drop n buff else []) raw events;
      result =
          at_once h buff raw events long (ground arith)
          ∙ cut-whole h (quiet buff raw events) n refl (ground arith);
      off_the_front =
          sym (take-append-drop n buff)
          ∙ ap (λ (x : List ℕ). take n buff ++ x) (sym (saved n buff));
      nothing_received = refl;
    }

-- If `messageAvailable` returns true and nobody interrupts, the next `getNextMessage` returns a
-- message at once: one off the front of the buffer, with nothing received from the socket.
message_available-AtOnce :
    (h : Host) (poll : Poll) (r r' : Receiver)
    → r.flags ≡ []
    → message_available h poll r ≡ (returned true, r')
    → AtOnce h r'
message_available-AtOnce h poll r r' no_flags e =
    let same : r ≡ quiet r.previous_unfinished r.raw_messages r.events =
      λ i. record r { flags = no_flags i } in
    let inv =
      available_inv h poll r.previous_unfinished r.raw_messages r.events r'
        (ap (message_available h poll) (sym same) ∙ e) in
    let same' : quiet r'.previous_unfinished r'.raw_messages r'.events ≡ r' =
      λ i. record r' { flags = sym inv.1 i } in
    subst (λ x. AtOnce h x) same'
      (cut-AtOnce h r'.previous_unfinished r'.raw_messages r'.events inv.0)
