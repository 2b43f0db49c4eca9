-- ===== src/Receiver.antt =====
-- message_receiver.cpp: `MessageReceiver`, which cuts the stream of a socket into messages. What the
-- socket and the other threads do is given beforehand: the results of the calls of
-- `ClientSocket::receive`, one after the other, and the values that the reads of `interrupted` find.
pub mod Rounds
pub mod Framing
pub mod Starved
pub mod Edges
pub mod Conserved
pub mod Overrun
use cpp_owl_common.Prelude.{
  ℕ, ◌+◌, ◌%◌, List, [], ◌∷◌, ◌++◌, Bool, true, false, not, length, take, drop, replicate, ltb, leb,
  ◌&&◌, ◌||◌, if◌then◌else◌, u32_mod,
}
use cpp_owl_common.Netbuffer.Endian.{Host}
use cpp_owl_common.Netbuffer.Primitive.{uint32}
use cpp_owl_common.Netbuffer.Push.{Buffer}
use cpp_owl_common.Netbuffer.Reader.{read_primitive_at}

-- What one call of `receive` returns: one byte or more, -1 with EAGAIN or EWOULDBLOCK, -1 with
-- another errno, or 0.
pub data Event : Type 0 where
  chunk : ℕ → List ℕ → Event
  again : Event
  broken : ℕ → Event
  closed : Event

-- The std::runtime_error that are thrown: here for an errno and for the end of the stream, and by
-- `ClientSocket::inputReady` for what the poll reports.
pub data Fault : Type 0 where
  receive_error : ℕ → Fault
  poll_failed : ℕ → Fault
  connection_closed : Fault

-- `blocked`: the call waits for data that does not come. `overrun`: it reads past the end of a vector,
-- and what happens is undefined.
pub data Outcome (A : Type 0) : Type 0 where
  returned : A → Outcome A
  thrown : Fault → Outcome A
  blocked : Outcome A
  overrun : Outcome A

-- Once the values of `interrupted` are used up, it reads false.
pub record Receiver : Type 0 where
  pub previous_unfinished : Buffer
  pub raw_messages : Buffer
  pub events : List Event
  pub flags : List Bool

unfoldable pub new_receiver : List Event → List Bool → Receiver
new_receiver events flags = record {
  previous_unfinished = [];
  raw_messages = replicate 10000 0;
  events = events;
  flags = flags;
}

-- One read of `interrupted`.
unfoldable pub read_flag : List Bool → Bool × List Bool
read_flag [] = (false, [])
read_flag (b ∷ bs) = (b, bs)

module _ (h : Host) where
  -- `readPrimitive<uint32_t>(previous_unfinished, 0) + 4`, in a uint32_t.
  unfoldable pub frame_length : Buffer → ℕ
  frame_length buff = (read_primitive_at h uint32 buff 0 + 4) % u32_mod

  -- `uint32_t piece_length = 0; if (size >= 4) piece_length = ...;`
  unfoldable pub piece_length : ℕ → Buffer → ℕ
  piece_length before buff = if leb 4 (length buff) then frame_length buff else before

-- `size < 4 or size < piece_length`
unfoldable pub needs_more : ℕ → Buffer → Bool
needs_more piece buff = ltb (length buff) 4 || ltb (length buff) piece

-- `receive` writes to the front of raw_messages, and the bytes received are appended from there.
unfoldable pub append_raw : List ℕ → Receiver → Receiver
append_raw bytes r =
    let raw = bytes ++ drop (length bytes) r.raw_messages in
    record r {
      raw_messages = raw;
      previous_unfinished = r.previous_unfinished ++ take (length bytes) raw;
    }

module _ (h : Host) where
  -- The loop of `getNextMessage`, with the events still to come. EAGAIN sleeps and tries again.
  unfoldable pub receive_loop : ℕ → List Event → Receiver → Outcome (Unit {0}) × Receiver
  receive_loop piece [] r =
      let (interrupted, flags') = read_flag r.flags in
      let r' : Receiver = record r { events = []; flags = flags' } in
      elim (not interrupted && needs_more piece r.previous_unfinished) [
        | true ↦ (blocked, r')
        | false ↦ (returned tt, r')
      ]
  receive_loop piece (chunk b bs ∷ events) r =
      let (interrupted, flags') = read_flag r.flags in
      let r' = append_raw (b ∷ bs) (record r { flags = flags' }) in
      elim (not interrupted && needs_more piece r.previous_unfinished) [
        | true ↦ receive_loop (piece_length h piece r'.previous_unfinished) events r'
        | false ↦ (returned tt, record r { events = chunk b bs ∷ events; flags = flags' })
      ]
  receive_loop piece (again ∷ events) r =
      let (interrupted, flags') = read_flag r.flags in
      elim (not interrupted && needs_more piece r.previous_unfinished) [
        | true ↦ receive_loop piece events (record r { flags = flags' })
        | false ↦ (returned tt, record r { events = again ∷ events; flags = flags' })
      ]
  receive_loop piece (broken errno ∷ events) r =
      let (interrupted, flags') = read_flag r.flags in
      elim (not interrupted && needs_more piece r.previous_unfinished) [
        | true ↦ (thrown (receive_error errno), record r { events = events; flags = flags' })
        | false ↦ (returned tt, record r { events = broken errno ∷ events; flags = flags' })
      ]
  receive_loop piece (closed ∷ events) r =
      let (interrupted, flags') = read_flag r.flags in
      elim (not interrupted && needs_more piece r.previous_unfinished) [
        | true ↦ (thrown connection_closed, record r { events = events; flags = flags' })
        | false ↦ (returned tt, record r { events = closed ∷ events; flags = flags' })
      ]

  -- What follows the loop: the message, from `begin()` to `begin() + piece_length`, is cut off the front
  -- of the buffer, which may be shorter when the loop was left for an interrupt.
  unfoldable pub cut_message : Receiver → Outcome Buffer × Receiver
  cut_message r =
      let buff = r.previous_unfinished in
      let piece = frame_length h buff in
      if ltb (length buff) piece then (overrun, r) else (
        returned (take piece buff),
        record r { previous_unfinished = if ltb piece (length buff) then drop piece buff else [] },
      )

  unfoldable pub after_loop : Outcome (Unit {0}) × Receiver → Outcome Buffer × Receiver
  after_loop (blocked, r) = (blocked, r)
  after_loop (thrown e, r) = (thrown e, r)
  after_loop (overrun, r) = (overrun, r)
  after_loop (returned _, r) =
      let (interrupted, flags') = read_flag r.flags in
      let r' : Receiver = record r { flags = flags' } in
      if interrupted then (returned [], r') else cut_message r'

  unfoldable pub get_next_message : Receiver → Outcome Buffer × Receiver
  get_next_message r = after_loop (receive_loop (piece_length h 0 r.previous_unfinished) r.events r)

-- What `inputReady(10)` does: it returns a bool, or throws when the poll reports an error.
pub data Poll : Type 0 where
  ready not_ready : Poll
  poll_error : ℕ → Poll

module _ (h : Host) where
  -- `return piece_length <= previous_unfinished.size()`
  unfoldable pub is_complete : Receiver → Outcome Bool × Receiver
  is_complete r =
      (returned (leb (frame_length h r.previous_unfinished) (length r.previous_unfinished)), r)

  -- One call of `receive`, once the socket has input.
  unfoldable pub receive_once : List Event → Receiver → Outcome Bool × Receiver
  receive_once [] r = (blocked, r)
  receive_once (chunk b bs ∷ events) r =
      is_complete (append_raw (b ∷ bs) (record r { events = events }))
  receive_once (again ∷ events) r = (returned false, record r { events = events })
  receive_once (broken errno ∷ events) r =
      (thrown (receive_error errno), record r { events = events })
  receive_once (closed ∷ events) r = (thrown connection_closed, record r { events = events })

  unfoldable pub poll_and_receive : Poll → Receiver → Outcome Bool × Receiver
  poll_and_receive not_ready r = (returned false, r)
  poll_and_receive (poll_error e) r = (thrown (poll_failed e), r)
  poll_and_receive ready r = receive_once r.events r

  unfoldable pub message_available : Poll → Receiver → Outcome Bool × Receiver
  message_available poll r =
      let piece = piece_length h 0 r.previous_unfinished in
      let (interrupted, flags') = read_flag r.flags in
      let r' : Receiver = record r { flags = flags' } in
      if not interrupted && needs_more piece r.previous_unfinished
      then poll_and_receive poll r'
      else is_complete r'
