-- ===== src/Receiver/Conserved.antt =====
-- No byte of the stream is lost, doubled or moved, in whatever order `messageAvailable` and
-- `getNextMessage` are called, and whatever the socket and the interrupting thread do.
use cpp_owl_common.Prelude.{
  ℕ, ◌≡◌, refl, sym, ap, ◌∙◌, List, [], ◌∷◌, ◌++◌, append_assoc, Bool, true, false, not, ◌&&◌,
  length, take, drop, take-append, take-append-drop, ltb, if◌then◌else◌,
}
use cpp_owl_common.Netbuffer.Endian.{Host}
use cpp_owl_common.Netbuffer.Push.{Buffer}
use cpp_owl_common.Receiver.{
  Event, chunk, again, broken, closed, receive_error, connection_closed, Outcome, returned, thrown,
  blocked, overrun, Receiver, read_flag, piece_length, needs_more, append_raw, receive_loop,
  frame_length, cut_message, after_loop, get_next_message, Poll, ready, not_ready, poll_error,
  is_complete, receive_once, poll_and_receive, message_available,
}
use cpp_owl_common.Receiver.Rounds.{bytes_of, pending}
use cpp_owl_common.Receiver.Framing.{saved}

-- What a call hands to its caller.
abbrev pub delivered : Outcome Buffer → List ℕ
delivered (returned message) = message
delivered (thrown e) = []
delivered blocked = []
delivered overrun = []

-- The call has not read past the end of the buffer.
abbrev pub IsDefined : {A : Type 0} → Outcome A → Type 0
IsDefined overrun = ⊥
IsDefined _ = Unit

append_raw-eq :
    (bytes : List ℕ) (r : Receiver)
    → (append_raw bytes r).previous_unfinished ≡ r.previous_unfinished ++ bytes
unfolding append_raw
append_raw-eq bytes r =
    ap (λ (x : List ℕ). r.previous_unfinished ++ x)
      (take-append bytes (drop (length bytes) r.raw_messages))

-- What both branches of a test keep is kept.
either-pending :
    {A : Type 0} (more : Bool) (x y : Outcome A × Receiver) (bytes : List ℕ)
    → pending x.1 ≡ bytes
    → pending y.1 ≡ bytes
    → pending (elim more as (λ _. Outcome A × Receiver) [ true ↦ x | false ↦ y ]).1 ≡ bytes
either-pending true x y bytes e e' = e
either-pending false x y bytes e e' = e'

if_keeps : {A : Type 0} (P : A → Type 0) (b : Bool) (x y : A) → P x → P y → P (if b then x else y)
if_keeps P true x y e e' = e
if_keeps P false x y e e' = e'

-- The test of the loop, and where it ends.
abbrev goes_on : ℕ → Receiver → Bool
goes_on piece r = not (read_flag r.flags).0 && needs_more piece r.previous_unfinished

abbrev read_on : List Event → Receiver → Receiver
read_on events r = record r { events = events; flags = (read_flag r.flags).1 }

abbrev ended : List Event → Receiver → Outcome (Unit {0}) × Receiver
ended events r = (returned tt, read_on events r)

module _ (h : Host) where
  loop-pending :
      (piece : ℕ) (events : List Event) (r : Receiver)
      → pending (receive_loop h piece events r).1 ≡ r.previous_unfinished ++ bytes_of events
  unfolding receive_loop
  loop-pending piece [] r =
      either-pending (goes_on piece r) (blocked, read_on [] r) (ended [] r) _ refl refl
  loop-pending piece (chunk b bs ∷ events) r =
      let r' = append_raw (b ∷ bs) (record r { flags = (read_flag r.flags).1 }) in
      let piece' = piece_length h piece r'.previous_unfinished in
      either-pending (goes_on piece r) (receive_loop h piece' events r')
        (ended (chunk b bs ∷ events) r) _
        (loop-pending piece' events r'
          ∙ ap (λ (x : List ℕ). x ++ bytes_of events) (append_raw-eq (b ∷ bs) _)
          ∙ append_assoc r.previous_unfinished (b ∷ bs) (bytes_of events))
        refl
  loop-pending piece (again ∷ events) r =
      let r' : Receiver = record r { flags = (read_flag r.flags).1 } in
      either-pending (goes_on piece r) (receive_loop h piece events r') (ended (again ∷ events) r) _
        (loop-pending piece events r') refl
  loop-pending piece (broken errno ∷ events) r =
      either-pending (goes_on piece r) (thrown (receive_error errno), read_on events r)
        (ended (broken errno ∷ events) r) _ refl refl
  loop-pending piece (closed ∷ events) r =
      either-pending (goes_on piece r) (thrown connection_closed, read_on events r)
        (ended (closed ∷ events) r) _ refl refl

  cut_message-pending :
      (r : Receiver) → delivered (cut_message h r).0 ++ pending (cut_message h r).1 ≡ pending r
  unfolding cut_message
  cut_message-pending r =
      let buff = r.previous_unfinished in
      let piece = frame_length h buff in
      let kept : List ℕ = if ltb piece (length buff) then drop piece buff else [] in
      if_keeps {A = Outcome Buffer × Receiver} (λ p. delivered p.0 ++ pending p.1 ≡ pending r)
        (ltb (length buff) piece) (overrun, r)
        (returned (take piece buff), record r { previous_unfinished = kept }) refl
        (sym (append_assoc (take piece buff) kept (bytes_of r.events))
          ∙ ap (λ (x : List ℕ). (take piece buff ++ x) ++ bytes_of r.events) (saved piece buff)
          ∙ ap (λ (x : List ℕ). x ++ bytes_of r.events) (take-append-drop piece buff))

  after_loop-pending :
      (outcome : Outcome (Unit {0})) (r : Receiver)
      → delivered (after_loop h (outcome, r)).0 ++ pending (after_loop h (outcome, r)).1 ≡ pending r
  unfolding after_loop
  after_loop-pending blocked r = refl
  after_loop-pending (thrown e) r = refl
  after_loop-pending overrun r = refl
  after_loop-pending (returned _) r =
      let r' : Receiver = record r { flags = (read_flag r.flags).1 } in
      if_keeps {A = Outcome Buffer × Receiver} (λ p. delivered p.0 ++ pending p.1 ≡ pending r)
        (read_flag r.flags).0 (returned [], r') (cut_message h r') refl (cut_message-pending r')

  get_next_message-pending :
      (r : Receiver)
      → delivered (get_next_message h r).0 ++ pending (get_next_message h r).1 ≡ pending r
  unfolding get_next_message
  get_next_message-pending r =
      let loop = receive_loop h (piece_length h 0 r.previous_unfinished) r.events r in
      after_loop-pending loop.0 loop.1 ∙ loop-pending _ r.events r

  receive_once-pending :
      (events : List Event) (r : Receiver)
      → r.events ≡ events
      → pending (receive_once h events r).1 ≡ pending r
  unfolding receive_once is_complete append_raw
  receive_once-pending [] r e = refl
  receive_once-pending (chunk b bs ∷ events) r e =
      ap (λ (x : List ℕ). x ++ bytes_of events)
        (append_raw-eq (b ∷ bs) (record r { events = events }))
      ∙ append_assoc r.previous_unfinished (b ∷ bs) (bytes_of events)
      ∙ ap (λ (es : List Event). r.previous_unfinished ++ bytes_of es) (sym e)
  receive_once-pending (again ∷ events) r e =
      ap (λ (es : List Event). r.previous_unfinished ++ bytes_of es) (sym e)
  receive_once-pending (broken errno ∷ events) r e =
      ap (λ (es : List Event). r.previous_unfinished ++ bytes_of es) (sym e)
  receive_once-pending (closed ∷ events) r e =
      ap (λ (es : List Event). r.previous_unfinished ++ bytes_of es) (sym e)

  poll-pending : (poll : Poll) (r : Receiver) → pending (poll_and_receive h poll r).1 ≡ pending r
  unfolding poll_and_receive
  poll-pending not_ready r = refl
  poll-pending (poll_error e) r = refl
  poll-pending ready r = receive_once-pending r.events r refl

  message_available-pending :
      (poll : Poll) (r : Receiver) → pending (message_available h poll r).1 ≡ pending r
  unfolding message_available is_complete
  message_available-pending poll r =
      let r' : Receiver = record r { flags = (read_flag r.flags).1 } in
      if_keeps {A = Outcome Bool × Receiver} (λ p. pending p.1 ≡ pending r)
        (goes_on (piece_length h 0 r.previous_unfinished) r) (poll_and_receive h poll r')
        (is_complete h r') (poll-pending poll r') refl

  -- Calls of the two functions, none of which reads past the end of the buffer, and the bytes that they
  -- hand to their callers.
  pub data Calls : Receiver → List ℕ → Receiver → Type 0 where
    no_call : (r : Receiver) → Calls r [] r
    then_message :
        (r r' : Receiver) (bytes : List ℕ)
        → IsDefined (get_next_message h r).0
        → Calls (get_next_message h r).1 bytes r'
        → Calls r (delivered (get_next_message h r).0 ++ bytes) r'
    then_available :
        (poll : Poll) (r r' : Receiver) (bytes : List ℕ)
        → Calls (message_available h poll r).1 bytes r'
        → Calls r bytes r'

  -- In any sequence of calls of `getNextMessage` and `messageAvailable` in which no call reads past the
  -- end of the buffer, whatever the socket brings, errors and ends of the stream included, and whenever
  -- somebody interrupts: what the calls have handed to their callers, followed by what is in the buffer
  -- or still to come, is what was in the buffer or to come in the beginning.
  pub Calls-pending :
      (r : Receiver) (bytes : List ℕ) (r' : Receiver)
      → Calls r bytes r'
      → bytes ++ pending r' ≡ pending r
  Calls-pending _ _ _ (no_call r) = refl
  Calls-pending _ _ _ (then_message r r' bytes defined calls) =
      append_assoc (delivered (get_next_message h r).0) bytes (pending r')
      ∙ ap (λ (x : List ℕ). delivered (get_next_message h r).0 ++ x)
          (Calls-pending _ bytes r' calls)
      ∙ get_next_message-pending r
  Calls-pending _ _ _ (then_available poll r r' bytes calls) =
      Calls-pending _ bytes r' calls ∙ message_available-pending poll r
