-- ===== src/Receiver/Starved.antt =====
-- `getNextMessage` when the stream ends inside a message.
use cpp_owl_common.Prelude.{
  ℕ, ◌<◌, ◌≤◌, ◌≡◌, refl, sym, ap, ◌∙◌, List, [], ◌∷◌, ◌++◌, append_assoc, append-nil, true, length,
  length-append, drop, u32_mod, arith,
}
use cpp_owl_common.Netbuffer.Endian.{Host}
use cpp_owl_common.Message.Draft.Laws.{frame}
use cpp_owl_common.Receiver.{
  Event, chunk, again, broken, closed, Outcome, thrown, blocked, receive_error, connection_closed,
  Receiver, read_flag, piece_length, needs_more, receive_loop, after_loop, get_next_message,
}
use cpp_owl_common.Receiver.Rounds.{
  bytes_of, AreQuiet, quiet, chunk_round, again_round, goes_on, length_known,
}

-- What comes behind the last bytes: nothing, the end of the stream, or an error.
pub data Ending : Type 0 where
  silence hang_up : Ending
  failure : ℕ → Ending

abbrev events_of : Ending → List Event
events_of silence = []
events_of hang_up = closed ∷ []
events_of (failure errno) = broken errno ∷ []

-- The call waits for ever, or throws.
abbrev outcome_of : {A : Type 0} → Ending → Outcome A
outcome_of silence = blocked
outcome_of hang_up = thrown connection_closed
outcome_of (failure errno) = thrown (receive_error errno)

last_round :
    (h : Host) (piece : ℕ) (buff raw : List ℕ) (old : List Event) (end : Ending)
    → needs_more piece buff ≡ true
    → receive_loop h piece (events_of end) (quiet buff raw old)
      ≡ (outcome_of end, quiet buff raw [])
unfolding receive_loop read_flag
last_round h piece buff raw old silence e = rw (e, receive_loop)
last_round h piece buff raw old hang_up e = rw (e, receive_loop)
last_round h piece buff raw old (failure errno) e = rw (e, receive_loop)

module _ (h : Host) (body missing : List ℕ) (fits : length (frame body) < u32_mod)
    (some_missing : 0 < length missing) (end : Ending) where
  -- The loop has ended without a message, with all the bytes in the buffer.
  record Starved (piece : ℕ) (events : List Event) (r : Receiver) (bytes : List ℕ) : Type 0 where
    raw : List ℕ
    ends : receive_loop h piece (events ++ events_of end) r ≡ (outcome_of end, quiet bytes raw [])

  -- Too few bytes for the message.
  too_few :
      (buff more : List ℕ)
      → buff ++ (more ++ missing) ≡ frame body ++ []
      → length buff < length (frame body)
  too_few buff more e = omega (
    arith,
    ap length e,
    length-append buff (more ++ missing),
    length-append more missing,
    length-append (frame body) [],
  )

  loop-Starved :
      (events : List Event) (piece : ℕ) (buff raw : List ℕ) (old : List Event)
      → AreQuiet events
      → buff ++ (bytes_of events ++ missing) ≡ frame body ++ []
      → (4 ≤ length buff → piece ≡ length (frame body))
      → Starved piece events (quiet buff raw old) (buff ++ bytes_of events)
  loop-Starved [] piece buff raw old q e known = record {
    raw = raw;
    ends =
        last_round h piece buff raw old end
          (goes_on h body [] fits piece buff known (too_few buff [] e))
        ∙ ap (λ (x : List ℕ). (outcome_of end, quiet x raw [])) (sym (append-nil buff));
  }
  loop-Starved (chunk b bs ∷ events) piece buff raw old q e known =
      let buff' = buff ++ (b ∷ bs) in
      let e' : buff' ++ (bytes_of events ++ missing) ≡ frame body ++ [] =
        append_assoc buff (b ∷ bs) (bytes_of events ++ missing)
        ∙ ap (λ (x : List ℕ). buff ++ x) (sym (append_assoc (b ∷ bs) (bytes_of events) missing))
        ∙ e in
      let raw' = (b ∷ bs) ++ drop (length (b ∷ bs)) raw in
      let next =
        loop-Starved events (piece_length h piece buff') buff' raw' old q e'
          (length_known h body [] fits piece buff' (bytes_of events ++ missing) e') in
      record {
        raw = next.raw;
        ends =
            chunk_round h piece b bs (events ++ events_of end) old buff raw (
              goes_on h body [] fits piece buff known
                (too_few buff ((b ∷ bs) ++ bytes_of events) e))
            ∙ next.ends
            ∙ ap (λ (x : List ℕ). (outcome_of end, quiet x next.raw []))
                (append_assoc buff (b ∷ bs) (bytes_of events));
      }
  loop-Starved (again ∷ events) piece buff raw old q e known =
      let next = loop-Starved events piece buff raw old q e known in
      record {
        raw = next.raw;
        ends =
            again_round h piece (events ++ events_of end) old buff raw
              (goes_on h body [] fits piece buff known (too_few buff (bytes_of events) e))
            ∙ next.ends;
      }
  loop-Starved (broken n ∷ events) piece buff raw old q e known = absurd q
  loop-Starved (closed ∷ events) piece buff raw old q e known = absurd q

-- The call of `getNextMessage` ends without a message, and every byte that came is in the buffer.
pub record GivesUp (h : Host) (r : Receiver) (end : Ending) (bytes : List ℕ) : Type 0 where
  pub raw : List ℕ
  pub result : get_next_message h r ≡ (outcome_of end, quiet bytes raw [])

after_ending :
    (h : Host) (r : Receiver) (end : Ending)
    → after_loop h (outcome_of end, r) ≡ (outcome_of end, r)
unfolding after_loop
after_ending h r silence = refl
after_ending h r hang_up = refl
after_ending h r (failure errno) = refl

-- When the stream ends inside a message, however the bytes before are cut into chunks,
-- `getNextMessage` returns no part of the message: it goes on waiting if nothing more happens, throws
-- that the connection was closed if the peer closed it, and throws the error if there was one; the
-- bytes that came are all in the buffer. The message is shorter than 2 ^ 32 bytes, and nobody
-- interrupts.
pub get_next_message-GivesUp :
    (h : Host) (buff raw body missing : List ℕ) (events : List Event) (end : Ending)
    → AreQuiet events
    → buff ++ (bytes_of events ++ missing) ≡ frame body
    → 0 < length missing
    → length (frame body) < u32_mod
    → GivesUp h (quiet buff raw (events ++ events_of end)) end (buff ++ bytes_of events)
unfolding get_next_message
get_next_message-GivesUp h buff raw body missing events end q e some_missing fits =
    let e' = e ∙ sym (append-nil (frame body)) in
    let s =
      loop-Starved h body missing fits some_missing end events (piece_length h 0 buff) buff raw
        (events ++ events_of end) q e'
        (length_known h body [] fits 0 buff (bytes_of events ++ missing) e') in
    record { raw = s.raw; result = ap (after_loop h) s.ends ∙ after_ending h _ end }
