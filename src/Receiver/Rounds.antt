-- ===== src/Receiver/Rounds.antt =====
-- The loop of `getNextMessage`, round by round: it ends with a whole message in the buffer.
use cpp_owl_common.Prelude.{
  ℕ, ◌+◌, ◌-◌, ◌<◌, ◌≤◌, ◌≡◌, sym, ap, ◌∙◌, List, [], ◌∷◌, ◌++◌, append_assoc, true, false, length,
  length-append, take, drop, take-append, take-append_long, take-append_eq, ltb, u32_mod, arith,
  lt→ltb, le→leb,
}
use native.Mathlib.Decide.{dec_lt}
use cpp_owl_common.Netbuffer.Endian.{Host, big_bytes}
use cpp_owl_common.Netbuffer.Endian.Laws.{length-big_bytes}
use cpp_owl_common.Netbuffer.Primitive.{uint32}
use cpp_owl_common.Netbuffer.Primitive.Laws.{wire32}
use cpp_owl_common.Netbuffer.Reader.{read_primitive_at}
use cpp_owl_common.Message.Draft.Laws.{frame, length-frame}
use cpp_owl_common.Receiver.{
  Event, chunk, again, broken, closed, returned, Receiver, read_flag, frame_length, piece_length,
  needs_more, append_raw, receive_loop,
}

-- The bytes that the events bring, and that they are chunks and EAGAIN only.
abbrev pub bytes_of : List Event → List ℕ
bytes_of [] = []
bytes_of (chunk b bs ∷ events) = (b ∷ bs) ++ bytes_of events
bytes_of (_ ∷ events) = bytes_of events

abbrev pub AreQuiet : List Event → Type 0
AreQuiet [] = Unit
AreQuiet (chunk b bs ∷ events) = AreQuiet events
AreQuiet (again ∷ events) = AreQuiet events
AreQuiet (_ ∷ events) = ⊥

-- What is in the buffer or still to come.
abbrev pub pending : Receiver → List ℕ
pending r = r.previous_unfinished ++ bytes_of r.events

-- The socket works and nobody interrupts.
abbrev pub IsQuiet : Receiver → Type 0
IsQuiet r = AreQuiet r.events × (r.flags ≡ [])

-- The length field of a message whose first four bytes have come.
pub read_length :
    (h : Host) (n : ℕ) (buff more rest : List ℕ)
    → n < u32_mod
    → 4 ≤ length buff
    → buff ++ more ≡ big_bytes 4 n ++ rest
    → read_primitive_at h uint32 buff 0 ≡ n
unfolding read_primitive_at
read_length h n buff more rest b long e =
    let front : take 4 buff ≡ big_bytes 4 n =
      sym (take-append_long 4 buff more long)
      ∙ ap (take 4) e
      ∙ take-append_eq (big_bytes 4 n) rest (length-big_bytes 4 n) in
    let there : ltb (0 + (4 - 1)) (length buff) ≡ true = lt→ltb _ _ (omega arith) in
    rw (there, front) (wire32.from_network h n (omega arith))

pub frame_length-frame :
    (h : Host) (body buff more rest : List ℕ)
    → length (frame body) < u32_mod
    → 4 ≤ length buff
    → buff ++ more ≡ frame body ++ rest
    → frame_length h buff ≡ length (frame body)
unfolding frame_length frame
frame_length-frame h body buff more rest b long e =
    let n = length body in
    let size : length (big_bytes 4 n ++ body) ≡ n + 4 = length-frame body in
    omega (
      arith,
      size,
      read_length h n buff more (body ++ rest) (omega (arith, size)) long
          (e ∙ append_assoc (big_bytes 4 n) body rest),
    )

-- The loop goes on as long as the message is not complete.
needs_more-frame :
    (piece n : ℕ) (buff : List ℕ)
    → 4 ≤ n
    → (4 ≤ length buff → piece ≡ n)
    → needs_more piece buff ≡ ltb (length buff) n
unfolding needs_more
needs_more-frame piece n buff four known = ground arith

-- A receiver that nobody interrupts.
abbrev pub quiet : List ℕ → List ℕ → List Event → Receiver
quiet buff raw events = record {
  previous_unfinished = buff;
  raw_messages = raw;
  events = events;
  flags = [];
}

pub chunk_round :
    (h : Host) (piece b : ℕ) (bs : List ℕ) (events old : List Event) (buff raw : List ℕ)
    → needs_more piece buff ≡ true
    → receive_loop h piece (chunk b bs ∷ events) (quiet buff raw old)
      ≡ receive_loop h
          (piece_length h piece (buff ++ (b ∷ bs)))
          events
          (quiet (buff ++ (b ∷ bs)) ((b ∷ bs) ++ drop (length (b ∷ bs)) raw) old)
unfolding receive_loop append_raw read_flag
chunk_round h piece b bs events old buff raw e =
    let raw' = (b ∷ bs) ++ drop (length (b ∷ bs)) raw in
    rw (e, receive_loop)
      (ap
        (λ (x : List ℕ).
          receive_loop h (piece_length h piece (buff ++ x)) events (quiet (buff ++ x) raw' old))
        (take-append (b ∷ bs) (drop (length (b ∷ bs)) raw)))

pub again_round :
    (h : Host) (piece : ℕ) (events old : List Event) (buff raw : List ℕ)
    → needs_more piece buff ≡ true
    → receive_loop h piece (again ∷ events) (quiet buff raw old)
      ≡ receive_loop h piece events (quiet buff raw old)
unfolding receive_loop read_flag
again_round h piece events old buff raw e = rw (e, receive_loop)

-- With a whole message in the buffer the loop ends at once.
pub full_round :
    (h : Host) (piece : ℕ) (events old : List Event) (buff raw : List ℕ)
    → needs_more piece buff ≡ false
    → receive_loop h piece events (quiet buff raw old) ≡ (returned tt, quiet buff raw events)
unfolding receive_loop read_flag
full_round h piece [] old buff raw e = rw (e, receive_loop)
full_round h piece (chunk b bs ∷ events) old buff raw e = rw (e, receive_loop)
full_round h piece (again ∷ events) old buff raw e = rw (e, receive_loop)
full_round h piece (broken n ∷ events) old buff raw e = rw (e, receive_loop)
full_round h piece (closed ∷ events) old buff raw e = rw (e, receive_loop)

module _ (h : Host) (body rest : List ℕ) (fits : length (frame body) < u32_mod) where
  four : 4 ≤ length (frame body)
  four = omega (arith, length-frame body)

  -- The loop has ended with a whole message in the buffer, and no byte lost.
  pub record Filled (piece : ℕ) (events : List Event) (r : Receiver) : Type 0 where
    pub buff : List ℕ
    pub raw : List ℕ
    pub left : List Event
    pub ends : receive_loop h piece events r ≡ (returned tt, quiet buff raw left)
    pub still_quiet : AreQuiet left
    pub same_bytes : buff ++ bytes_of left ≡ frame body ++ rest
    pub whole : length (frame body) ≤ length buff

  stops :
      (events : List Event) (piece : ℕ) (buff raw : List ℕ) (old : List Event)
      → AreQuiet events
      → buff ++ bytes_of events ≡ frame body ++ rest
      → (4 ≤ length buff → piece ≡ length (frame body))
      → length (frame body) ≤ length buff
      → Filled piece events (quiet buff raw old)
  stops events piece buff raw old q e known enough = record {
    buff = buff;
    raw = raw;
    left = events;
    ends =
        full_round h piece events old buff raw
          (needs_more-frame piece _ buff four known ∙ ground arith);
    still_quiet = q;
    same_bytes = e;
    whole = enough;
  }

  pub goes_on :
      (piece : ℕ) (buff : List ℕ)
      → (4 ≤ length buff → piece ≡ length (frame body))
      → length buff < length (frame body)
      → needs_more piece buff ≡ true
  goes_on piece buff known few = needs_more-frame piece _ buff four known ∙ lt→ltb _ _ few

  -- After a chunk the length is known once four bytes are there.
  pub length_known :
      (piece : ℕ) (buff more : List ℕ)
      → buff ++ more ≡ frame body ++ rest
      → 4 ≤ length buff
      → piece_length h piece buff ≡ length (frame body)
  unfolding piece_length
  length_known piece buff more e long =
      rw (le→leb 4 (length buff) long) (frame_length-frame h body buff more rest fits long e)

  moved_on :
      (piece piece' : ℕ) (events events' : List Event) (r r' : Receiver)
      → receive_loop h piece events r ≡ receive_loop h piece' events' r'
      → Filled piece' events' r'
      → Filled piece events r
  moved_on piece piece' events events' r r' e f = record {
    buff = f.buff;
    raw = f.raw;
    left = f.left;
    ends = e ∙ f.ends;
    still_quiet = f.still_quiet;
    same_bytes = f.same_bytes;
    whole = f.whole;
  }

  pub loop-Filled :
      (events : List Event) (piece : ℕ) (buff raw : List ℕ) (old : List Event)
      → AreQuiet events
      → buff ++ bytes_of events ≡ frame body ++ rest
      → (4 ≤ length buff → piece ≡ length (frame body))
      → Filled piece events (quiet buff raw old)
  loop-Filled [] piece buff raw old q e known =
      stops [] piece buff raw old q e known
        (omega (arith, ap length e, length-append buff [], length-append (frame body) rest))
  loop-Filled (chunk b bs ∷ events) piece buff raw old q e known =
      elim (dec_lt (length buff) (length (frame body))) [
        | yes few ↦
            let buff' = buff ++ (b ∷ bs) in
            let e' : buff' ++ bytes_of events ≡ frame body ++ rest =
              append_assoc buff (b ∷ bs) (bytes_of events) ∙ e in
            moved_on piece _ _ events _ _
              (chunk_round h piece b bs events old buff raw (goes_on piece buff known few))
              (loop-Filled events (piece_length h piece buff') buff' _ old q e'
                (length_known piece buff' (bytes_of events) e'))
        | no enough ↦ stops (chunk b bs ∷ events) piece buff raw old q e known (omega arith)
      ]
  loop-Filled (again ∷ events) piece buff raw old q e known =
      elim (dec_lt (length buff) (length (frame body))) [
        | yes few ↦
            moved_on piece _ _ events _ _
              (again_round h piece events old buff raw (goes_on piece buff known few))
              (loop-Filled events piece buff raw old q e known)
        | no enough ↦ stops (again ∷ events) piece buff raw old q e known (omega arith)
      ]
  loop-Filled (broken n ∷ events) piece buff raw old q e known = absurd q
  loop-Filled (closed ∷ events) piece buff raw old q e known = absurd q
