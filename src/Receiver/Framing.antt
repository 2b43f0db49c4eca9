-- ===== src/Receiver/Framing.antt =====
-- `getNextMessage` returns whole messages, however the stream is cut into chunks.
use cpp_owl_common.Prelude.{
  ℕ, ◌<◌, ◌≤◌, ◌≡◌, refl, sym, ap, subst, ◌∙◌, List, [], ◌∷◌, ◌++◌, false, append_assoc, length,
  take, drop, take-append, take-append_long, drop-append_long, ltb, if◌then◌else◌, u32_mod, arith,
  inl, inr, drop-append, drop_all, Bool-cases, All, map,
}
use cpp_owl_common.Netbuffer.Endian.{Host}
use cpp_owl_common.Message.Draft.Laws.{frame, length-frame}
use cpp_owl_common.Netbuffer.Push.Laws.{wires}
use cpp_owl_common.Receiver.{
  Event, returned, Receiver, read_flag, frame_length, piece_length, receive_loop, cut_message,
  after_loop, get_next_message,
}
use cpp_owl_common.Receiver.Rounds.{
  bytes_of, AreQuiet, pending, IsQuiet, frame_length-frame, quiet, length_known, loop-Filled,
}

-- `getNextMessage` on a stream that begins with a message: it returns the message, and what is in
-- the buffer or still to come afterwards is the rest of the stream.
pub record Delivers (h : Host) (r : Receiver) (message rest : List ℕ) : Type 0 where
  pub next : Receiver
  pub result : get_next_message h r ≡ (returned message, next)
  pub quiet_after : IsQuiet next
  pub pending_after : pending next ≡ rest

-- What is saved for the next call is what is behind the message, if anything is.
pub saved :
    (n : ℕ) (buff : List ℕ) → (if ltb n (length buff) then drop n buff else []) ≡ drop n buff
saved n buff = elim (Bool-cases (ltb n (length buff))) [
  | inl more ↦ rw more
  | inr none_left ↦ rw none_left (sym (drop_all n buff (ground arith)))
]

-- A message that is in the buffer is cut off.
pub cut-whole :
    (h : Host) (r : Receiver) (k : ℕ)
    → frame_length h r.previous_unfinished ≡ k
    → k ≤ length r.previous_unfinished
    → cut_message h r ≡ (
      returned (take k r.previous_unfinished),
      record r {
        previous_unfinished =
            if ltb k (length r.previous_unfinished) then drop k r.previous_unfinished else [];
      },
    )
unfolding cut_message
cut-whole h r k e whole =
    let enough : ltb (length r.previous_unfinished) k ≡ false = ground arith in rw (e, enough) refl

cut-frame :
    (h : Host) (body rest buff raw : List ℕ) (left : List Event)
    → length (frame body) < u32_mod
    → AreQuiet left
    → buff ++ bytes_of left ≡ frame body ++ rest
    → length (frame body) ≤ length buff
    → (r : Receiver)
    → receive_loop h (piece_length h 0 r.previous_unfinished) r.events r
      ≡ (returned tt, quiet buff raw left)
    → Delivers h r (frame body) rest
unfolding get_next_message after_loop read_flag
cut-frame h body rest buff raw left fits q e whole r ends =
    let n = length (frame body) in
    let piece : frame_length h buff ≡ n =
      frame_length-frame h body buff (bytes_of left) rest fits (omega (arith, length-frame body))
        e in
    let packet : take n buff ≡ frame body =
      sym (take-append_long n buff (bytes_of left) whole)
      ∙ ap (take n) e
      ∙ take-append (frame body) rest in
    let tail : drop n buff ++ bytes_of left ≡ rest =
      sym (drop-append_long n buff (bytes_of left) whole)
      ∙ ap (drop n) e
      ∙ drop-append (frame body) rest in
    record {
      next = quiet (if ltb n (length buff) then drop n buff else []) raw left;
      result =
          ap (after_loop h) ends
          ∙ cut-whole h (quiet buff raw left) n piece whole
          ∙ ap
              (λ (x : List ℕ).
                (returned x, quiet (if ltb n (length buff) then drop n buff else []) raw left))
              packet;
      quiet_after = (q, refl);
      pending_after = ap (λ (x : List ℕ). x ++ bytes_of left) (saved n buff) ∙ tail;
    }

-- On a stream that begins with a whole message, with no error and no end of the stream and with
-- nobody interrupting, however it is cut into chunks and whatever part of it is in the buffer,
-- `getNextMessage` returns that message and keeps the rest of the stream, if the message is shorter
-- than 2 ^ 32 bytes.
pub get_next_message-Delivers :
    (h : Host) (r : Receiver) (body rest : List ℕ)
    → IsQuiet r
    → pending r ≡ frame body ++ rest
    → length (frame body) < u32_mod
    → Delivers h r (frame body) rest
get_next_message-Delivers h r body rest (q, no_flags) e fits =
    let same : r ≡ quiet r.previous_unfinished r.raw_messages r.events =
      λ i. record r { flags = no_flags i } in
    let buff = r.previous_unfinished in
    let filled =
      loop-Filled h body rest fits r.events (piece_length h 0 buff) buff r.raw_messages r.events q e
        (length_known h body rest fits 0 buff (bytes_of r.events) e) in
    subst (λ x. Delivers h x (frame body) rest) (sym same)
      (cut-frame h body rest filled.buff filled.raw filled.left fits filled.still_quiet
        filled.same_bytes filled.whole (quiet buff r.raw_messages r.events) filled.ends)

-- The next calls of `getNextMessage` return these messages, one after the other.
abbrev pub Receives : Host → Receiver → List (List ℕ) → Type 0
Receives h r [] = Unit
Receives h r (m ∷ ms) =
    (r' : Receiver) × (get_next_message h r ≡ (returned m, r')) × Receives h r' ms

-- On a stream of messages, each shorter than 2 ^ 32 bytes, with no error and no end of the stream
-- and with nobody interrupting, successive calls of `getNextMessage` return exactly those messages
-- in their order, however the stream is cut into chunks and whatever part of it is in the buffer to
-- begin with.
pub get_next_message-Receives :
    (h : Host) (bodies : List (List ℕ)) (r : Receiver) (rest : List ℕ)
    → IsQuiet r
    → pending r ≡ wires frame bodies ++ rest
    → All (λ body. length (frame body) < u32_mod) bodies
    → Receives h r (map frame bodies)
get_next_message-Receives h [] r rest q e fits = tt
get_next_message-Receives h (body ∷ bodies) r rest q e (fit, fits) =
    let d =
      get_next_message-Delivers h r body (wires frame bodies ++ rest) q
        (e ∙ append_assoc (frame body) (wires frame bodies) rest) fit in
    (
      d.next,
      d.result,
      get_next_message-Receives h bodies d.next rest d.quiet_after d.pending_after fits,
    )
