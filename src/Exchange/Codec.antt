-- ===== src/Exchange/Codec.antt =====
-- Messages of any kinds on one connection: an interface for a function that makes messages with the
-- function that decodes them, and what arrives of a sequence of messages that `ClientSocket::send`
-- sends and `MessageReceiver::getNextMessage` returns.
use cpp_owl_common.Prelude.{
  ℕ, ◌^◌, ◌<◌, ◌≡◌, refl, sym, ap₂, subst, List, [], ◌∷◌, All, length, map,
}
use cpp_owl_common.Netbuffer.Endian.{Host}
use cpp_owl_common.Message.Draft.Laws.{frame}
use cpp_owl_common.Receiver.{Event, returned, Receiver, new_receiver, get_next_message}
use cpp_owl_common.Receiver.Rounds.{bytes_of, AreQuiet}
use cpp_owl_common.Receiver.Framing.{Receives}
use cpp_owl_common.Sockets.{ClientSocket, Call}
use cpp_owl_common.Sockets.Stream.{taken}
use cpp_owl_common.Sockets.Delivery.{Sent, send-Receives}

-- A kind of message between two hosts: what is made on the first is a frame, and the second decodes
-- it to what it was made of, when that fits and the message is short enough to be sent.
pub record Codec : Type 1 where
  pub Message : Type 0
  pub make : Message → List ℕ
  pub decode : List ℕ → Message
  pub IsMessage : Message → Type 0
  pub body : Message → List ℕ
  pub make-frame : (m : Message) → make m ≡ frame (body m)
  pub decode-make : (m : Message) → IsMessage m → length (make m) < 2 ^ 31 → decode (make m) ≡ m

-- A message and its kind.
abbrev pub Post : Type 1
Post = (c : Codec) × c.Message

abbrev pub made : Post → List ℕ
made (c, m) = c.make m

abbrev pub IsSendable : Post → Type 0
IsSendable (c, m) = c.IsMessage m × (length (c.make m) < 2 ^ 31)

-- The next calls of `getNextMessage` return messages that the decoders of their kinds decode to
-- these.
abbrev pub Arrive : Host → Receiver → List Post → Type 0
Arrive h receiver [] = Unit
Arrive h receiver ((c, m) ∷ posts) =
    (message : List ℕ) × (next : Receiver) × (get_next_message h receiver
      ≡ (returned message, next))
    × (c.decode message ≡ m)
    × Arrive h next posts

abbrev bodies : List Post → List (List ℕ)
bodies [] = []
bodies ((c, m) ∷ posts) = c.body m ∷ bodies posts

made-frames : (posts : List Post) → map made posts ≡ map frame (bodies posts)
made-frames [] = refl
made-frames ((c, m) ∷ posts) =
    ap₂ (λ (x : List ℕ) (xs : List (List ℕ)). x ∷ xs) (c.make-frame m) (made-frames posts)

short_bodies :
    (posts : List Post)
    → All IsSendable posts
    → All (λ body. length (frame body) < 2 ^ 31) (bodies posts)
short_bodies [] ok = tt
short_bodies ((c, m) ∷ posts) ((fits, short), ok) =
    (subst (λ b. length b < 2 ^ 31) (c.make-frame m) short, short_bodies posts ok)

Receives-Arrive :
    (h : Host) (posts : List Post) (receiver : Receiver)
    → All IsSendable posts
    → Receives h receiver (map made posts)
    → Arrive h receiver posts
Receives-Arrive h [] receiver ok received = tt
Receives-Arrive h ((c, m) ∷ posts) receiver ((fits, short), ok) (next, e, received) =
    (c.make m, next, e, c.decode-make m fits short, Receives-Arrive h posts next ok received)

-- Messages of any kinds that are sent one after the other in calls of `send` that all return arrive in
-- their order, each decoded to what it was made of: if each fits its kind and is shorter than 2 ^ 31
-- bytes, no call of the system takes more bytes than it is given, and the stream, however it is cut
-- into chunks, carries exactly the bytes that the system took, with no error and no end and nobody
-- interrupting.
pub posts-Arrive :
    (h : Host) (posts : List Post) (socket : ClientSocket) (calls : List Call) (events : List Event)
    → All IsSendable posts
    → Sent (map made posts) socket calls
    → AreQuiet events
    → bytes_of events ≡ taken calls
    → Arrive h (new_receiver events []) posts
posts-Arrive h posts socket calls events ok sent quiet e =
    Receives-Arrive h posts (new_receiver events []) ok (
      subst (Receives h (new_receiver events [])) (sym (made-frames posts)) (
        send-Receives h (bodies posts) socket calls events (short_bodies posts ok)
          (subst (λ ms. Sent ms socket calls) (made-frames posts) sent) quiet e))
