-- ===== src/Exchange.antt =====
-- Snapshot requests on their way from a client's calls of `client::makeSnapshotRequest` and
-- `ClientSocket::send` to `MessageReceiver::getNextMessage` and `client::decodeSnapshotRequest` of a
-- world model.
pub mod Codec
pub mod Codecs
pub mod Answers
pub mod Reports
pub mod Samples
use cpp_owl_common.Prelude.{ℕ, ◌^◌, ◌<◌, ◌≡◌, refl, ap, subst, List, [], ◌∷◌, All, length, map}
use cpp_owl_common.Netbuffer.Endian.{Host}
use cpp_owl_common.Receiver.{Event, returned, Receiver, new_receiver, get_next_message}
use cpp_owl_common.Receiver.Rounds.{bytes_of, AreQuiet}
use Codec.{Post, made, posts-Arrive}
use Codecs.{snapshot_request_codec}
use cpp_owl_common.Sockets.{ClientSocket, Call}
use cpp_owl_common.Sockets.Stream.{taken}
use cpp_owl_common.Sockets.Delivery.{Sent}
use cpp_owl_common.WorldModel.Types.{GrailTime, IsU32}
use cpp_owl_common.WorldModel.Client.Request.{
  Request, make_snapshot_request, decode_snapshot_request,
}
use cpp_owl_common.WorldModel.Client.Request.RoundTrip.{IsRequest}

-- A request and its ticket whose values fit, in a message that `send` can send.
pub record IsSendable (h : Host) (q : Request × ℕ) : Type 0 where
  pub request_ok : IsRequest q.0
  pub ticket_ok : IsU32 q.1
  pub short : length (make_snapshot_request h q.0 q.1) < 2 ^ 31

-- The messages of the requests.
abbrev pub messages : Host → List (Request × ℕ) → List (List ℕ)
messages h [] = []
messages h ((r, ticket) ∷ qs) = make_snapshot_request h r ticket ∷ messages h qs

-- The next calls of `getNextMessage` return messages that are decoded to these requests and tickets.
-- `s` and `p` are what the memory of the decoder's result holds.
abbrev pub Arrive : Host → GrailTime → GrailTime → Receiver → List (Request × ℕ) → Type 0
Arrive h s p receiver [] = Unit
Arrive h s p receiver (q ∷ qs) =
    (message : List ℕ) × (next : Receiver) × (get_next_message h receiver
      ≡ (returned message, next))
    × (decode_snapshot_request h s p message ≡ q)
    × Arrive h s p next qs

module _ (h h' : Host) (s p : GrailTime) where
  abbrev post : Request × ℕ → Post
  post q = (snapshot_request_codec h h' s p, q)

  messages-made : (qs : List (Request × ℕ)) → messages h qs ≡ map made (map post qs)
  messages-made [] = refl
  messages-made ((r, ticket) ∷ qs) =
      ap (λ (xs : List (List ℕ)). make_snapshot_request h r ticket ∷ xs) (messages-made qs)

  sendable : (qs : List (Request × ℕ)) → All (IsSendable h) qs → All Codec.IsSendable (map post qs)
  sendable [] ok = tt
  sendable (q ∷ qs) (fits, ok) = (((fits.request_ok, fits.ticket_ok), fits.short), sendable qs ok)

  as_requests :
      (qs : List (Request × ℕ)) (receiver : Receiver)
      → Codec.Arrive h' receiver (map post qs)
      → Arrive h' s p receiver qs
  as_requests [] receiver arrived = tt
  as_requests (q ∷ qs) receiver (message, next, e, d, arrived) =
      (message, next, e, d, as_requests qs next arrived)

-- Snapshot requests that a client makes on any host, whose values fit their types and whose messages
-- are shorter than 2 ^ 31 bytes, and sends one after the other in calls of `send` that all return,
-- are what a world model on any host gets, in their order: if no call of the system takes more bytes
-- than it is given, and the stream, however it is cut into chunks, carries exactly the bytes that the
-- system took, with no error and no end and nobody interrupting, then successive calls of
-- `getNextMessage` of a new receiver return messages that are decoded to these requests and tickets.
pub requests-Arrive :
    (h h' : Host) (s p : GrailTime) (qs : List (Request × ℕ)) (socket : ClientSocket)
    (calls : List Call) (events : List Event)
    → All (IsSendable h) qs
    → Sent (messages h qs) socket calls
    → AreQuiet events
    → bytes_of events ≡ taken calls
    → Arrive h' s p (new_receiver events []) qs
requests-Arrive h h' s p qs socket calls events ok sent quiet e =
    as_requests h h' s p qs (new_receiver events []) (
      posts-Arrive h' (map (post h h' s p) qs) socket calls events (sendable h h' s p qs ok)
        (subst (λ ms. Sent ms socket calls) (messages-made h h' s p qs) sent) quiet e)
