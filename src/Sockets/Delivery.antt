-- ===== src/Sockets/Delivery.antt =====
-- From `ClientSocket::send` on one side to `MessageReceiver::getNextMessage` on the other.
use cpp_owl_common.Prelude.{
  ℕ, ◌^◌, ◌<◌, ◌≡◌, refl, sym, ap, ap₂, ◌∙◌, List, [], ◌∷◌, ◌++◌, append-nil, All, length, map,
  u32_mod, arith,
}
use cpp_owl_common.Netbuffer.Endian.{Host}
use cpp_owl_common.Netbuffer.Push.Laws.{wires}
use cpp_owl_common.Message.Draft.Laws.{frame}
use cpp_owl_common.Receiver.{Event, new_receiver}
use cpp_owl_common.Receiver.Rounds.{bytes_of, AreQuiet}
use cpp_owl_common.Receiver.Framing.{Receives, get_next_message-Receives}
use cpp_owl_common.Sockets.{ClientSocket, Call, Run, returned, Round, send_buffer}
use cpp_owl_common.Sockets.Stream.{taken, taken-append, has_returned, AreHonest, send_buffer-Sends}

-- Calls of `send` for these buffers, one after the other on a socket, that all return, and the calls
-- of the system that they make.
pub data Sent : List (List ℕ) → ClientSocket → List Call → Type 0 where
  nothing : (socket : ClientSocket) → Sent [] socket []
  one_more :
      (rounds : List Round) (buff : List ℕ) (buffs : List (List ℕ)) (socket next : ClientSocket)
      (calls more : List Call)
      → AreHonest (length buff) rounds
      → send_buffer rounds buff socket ≡ (returned tt, next, calls)
      → Sent buffs next more
      → Sent (buff ∷ buffs) socket (calls ++ more)

-- The buffers one behind the other.
abbrev joined : List (List ℕ) → List ℕ
joined [] = []
joined (buff ∷ buffs) = buff ++ joined buffs

joined-map : (bodies : List (List ℕ)) → joined (map frame bodies) ≡ wires frame bodies
joined-map [] = refl
joined-map (body ∷ bodies) = ap (λ (x : List ℕ). frame body ++ x) (joined-map bodies)

AreShort : List (List ℕ) → Type 0
AreShort buffs = All (λ buff. length buff < 2 ^ 31) buffs

AreShort-map :
    (bodies : List (List ℕ))
    → All (λ body. length (frame body) < 2 ^ 31) bodies
    → AreShort (map frame bodies)
unfolding AreShort
AreShort-map [] fits = tt
AreShort-map (body ∷ bodies) (fit, fits) = (fit, AreShort-map bodies fits)

AreShort-frames :
    (bodies : List (List ℕ))
    → All (λ body. length (frame body) < 2 ^ 31) bodies
    → All (λ body. length (frame body) < u32_mod) bodies
AreShort-frames [] fits = tt
AreShort-frames (body ∷ bodies) (fit, fits) = (omega (arith, fit), AreShort-frames bodies fits)

-- A call that returns took its buffer whole.
pub taken-returned :
    (rounds : List Round) (buff : List ℕ) (socket next : ClientSocket) (calls : List Call)
    → length buff < 2 ^ 31
    → AreHonest (length buff) rounds
    → send_buffer rounds buff socket ≡ (returned tt, next, calls)
    → taken calls ≡ buff
taken-returned rounds buff socket next calls fit honest e =
    let sends = send_buffer-Sends rounds buff socket fit honest in
    sym (append-nil (taken calls))
    ∙ ap (λ (x : List ℕ). taken calls ++ x)
        (sym (sends.all_sent (ap (λ (run : Run (Unit {0})). has_returned run.0) e)))
    ∙ ap (λ (run : Run (Unit {0})). taken run.2 ++ sends.unsent) (sym e)
    ∙ sends.in_order

-- The system took the buffers whole, one behind the other.
taken-Sent :
    (buffs : List (List ℕ)) (socket : ClientSocket) (calls : List Call)
    → Sent buffs socket calls
    → AreShort buffs
    → taken calls ≡ joined buffs
unfolding AreShort
taken-Sent _ _ _ (nothing socket) fits = refl
taken-Sent _ _ _ (one_more rounds buff buffs socket next calls more honest e sent) (fit, fits) =
    taken-append calls more
    ∙ ap₂ (λ (x y : List ℕ). x ++ y) (taken-returned rounds buff socket next calls fit honest e)
        (taken-Sent buffs next more sent fits)

-- Messages sent one after the other, each shorter than 2 ^ 31 bytes, in calls of `send` that all
-- return, arrive: if no call of the system takes more bytes than it is given, and the stream, however
-- it is cut into chunks, carries exactly the bytes that the system took from the sender, with no error
-- and no end and nobody interrupting, then successive calls of `getNextMessage` of a new receiver
-- return exactly those messages in their order.
pub send-Receives :
    (h : Host) (bodies : List (List ℕ)) (socket : ClientSocket) (calls : List Call)
    (events : List Event)
    → All (λ body. length (frame body) < 2 ^ 31) bodies
    → Sent (map frame bodies) socket calls
    → AreQuiet events
    → bytes_of events ≡ taken calls
    → Receives h (new_receiver events []) (map frame bodies)
unfolding new_receiver
send-Receives h bodies socket calls events fits sent quiet e =
    get_next_message-Receives h bodies (new_receiver events []) [] (quiet, refl)
      (e
        ∙ taken-Sent (map frame bodies) socket calls sent (AreShort-map bodies fits)
        ∙ joined-map bodies
        ∙ sym (append-nil (wires frame bodies)))
      (AreShort-frames bodies fits)
