-- ===== src/WorldModel/Client/Ticket/RoundTrip.antt =====
-- The wire form of the fixed messages, and that ticket numbers come back.
use cpp_owl_common.Prelude.{
  ℕ, suc, ◌<◌, ◌≡◌, sym, ap, ◌∙◌, List, [], ◌∷◌, ◌++◌, arith, append_assoc,
}
use cpp_owl_common.Netbuffer.Endian.{Host, big_bytes}
use cpp_owl_common.Netbuffer.Endian.Laws.{length-big_bytes}
use cpp_owl_common.Netbuffer.Primitive.{uint8, uint32}
use cpp_owl_common.Netbuffer.Primitive.Laws.{wire8, wire32}
use cpp_owl_common.Netbuffer.Push.{push_back_val}
use cpp_owl_common.Netbuffer.Push.Laws.{push_back_val-Appends}
use cpp_owl_common.Netbuffer.Reader.{BuffReader, read_primitive}
use cpp_owl_common.Netbuffer.Reader.Reads.{ReadsAll-end}
use cpp_owl_common.Netbuffer.Reader.Sequences.{Reads-uint32}
use cpp_owl_common.Message.Draft.{empty, push_total, uncounted, ◌>>◌}
use cpp_owl_common.Message.Draft.Laws.{frame, length-frame, octet}
use cpp_owl_common.Message.Decode.{decode}
use cpp_owl_common.Message.Decode.Laws.{decode-own}
use cpp_owl_common.WorldModel.Types.{IsU32}
use cpp_owl_common.WorldModel.Client.Ticket.{
  make_request_complete, make_cancel_request, decode_request_complete, decode_cancel_request,
}

ticket_message :
    (h : Host) (id ticket : ℕ)
    → id < 256
    → ((do
      push_total h
      uncounted (push_back_val h uint8 id)
      uncounted (push_back_val h uint32 ticket))
        (empty 5)).buff
      ≡ frame (id ∷ big_bytes 4 ticket)
unfolding push_total uncounted ◌>>◌ frame
ticket_message h id ticket b =
    let first = λ (p : List ℕ × ℕ). p.0 in
    ap (λ (x : List ℕ). (push_back_val h uint32 ticket (push_back_val h uint8 id x).0).0)
      (ap first (push_back_val-Appends h wire32 5 (omega arith) []))
    ∙ ap (λ (x : List ℕ). (push_back_val h uint32 ticket x).0)
        (ap first (push_back_val-Appends h wire8 id (omega arith) (big_bytes 4 5))
          ∙ ap (λ (x : List ℕ). big_bytes 4 5 ++ x) (octet id b))
    ∙ ap first (push_back_val-Appends h wire32 ticket (omega arith) (big_bytes 4 5 ++ (id ∷ [])))
    ∙ append_assoc (big_bytes 4 5) (id ∷ []) (big_bytes 4 ticket)
    ∙ ap (λ (n : ℕ). big_bytes 4 n ++ (id ∷ big_bytes 4 ticket))
        (ap suc (sym (length-big_bytes 4 ticket)))

ticket_back :
    (h : Host) (id ticket : ℕ)
    → id < 256
    → IsU32 ticket
    → (decode h id (read_primitive h uint32) 0 (frame (id ∷ big_bytes 4 ticket))).0 ≡ ticket
ticket_back h id ticket bi bt =
    ap (λ (p : ℕ × BuffReader). p.0)
      (decode-own h id 0 bi
        (omega (arith, length-frame (id ∷ big_bytes 4 ticket), length-big_bytes 4 ticket))
        (ReadsAll-end h (Reads-uint32 h ticket bt)))

pub make_request_complete-frame :
    (h : Host) (ticket : ℕ) → make_request_complete h ticket ≡ frame (6 ∷ big_bytes 4 ticket)
unfolding make_request_complete
make_request_complete-frame h ticket = ticket_message h 6 ticket (omega arith)

make_cancel_request-frame :
    (h : Host) (ticket : ℕ) → make_cancel_request h ticket ≡ frame (7 ∷ big_bytes 4 ticket)
unfolding make_cancel_request
make_cancel_request-frame h ticket = ticket_message h 7 ticket (omega arith)

-- The ticket of a request complete message, and that of a cancel request, made on any host and
-- decoded on any host, comes back, if it fits 32 bits.
pub decode-make_ticket :
    (h h' : Host) (ticket : ℕ)
    → IsU32 ticket
    → (decode_request_complete h' (make_request_complete h ticket) ≡ ticket)
      × (decode_cancel_request h' (make_cancel_request h ticket) ≡ ticket)
unfolding decode_request_complete decode_cancel_request
decode-make_ticket h h' ticket b = (
  ap (λ (x : List ℕ). (decode h' 6 (read_primitive h' uint32) 0 x).0)
        (make_request_complete-frame h ticket)
      ∙ ticket_back h' 6 ticket (omega arith) b,
  ap (λ (x : List ℕ). (decode h' 7 (read_primitive h' uint32) 0 x).0)
        (make_cancel_request-frame h ticket)
      ∙ ticket_back h' 7 ticket (omega arith) b,
)
