-- ===== src/WorldModel/Client/Ticket.antt =====
-- The messages of fixed size: keep alive, request complete and cancel request.
pub mod RoundTrip
use cpp_owl_common.Prelude.{ℕ}
use cpp_owl_common.Netbuffer.Endian.{Host}
use cpp_owl_common.Netbuffer.Primitive.{uint8, uint32}
use cpp_owl_common.Netbuffer.Push.{Buffer, push_back_val}
use cpp_owl_common.Netbuffer.Reader.{read_primitive}
use cpp_owl_common.Message.Draft.{◌>>◌, empty, counted, uncounted, push_total}
use cpp_owl_common.Message.Decode.{decode}
use cpp_owl_common.WorldModel.Client.Id.{id_of, keep_alive, request_complete, cancel_request}

module _ (h : Host) where
  unfoldable pub make_keep_alive : Buffer
  make_keep_alive =
      ((do push_total h; counted (push_back_val h uint8 (id_of keep_alive))) (empty 1)).buff

  unfoldable pub make_request_complete : ℕ → Buffer
  make_request_complete ticket_number =
      ((do
        push_total h
        uncounted (push_back_val h uint8 (id_of request_complete))
        uncounted (push_back_val h uint32 ticket_number))
        (empty 5)).buff

  unfoldable pub make_cancel_request : ℕ → Buffer
  make_cancel_request ticket_number =
      ((do
        push_total h
        uncounted (push_back_val h uint8 (id_of cancel_request))
        uncounted (push_back_val h uint32 ticket_number))
        (empty 5)).buff

  -- Zero on failure; a ticket number that is not all there reads as zero too.
  unfoldable pub decode_request_complete : Buffer → ℕ
  decode_request_complete buff =
      (decode h (id_of request_complete) (read_primitive h uint32) 0 buff).0

  unfoldable pub decode_cancel_request : Buffer → ℕ
  decode_cancel_request buff = (decode h (id_of cancel_request) (read_primitive h uint32) 0 buff).0
