-- ===== src/WorldModel/Client/Request/RoundTrip.antt =====
-- The wire form of the requests, and that the decoders read back what was made.
use cpp_owl_common.Prelude.{
  ℕ, ◌≡◌, sym, ap, subst, ◌∙◌, List, [], ◌∷◌, ◌++◌, length, All, arith, set, get_or, leb, ◌==◌,
  le→leb, eq→==, true,
}
use cpp_owl_common.Netbuffer.Endian.{Host, big_bytes}
use cpp_owl_common.Netbuffer.Primitive.Laws.{wire64}
use cpp_owl_common.Netbuffer.Push.Laws.{wires, sized_utf16}
use cpp_owl_common.Netbuffer.Reader.Reads.{
  Reads, Reads-bind, Reads-last, Reads-primitive, ReadsAll-end,
}
use cpp_owl_common.Netbuffer.Reader.Sequences.{Reads-uint32, Reads-sized_utf16, Reads-loop}
use cpp_owl_common.Message.Draft.Laws.{
  frame, length-frame, set-frame, get_or-frame, make-frame, Emits-seq, Emits-id, Emits-count,
  Emits-each, Emits-uint32, Emits-uint64, Emits-sized_utf16,
}
use cpp_owl_common.Message.Decode.Laws.{decode-frame}
use cpp_owl_common.WorldModel.Types.{GrailTime, IsString, IsU32, IsTime}
use cpp_owl_common.WorldModel.Client.Request.{
  Request, make_snapshot_request, make_range_request, make_stream_request, read_request,
  decode_snapshot_request, decode_as, decode_range_request, decode_stream_request,
}

-- A request whose values fit their C++ types.
pub record IsRequest (r : Request) : Type 0 where
  pub uri_ok : IsString r.object_uri
  pub attributes_ok : All IsString r.attributes
  pub few_attributes : IsU32 (length r.attributes)
  pub start_ok : IsTime r.start
  pub stop_ok : IsTime r.stop_period

-- What follows the message type.
unfoldable pub wire_request : Request → ℕ → List ℕ
wire_request r ticket =
    big_bytes 4 ticket
    ++ (sized_utf16 r.object_uri
        ++ (big_bytes 4 (length r.attributes)
            ++ (wires sized_utf16 r.attributes
                ++ (big_bytes 8 r.start ++ big_bytes 8 r.stop_period))))

-- A snapshot request is, on either host, the frame of its type and its fields in network order:
-- ticket, URI, number of attributes, attributes, start, stop or period.
pub make_snapshot_request-frame :
    (h : Host) (r : Request) (ticket : ℕ)
    → make_snapshot_request h r ticket ≡ frame (1 ∷ wire_request r ticket)
unfolding make_snapshot_request wire_request
make_snapshot_request-frame h r ticket = make-frame h (
    Emits-seq (Emits-id h 1 (omega arith)) (
      Emits-seq (Emits-uint32 h ticket) (
        Emits-seq (Emits-sized_utf16 h r.object_uri) (
          Emits-seq (Emits-count h (length r.attributes)) (
            Emits-seq (Emits-each sized_utf16 r.attributes (λ attr. Emits-sized_utf16 h attr))
              (Emits-seq (Emits-uint64 h r.start) (Emits-uint64 h r.stop_period)))))))

Reads-request :
    (h : Host) (r : Request) (ticket : ℕ)
    → IsRequest r
    → IsU32 ticket
    → Reads h (read_request h) (wire_request r ticket) (r, ticket)
unfolding read_request wire_request
Reads-request h r ticket ok bt = Reads-bind h _ (Reads-uint32 h ticket bt) (
    Reads-bind h _ (Reads-sized_utf16 h r.object_uri ok.uri_ok) (
      Reads-bind h _ (Reads-uint32 h (length r.attributes) ok.few_attributes) (
        Reads-bind h _
          (Reads-loop h sized_utf16 IsString (Reads-sized_utf16 h) r.attributes [] ok.attributes_ok)
          (Reads-bind h _ (Reads-primitive h wire64 r.start (omega (arith, ok.start_ok))) (
            Reads-last h _ (Reads-primitive h wire64 r.stop_period (omega (arith, ok.stop_ok))))))))

-- What is read off a frame of any of the three types once its type is that of a snapshot request.
decode_snapshot_request-frame :
    (h : Host) (s p : GrailTime) (r : Request) (ticket : ℕ)
    → IsRequest r
    → IsU32 ticket
    → IsU32 (length (frame (1 ∷ wire_request r ticket)))
    → decode_snapshot_request h s p (frame (1 ∷ wire_request r ticket)) ≡ (r, ticket)
unfolding decode_snapshot_request
decode_snapshot_request-frame h s p r ticket ok bt fits =
    decode-frame h 1 _ _ (omega arith) fits (ReadsAll-end h (Reads-request h r ticket ok bt))

module _ (h h' : Host) (s p : GrailTime) (r : Request) (ticket : ℕ) (ok : IsRequest r)
    (ticket_ok : IsU32 ticket) (fits : IsU32 (length (make_snapshot_request h r ticket))) where
  frame_fits : IsU32 (length (frame (1 ∷ wire_request r ticket)))
  frame_fits = subst (λ b. IsU32 (length b)) (make_snapshot_request-frame h r ticket) fits

  -- A snapshot request made on any host, and decoded on any host, gives the request and the
  -- ticket, if the values fit their types and the message is shorter than 2 ^ 32 bytes.
  pub decode-make_snapshot_request :
      decode_snapshot_request h' s p (make_snapshot_request h r ticket) ≡ (r, ticket)
  decode-make_snapshot_request =
      ap (decode_snapshot_request h' s p) (make_snapshot_request-frame h r ticket)
      ∙ decode_snapshot_request-frame h' s p r ticket ok ticket_ok frame_fits

  decode_as-frame :
      (id : ℕ)
      → decode_as h' s p id (frame (id ∷ wire_request r ticket))
        ≡ ((r, ticket), frame (1 ∷ wire_request r ticket))
  unfolding decode_as
  decode_as-frame id =
      let body = wire_request r ticket in
      let long : leb 5 (length (frame (id ∷ body))) ≡ true =
        le→leb 5 _ (omega (arith, length-frame (id ∷ body))) in
      let type : (id == get_or (frame (id ∷ body)) 4 0) ≡ true =
        eq→== id _ (sym (get_or-frame id body)) in
      rw (long, type)
        (ap (λ (b : List ℕ). (decode_snapshot_request h' s p b, b)) (set-frame id 1 body) ∙ λ i. (
          decode_snapshot_request-frame h' s p r ticket ok ticket_ok frame_fits i,
          frame (1 ∷ body),
        ))

  -- A range request made on any host, and decoded on any host, gives the request and the ticket,
  -- and leaves a snapshot request in the caller's buffer, if the values fit their types and the
  -- message is shorter than 2 ^ 32 bytes.
  pub decode-make_range_request :
      decode_range_request h' s p (make_range_request h r ticket)
      ≡ ((r, ticket), make_snapshot_request h r ticket)
  unfolding decode_range_request make_range_request
  decode-make_range_request =
      ap (λ (b : List ℕ). decode_as h' s p 2 (set b 4 2)) (make_snapshot_request-frame h r ticket)
      ∙ ap (decode_as h' s p 2) (set-frame 1 2 (wire_request r ticket))
      ∙ decode_as-frame 2
      ∙ ap (λ (b : List ℕ). ((r, ticket), b)) (sym (make_snapshot_request-frame h r ticket))

  -- A stream request made on any host, and decoded on any host, gives the request and the ticket,
  -- and leaves a snapshot request in the caller's buffer, if the values fit their types and the
  -- message is shorter than 2 ^ 32 bytes.
  decode-make_stream_request :
      decode_stream_request h' s p (make_stream_request h r ticket)
      ≡ ((r, ticket), make_snapshot_request h r ticket)
  unfolding decode_stream_request make_stream_request
  decode-make_stream_request =
      ap (λ (b : List ℕ). decode_as h' s p 3 (set b 4 3)) (make_snapshot_request-frame h r ticket)
      ∙ ap (decode_as h' s p 3) (set-frame 1 3 (wire_request r ticket))
      ∙ decode_as-frame 3
      ∙ ap (λ (b : List ℕ). ((r, ticket), b)) (sym (make_snapshot_request-frame h r ticket))
