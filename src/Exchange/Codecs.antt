-- ===== src/Exchange/Codecs.antt =====
-- The messages of the two world model protocols, as kinds of messages from one host to another.
use cpp_owl_common.Prelude.{ℕ, ◌∷◌, arith}
use cpp_owl_common.Netbuffer.Endian.{Host}
use cpp_owl_common.WorldModel.Types.{GrailTime, IsU32}
use cpp_owl_common.WorldModel.Client.Request.{
  Request, make_snapshot_request, decode_snapshot_request,
}
use cpp_owl_common.WorldModel.Client.Request.RoundTrip.{
  IsRequest, wire_request, make_snapshot_request-frame, decode-make_snapshot_request,
}
use cpp_owl_common.Exchange.Codec.{Codec}

module _ (h h' : Host) where
  -- `s` and `p` are what the memory of the decoder's result holds.
  abbrev pub snapshot_request_codec : GrailTime → GrailTime → Codec
  snapshot_request_codec s p = record {
    Message = Request × ℕ;
    make = λ q. make_snapshot_request h q.0 q.1;
    decode = decode_snapshot_request h' s p;
    IsMessage = λ q. IsRequest q.0 × IsU32 q.1;
    body = λ q. 1 ∷ wire_request q.0 q.1;
    make-frame = λ q. make_snapshot_request-frame h q.0 q.1;
    decode-make = λ q ok short.
        decode-make_snapshot_request h h' s p q.0 q.1 ok.0 ok.1 (omega (arith, short));
  }
