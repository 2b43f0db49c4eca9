-- ===== src/WorldModel/Client/Request.antt =====
-- Snapshot, range and stream requests of the client. The decoders of the last two write to the
-- buffer that they are given, and so return it.
pub mod RoundTrip
use cpp_owl_common.Prelude.{
  ℕ, List, [], ◌∷◌, length, set, get_or, leb, ◌==◌, ◌&&◌, if◌then◌else◌, ◌%◌, u32_mod,
}
use cpp_owl_common.Netbuffer.Endian.{Host}
use cpp_owl_common.Netbuffer.Primitive.{uint8, uint32, uint64}
use cpp_owl_common.Netbuffer.Push.{Buffer, push_back_val, push_back_sized_utf16}
use cpp_owl_common.Netbuffer.Reader.{Read, ◌>>=◌, pure, read_primitive, read_loop, read_sized_utf16}
use cpp_owl_common.Message.Draft.{◌>>◌, counted, for_each, make}
use cpp_owl_common.Message.Decode.{decode, or_failure}
use cpp_owl_common.WorldModel.Types.{Uri, GrailTime}
use cpp_owl_common.WorldModel.Client.Id.{id_of, snapshot_request, range_request, stream_request}

pub record Request : Type 0 where
  pub object_uri : Uri
  pub attributes : List Uri
  pub start : GrailTime
  pub stop_period : GrailTime

-- `client::Request()`, all zero.
abbrev pub empty_request : Request
empty_request = record { object_uri = []; attributes = []; start = 0; stop_period = 0 }

-- `client::Request request;` leaves the two times with indeterminate values.
abbrev pub new_request : GrailTime → GrailTime → Request
new_request start stop_period = record {
  object_uri = [];
  attributes = [];
  start = start;
  stop_period = stop_period;
}

module _ (h : Host) where
  unfoldable pub make_snapshot_request : Request → ℕ → Buffer
  make_snapshot_request request ticket = make h do
    counted (push_back_val h uint8 (id_of snapshot_request))
    counted (push_back_val h uint32 ticket)
    counted (push_back_sized_utf16 h request.object_uri)
    counted (push_back_val h uint32 (length request.attributes % u32_mod))
    for_each (λ attr. counted (push_back_sized_utf16 h attr)) request.attributes
    counted (push_back_val h uint64 request.start)
    counted (push_back_val h uint64 request.stop_period)

  unfoldable pub make_range_request : Request → ℕ → Buffer
  make_range_request request ticket =
      set (make_snapshot_request request ticket) 4 (id_of range_request)

  unfoldable pub make_stream_request : Request → ℕ → Buffer
  make_stream_request request ticket =
      set (make_snapshot_request request ticket) 4 (id_of stream_request)

  -- What `decodeSnapshotRequest` reads behind the message type.
  unfoldable pub read_request : Read (Request × ℕ)
  read_request = do
    ticket ← read_primitive h uint32
    object_uri ← read_sized_utf16 h
    total_attributes ← read_primitive h uint32
    attributes ← read_loop total_attributes (read_sized_utf16 h) []
    start ← read_primitive h uint64
    stop_period ← read_primitive h uint64
    pure (
      record {
        object_uri = object_uri;
        attributes = attributes;
        start = start;
        stop_period = stop_period;
      },
      ticket,
    )

-- The two times are those that the local variable happens to hold.
module _ (h : Host) (start stop_period : GrailTime) where
  unfoldable pub decode_snapshot_request : Buffer → Request × ℕ
  decode_snapshot_request buff =
      let result =
        decode h (id_of snapshot_request) (read_request h) (new_request start stop_period, 0)
          buff in
      or_failure (empty_request, result.0.1) result

  -- The result, and the buffer after the call.
  unfoldable pub decode_as : ℕ → Buffer → (Request × ℕ) × Buffer
  decode_as id buff =
      if leb 5 (length buff) && id == get_or buff 4 0
      then (let buff' = set buff 4 (id_of snapshot_request) in
          (decode_snapshot_request buff', buff'))
      else ((new_request start stop_period, 0), buff)

  unfoldable pub decode_range_request : Buffer → (Request × ℕ) × Buffer
  decode_range_request = decode_as (id_of range_request)

  unfoldable pub decode_stream_request : Buffer → (Request × ℕ) × Buffer
  decode_stream_request = decode_as (id_of stream_request)
