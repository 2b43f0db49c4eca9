-- ===== src/WorldModel/Client/Rejects.antt =====
-- What the decoders of the client messages return for messages that they turn away at the header.
use cpp_owl_common.Prelude.{
  ℕ, ◌<◌, ◌≤◌, ◌≡◌, ◌⊎◌, inl, inr, ap, ◌∙◌, List, [], length, arith, some, none, Option, get_or,
  leb, ◌==◌, ◌&&◌, Bool-cases,
}
use cpp_owl_common.Netbuffer.Endian.{Host}
use cpp_owl_common.Netbuffer.Reader.{BuffReader}
use cpp_owl_common.Message.Decode.{or_failure}
use cpp_owl_common.Message.Decode.Rejects.{
  packet, IsPacket, IsForeign, IsMisfit, misfit-IsForeign, set-packet, decode-foreign,
  or_failure-decode,
}
use cpp_owl_common.WorldModel.Types.{Uri, GrailTime}
use cpp_owl_common.WorldModel.Client.Request.{
  Request, new_request, empty_request, decode_snapshot_request, decode_as, decode_range_request,
  decode_stream_request,
}
use cpp_owl_common.WorldModel.Client.Alias.{decode_attr_alias_msg}
use cpp_owl_common.WorldModel.Client.Ticket.{decode_request_complete, decode_cancel_request}
use cpp_owl_common.WorldModel.Client.Data.{no_world_data, decode_data_message}
use cpp_owl_common.WorldModel.Client.Search.{decode_uri_search, decode_uri_search_response}
use cpp_owl_common.WorldModel.Client.Preference.RoundTrip.{Weight}
use cpp_owl_common.WorldModel.Client.Preference.{Order, decode_origin_preference}

module _ (h : Host) (s p : GrailTime) {n k : ℕ} {bs : List ℕ} (ok : IsPacket n k bs)
    (misfit : IsMisfit n bs) where
  snapshot_rejects : decode_snapshot_request h s p (packet n k bs) ≡ (new_request s p, 0)
  unfolding decode_snapshot_request or_failure
  snapshot_rejects =
      ap (λ (r : (Request × ℕ) × BuffReader). or_failure (empty_request, r.0.1) r)
        (decode-foreign h ok 1 _ (new_request s p, 0) (inl misfit))

-- With the type changed to that of a snapshot request.
module _ (h : Host) (s p : GrailTime) {n k : ℕ} {bs : List ℕ} (ok : IsPacket n k bs)
    (misfit : IsMisfit n bs) where
  retyped : IsPacket n 1 bs
  retyped = record { length_ok = ok.length_ok; type_ok = omega arith; short = ok.short }

  as_rejects : (id : ℕ) → (decode_as h s p id (packet n k bs)).0 ≡ (new_request s p, 0)
  unfolding decode_as
  as_rejects id =
      let buff = packet n k bs in
      elim (Bool-cases (leb 5 (length buff) && id == get_or buff 4 0)) [
        | inl own ↦ rw own (
            ap (decode_snapshot_request h s p) (set-packet n k 1 bs)
            ∙ snapshot_rejects h s p retyped misfit)
        | inr other ↦ rw other
      ]

-- A message of five bytes or more, and fewer than 2 ^ 32, whose length is not what its length field says
-- is turned away by the decoders of requests: each returns a new request, whose times are
-- indeterminate, and ticket zero.
pub decode_requests-misfit :
    (h : Host) (s p : GrailTime) (n k : ℕ) (bs : List ℕ)
    → IsPacket n k bs
    → IsMisfit n bs
    → (decode_snapshot_request h s p (packet n k bs) ≡ (new_request s p, 0))
      × ((decode_range_request h s p (packet n k bs)).0 ≡ (new_request s p, 0))
      × ((decode_stream_request h s p (packet n k bs)).0 ≡ (new_request s p, 0))
unfolding decode_range_request decode_stream_request
decode_requests-misfit h s p n k bs ok misfit =
    (snapshot_rejects h s p ok misfit, as_rejects h s p ok misfit 2, as_rejects h s p ok misfit 3)

-- Five bytes or more that are no message of the type asked for, by their type or their length, are
-- turned away by the other decoders of the client that leave the buffer alone: attribute aliases,
-- data, search responses and preferences come back empty, and a ticket as zero.
decode_client-foreign :
    (h : Host) (order : Order) (fuel n k : ℕ) (bs : List ℕ)
    → IsPacket n k bs
    → IsMisfit n bs ⊎ (11 < k)
    → (decode_attr_alias_msg h (packet n k bs) ≡ [])
      × (decode_request_complete h (packet n k bs) ≡ 0)
      × (decode_cancel_request h (packet n k bs) ≡ 0)
      × (decode_data_message h (packet n k bs) ≡ (no_world_data, 0))
      × (decode_uri_search h (packet n k bs) ≡ [])
      × (decode_uri_search_response h (packet n k bs) ≡ [])
      × (decode_origin_preference h order fuel (packet n k bs) ≡ some [])
unfolding decode_attr_alias_msg decode_request_complete decode_cancel_request decode_data_message
    decode_uri_search decode_uri_search_response decode_origin_preference or_failure
decode_client-foreign h order fuel n k bs ok bad =
    let foreign : (id : ℕ) → id ≤ 11 → IsForeign id n k bs =
      λ id b. misfit-IsForeign n k bs id bad b in
    (
      or_failure-decode h ok 4 _ [] [] (foreign 4 (omega arith)),
      ap (λ (r : ℕ × BuffReader). r.0) (decode-foreign h ok 6 _ 0 (foreign 6 (omega arith))),
      ap (λ (r : ℕ × BuffReader). r.0) (decode-foreign h ok 7 _ 0 (foreign 7 (omega arith))),
      or_failure-decode h ok 8 _ (no_world_data, 0) (no_world_data, 0) (foreign 8 (omega arith)),
      ap (λ (r : Uri × BuffReader). r.0) (decode-foreign h ok 9 _ [] (foreign 9 (omega arith))),
      or_failure-decode h ok 10 _ [] [] (foreign 10 (omega arith)),
      ap
          (λ (r : Option (List Weight) × BuffReader). elim r.0 [
            | none ↦ none
            | some weights ↦ or_failure (some []) r
          ])
          (decode-foreign h ok 11 _ (some []) (foreign 11 (omega arith))),
    )
