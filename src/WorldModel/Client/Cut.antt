-- ===== src/WorldModel/Client/Cut.antt =====
-- Requests and aliases whose fields are cut short.
use cpp_owl_common.Prelude.{
  ℕ, ◌+◌, ◌<◌, ◌≡◌, sym, ap, ◌∙◌, List, [], ◌∷◌, true, length, take, u32_mod, arith, All, get_or,
  leb, ltb, ◌==◌, ◌&&◌, le→leb, eq→==, Bool-cases, inl, inr,
}
use cpp_owl_common.Netbuffer.Endian.{Host}
use cpp_owl_common.Netbuffer.Primitive.Laws.{wire64}
use cpp_owl_common.Netbuffer.Push.Laws.{sized_utf16}
use cpp_owl_common.Netbuffer.Reader.Reads.{Reads-primitive}
use cpp_owl_common.Netbuffer.Reader.Sequences.{Reads-uint32, Reads-sized_utf16, Reads-loop}
use cpp_owl_common.Netbuffer.Reader.Misses.{
  Misses, Misses-bind, Misses-last, Misses-primitive, Misses-uint32, Misses-sized_utf16,
  Misses-loop, sticky,
}
use cpp_owl_common.Message.Draft.Laws.{frame, length-frame, set-frame, get_or-frame}
use cpp_owl_common.Message.Decode.Cut.{decode-cut, or_failure-cut, or_failure-missed}
use cpp_owl_common.WorldModel.Types.{GrailTime, IsString, IsU32}
use cpp_owl_common.WorldModel.Client.Request.{
  Request, empty_request, read_request, decode_snapshot_request, decode_as, decode_range_request,
  decode_stream_request,
}
use cpp_owl_common.WorldModel.Client.Request.RoundTrip.{IsRequest, wire_request}
use cpp_owl_common.WorldModel.Client.Alias.{
  AliasType, read_alias, read_aliases, decode_attr_alias_msg, decode_origin_alias_msg,
}
use cpp_owl_common.WorldModel.Client.Alias.RoundTrip.{
  IsAlias, wire_alias, wire_aliases, Reads-alias,
}

Misses-request :
    (h : Host) (r : Request) (ticket : ℕ)
    → IsRequest r
    → IsU32 ticket
    → Misses h (read_request h) (wire_request r ticket)
unfolding read_request wire_request
Misses-request h r ticket ok bt =
    Misses-bind h _ (Reads-uint32 h ticket bt) (Misses-uint32 h ticket)
      (λ t. search sticky depth 20)
      (Misses-bind h _ (Reads-sized_utf16 h r.object_uri ok.uri_ok)
        (Misses-sized_utf16 h r.object_uri ok.uri_ok) (λ u. search sticky depth 20)
        (Misses-bind h _ (Reads-uint32 h (length r.attributes) ok.few_attributes)
          (Misses-uint32 h (length r.attributes)) (λ n. search sticky depth 20)
          (Misses-bind h _
            (Reads-loop h sized_utf16 IsString (Reads-sized_utf16 h) r.attributes []
              ok.attributes_ok)
            (Misses-loop h sized_utf16 IsString (Reads-sized_utf16 h) (Misses-sized_utf16 h)
              (search sticky depth 20) r.attributes [] ok.attributes_ok)
            (λ xs. search sticky depth 20)
            (Misses-bind h _ (Reads-primitive h wire64 r.start (omega (arith, ok.start_ok)))
              (Misses-primitive h wire64 r.start) (λ a. search sticky depth 20)
              (Misses-last h _ (Misses-primitive h wire64 r.stop_period))))))

Misses-aliases :
    (h : Host) (aliases : List AliasType)
    → All IsAlias aliases
    → IsU32 (length aliases)
    → Misses h (read_aliases h) (wire_aliases aliases)
unfolding read_aliases wire_aliases read_alias wire_alias
Misses-aliases h aliases ok few =
    let misses : (a : AliasType) → IsAlias a → Misses h (read_alias h) (wire_alias a) = λ a okay.
      Misses-bind h _ (Reads-uint32 h a.alias okay.alias_ok) (Misses-uint32 h a.alias)
        (λ n. search sticky depth 20)
        (Misses-last h _ (Misses-sized_utf16 h a.type okay.type_ok)) in
    Misses-bind h _ (Reads-uint32 h (length aliases) few) (Misses-uint32 h (length aliases))
      (λ n. search sticky depth 20)
      (Misses-loop h wire_alias IsAlias (Reads-alias h) misses (search sticky depth 20) aliases []
        ok)

-- The decoder of snapshot requests on what a request's first `n` bytes behind the type make.
module _ (h : Host) (s p : GrailTime) (r : Request) (ticket : ℕ) (n : ℕ) (ok : IsRequest r)
    (ticket_ok : IsU32 ticket) (fits : length (wire_request r ticket) + 5 < u32_mod)
    (few : n < length (wire_request r ticket)) where
  abbrev left : List ℕ
  left = take n (wire_request r ticket)

  snapshot-cut : (decode_snapshot_request h s p (frame (1 ∷ left))).0 ≡ empty_request
  unfolding decode_snapshot_request
  snapshot-cut =
      ap (λ (x : Request × ℕ). x.0)
        (or_failure-missed _ _ (
          decode-cut h 1 _ n (omega arith) few
            (omega (arith, fits, length-frame (1 ∷ wire_request r ticket)))
            (Misses-request h r ticket ok ticket_ok)))

  as-cut : (id : ℕ) → (decode_as h s p id (frame (id ∷ left))).0.0 ≡ empty_request
  unfolding decode_as
  as-cut id =
      let long : leb 5 (length (frame (id ∷ left))) ≡ true =
        le→leb 5 _ (omega (arith, length-frame (id ∷ left))) in
      let type : (id == get_or (frame (id ∷ left)) 4 0) ≡ true =
        eq→== id _ (sym (get_or-frame id left)) in
      rw (long, type)
        (ap (λ (b : List ℕ). (decode_snapshot_request h s p b).0) (set-frame id 1 left)
          ∙ snapshot-cut)

-- A message that holds a strict front of a request's fields, under a length field that fits it, is
-- turned away by the decoders of requests, whatever is missing: each returns an empty request, if the
-- request's values fit their types and its message is shorter than 2 ^ 32 bytes.
pub decode_requests-cut :
    (h : Host) (s p : GrailTime) (r : Request) (ticket n : ℕ)
    → IsRequest r
    → IsU32 ticket
    → length (wire_request r ticket) + 5 < u32_mod
    → n < length (wire_request r ticket)
    → ((decode_snapshot_request h s p (frame (1 ∷ take n (wire_request r ticket)))).0
        ≡ empty_request)
      × ((decode_range_request h s p (frame (2 ∷ take n (wire_request r ticket)))).0.0
          ≡ empty_request)
      × ((decode_stream_request h s p (frame (3 ∷ take n (wire_request r ticket)))).0.0
          ≡ empty_request)
unfolding decode_range_request decode_stream_request
decode_requests-cut h s p r ticket n ok ticket_ok fits few = (
  snapshot-cut h s p r ticket n ok ticket_ok fits few,
  as-cut h s p r ticket n ok ticket_ok fits few 2,
  as-cut h s p r ticket n ok ticket_ok fits few 3,
)

attr_alias-cut :
    (h : Host) (aliases : List AliasType) (n : ℕ)
    → All IsAlias aliases
    → IsU32 (length aliases)
    → length (wire_aliases aliases) + 5 < u32_mod
    → n < length (wire_aliases aliases)
    → decode_attr_alias_msg h (frame (4 ∷ take n (wire_aliases aliases))) ≡ []
unfolding decode_attr_alias_msg
attr_alias-cut h aliases n ok few fits cut =
    or_failure-cut h 4 _ n (omega arith) cut
      (omega (arith, fits, length-frame (4 ∷ wire_aliases aliases)))
      (Misses-aliases h aliases ok few) []

origin_alias-none :
    (h : Host) (bs : List ℕ)
    → decode_attr_alias_msg h (frame (4 ∷ bs)) ≡ []
    → (decode_origin_alias_msg h (frame (5 ∷ bs))).0 ≡ []
unfolding decode_origin_alias_msg
origin_alias-none h bs e =
    let buff = frame (5 ∷ bs) in
    elim (Bool-cases (ltb 5 (length buff) && 5 == get_or buff 4 0)) [
      | inl own ↦ rw own (ap (λ (b : List ℕ). decode_attr_alias_msg h b) (set-frame 5 4 bs) ∙ e)
      | inr other ↦ rw other
    ]

-- A message that holds a strict front of a list of aliases, under a length field that fits it, is
-- turned away by the decoders of attribute and origin aliases: both return no alias, if the aliases'
-- values fit their types and their message is shorter than 2 ^ 32 bytes.
decode_aliases-cut :
    (h : Host) (aliases : List AliasType) (n : ℕ)
    → All IsAlias aliases
    → IsU32 (length aliases)
    → length (wire_aliases aliases) + 5 < u32_mod
    → n < length (wire_aliases aliases)
    → (decode_attr_alias_msg h (frame (4 ∷ take n (wire_aliases aliases))) ≡ [])
      × ((decode_origin_alias_msg h (frame (5 ∷ take n (wire_aliases aliases)))).0 ≡ [])
decode_aliases-cut h aliases n ok few fits cut =
    let left = take n (wire_aliases aliases) in
    let attr : decode_attr_alias_msg h (frame (4 ∷ left)) ≡ [] =
      attr_alias-cut h aliases n ok few fits cut in
    (attr, origin_alias-none h left attr)
