-- ===== src/WorldModel/Client/Search/RoundTrip.antt =====
-- The wire form of searches and responses. A search comes back; a response does not.
use cpp_owl_common.Prelude.{
  ℕ, suc, ◌+◌, ◌<◌, ◌≤◌, ◌≡◌, ◌≢◌, sym, ap, subst, ◌∙◌, List, [], ◌∷◌, ◌++◌, length, length-append,
  u32_mod, arith, Bool-cases, ◌*◌, inl, inr,
}
use cpp_owl_common.Netbuffer.Endian.{Host, big_bytes}
use cpp_owl_common.Netbuffer.Endian.Laws.{length-big_bytes}
use cpp_owl_common.Netbuffer.Primitive.{uint32}
use cpp_owl_common.Netbuffer.Push.Laws.{wires, sized, sized_utf16}
use cpp_owl_common.Netbuffer.Reader.{BuffReader}
use cpp_owl_common.Netbuffer.Reader.Reads.{reader_at}
use cpp_owl_common.Message.Draft.Laws.{
  frame, length-frame, make-frame, Emits-seq, Emits-id, Emits-each, Emits-utf16, Emits-sized_utf16,
}
use cpp_owl_common.Message.Decode.{decode, or_failure}
use cpp_owl_common.Message.Decode.Laws.{decode-own, ReadsAll-rest_utf16, decode-enter}
use cpp_owl_common.WorldModel.Types.{Uri, IsString, IsU32}
use cpp_owl_common.Netbuffer.Reader.Bounds.{
  IsValid, Advances, Advances-bind, total, read_primitive-Advances, read_loop-Advances,
  read_sized_utf16-Advances,
}
use cpp_owl_common.Netbuffer.Reader.Sequences.{length-units}
use cpp_owl_common.WorldModel.Client.Search.{
  make_uri_search, decode_uri_search, make_uri_search_response, read_uris,
  decode_uri_search_response,
}

make_uri_search-frame :
    (h : Host) (uri : Uri) → make_uri_search h uri ≡ frame (9 ∷ wires (big_bytes 2) uri)
unfolding make_uri_search
make_uri_search-frame h uri =
    make-frame h (Emits-seq (Emits-id h 9 (omega arith)) (Emits-utf16 h uri))

-- A search made on any host, and decoded on any host, gives the URI, if its code units fit 16 bits
-- and the message is shorter than 2 ^ 32 bytes.
decode-make_uri_search :
    (h h' : Host) (uri : Uri)
    → IsString uri
    → IsU32 (length (make_uri_search h uri))
    → decode_uri_search h' (make_uri_search h uri) ≡ uri
unfolding decode_uri_search
decode-make_uri_search h h' uri ok fits =
    ap (λ (b : List ℕ). decode_uri_search h' b) (make_uri_search-frame h uri)
    ∙ ap (λ (p : Uri × BuffReader). p.0)
        (decode-own h' 9 [] (omega arith)
          (subst (λ b. IsU32 (length b)) (make_uri_search-frame h uri) fits)
          (ReadsAll-rest_utf16 h' uri ok))

make_uri_search_response-frame :
    (h : Host) (uris : List Uri)
    → make_uri_search_response h uris ≡ frame (10 ∷ wires sized_utf16 uris)
unfolding make_uri_search_response
make_uri_search_response-frame h uris = make-frame h (
    Emits-seq (Emits-id h 10 (omega arith))
      (Emits-each sized_utf16 uris (λ uri. Emits-sized_utf16 h uri)))

abbrev width : Uri → ℕ
width uri = 4 + total (λ _. 2) uri

read_uris-Advances : (h : Host) → Advances (read_uris h) (λ uris. 4 + total width uris)
unfolding read_uris
read_uris-Advances h =
    Advances-bind 4 (total width) (read_primitive-Advances h uint32)
      (λ n. read_loop-Advances (read_sized_utf16-Advances h) n)

total-units : (str : List ℕ) → total (λ _. 2) str ≡ length str * 2
total-units [] = omega arith
total-units (c ∷ str) = omega (arith, total-units str)

-- What the response holds is what its URIs take, so nothing is left for a count.
length-uris : (uris : List Uri) → length (wires sized_utf16 uris) ≡ total width uris
unfolding sized
length-uris [] = omega arith
length-uris (uri ∷ uris) = omega (
  arith,
  length-append (sized_utf16 uri) (wires sized_utf16 uris),
  length-append (big_bytes 4 (length uri * 2)) (wires (big_bytes 2) uri),
  length-big_bytes 4 (length uri * 2),
  length-units uri,
  total-units uri,
  length-uris uris,
)

module _ (h : Host) (front : List ℕ) (uris : List Uri)
    (small : length front + length (wires sized_utf16 uris) < u32_mod) where
  abbrev start : BuffReader
  start = reader_at h front (wires sized_utf16 uris)

  start-IsValid : IsValid start
  start-IsValid = omega (arith, length-append front (wires sized_utf16 uris))

  read_uris-ne : uris ≢ [] → or_failure [] (read_uris h start) ≢ uris
  unfolding or_failure
  read_uris-ne some_uri e = elim (Bool-cases (read_uris h start).1.out_of_range) [
    | inl out ↦ some_uri (sym (rw out at e))
    | inr inside ↦
        let same : (read_uris h start).0 ≡ uris = rw inside at e in
        let adv = read_uris-Advances h in
        let taken : start.cur_index + (4 + total width uris) ≤ (read_uris h start).1.cur_index =
          subst (λ us. start.cur_index + (4 + total width us) ≤ (read_uris h start).1.cur_index)
            same (adv.taken start start-IsValid inside) in
        let end : (read_uris h start).1.cur_index ≤ length (front ++ wires sized_utf16 uris) =
          subst (λ b. (read_uris h start).1.cur_index ≤ length b) (adv.same_buffer start)
            ((adv.valid start start-IsValid).inside) in
        absurd (
          omega (arith, taken, end, length-append front (wires sized_utf16 uris), length-uris uris))
  ]

-- No response that holds a URI is decoded to the URIs that it was made of, on any hosts: the
-- decoder looks for a number of URIs, which is not sent. The message is shorter than 2 ^ 32 bytes.
pub decode-make_uri_search_response_ne :
    (h h' : Host) (uris : List Uri)
    → uris ≢ []
    → IsU32 (length (make_uri_search_response h uris))
    → decode_uri_search_response h' (make_uri_search_response h uris) ≢ uris
unfolding decode_uri_search_response
decode-make_uri_search_response_ne h h' uris some_uri fits e =
    let body = wires sized_utf16 uris in
    let fits' = subst (λ b. IsU32 (length b)) (make_uri_search_response-frame h uris) fits in
    let front = big_bytes 4 (suc (length body)) ++ (10 ∷ []) in
    let seen : decode h' 10 (read_uris h') [] (make_uri_search_response h uris)
        ≡ read_uris h' (reader_at h' front body) =
      ap (decode h' 10 (read_uris h') []) (make_uri_search_response-frame h uris)
      ∙ decode-enter h' 10 (read_uris h') [] body (omega arith) fits' in
    read_uris-ne h' front uris
      (omega (
        arith,
        length-append (big_bytes 4 (suc (length body))) (10 ∷ []),
        length-big_bytes 4 (suc (length body)),
        length-frame (10 ∷ body),
      ))
      some_uri (sym (ap (or_failure []) seen) ∙ e)
