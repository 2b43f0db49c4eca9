-- ===== src/WorldModel/Solver/Demand/RoundTrip.antt =====
-- The wire form of the on-demand messages, and that they come back.
use cpp_owl_common.Prelude.{
  ℕ, suc, ◌≡◌, refl, sym, ap, ap₂, subst, ◌∙◌, List, [], ◌∷◌, ◌++◌, length, All, arith, set, true,
  false,
}
use cpp_owl_common.Netbuffer.Endian.{Host, big_bytes}
use cpp_owl_common.Netbuffer.Push.Laws.{wires, sized_utf16}
use cpp_owl_common.Netbuffer.Reader.{pure}
use cpp_owl_common.Netbuffer.Reader.Reads.{reader_at, Reads, Reads-bind, Reads-last, ReadsAll-end}
use cpp_owl_common.Netbuffer.Reader.Sequences.{Reads-uint32, Reads-sized_utf16, Reads-loop}
use cpp_owl_common.Message.Draft.Laws.{
  frame, length-frame, set-frame, make-frame, Emits, Emits-seq, Emits-id, Emits-count, Emits-each,
  Emits-uint32, Emits-sized_utf16,
}
use cpp_owl_common.Message.Decode.{decode}
use cpp_owl_common.Message.Decode.Laws.{decode-frame, decode-enter}
use cpp_owl_common.WorldModel.Types.{U16String, IsString, IsU32}
use cpp_owl_common.WorldModel.Solver.Demand.{
  Demand, push_demand, make_start_on_demand, make_stop_on_demand, read_demand, read_demands,
  decode_start_on_demand, decode_stop_on_demand,
}

pub record IsDemand (d : Demand) : Type 0 where
  pub alias_ok : IsU32 d.0
  pub attribs_ok : All IsString d.1
  pub few_attribs : IsU32 (length d.1)

unfoldable pub wire_demand : Demand → List ℕ
wire_demand (alias, attribs) =
    big_bytes 4 alias ++ (big_bytes 4 (length attribs) ++ wires sized_utf16 attribs)

-- What follows the message type.
unfoldable pub wire_demands : List Demand → List ℕ
wire_demands aliases = big_bytes 4 (length aliases) ++ wires wire_demand aliases

Emits-demand : (h : Host) (d : Demand) → Emits (push_demand h d) (wire_demand d)
unfolding push_demand wire_demand
Emits-demand h (alias, attribs) = Emits-seq (Emits-uint32 h alias) (
    Emits-seq (Emits-count h (length attribs))
      (Emits-each sized_utf16 attribs (λ attr. Emits-sized_utf16 h attr)))

make_start_on_demand-frame :
    (h : Host) (aliases : List Demand)
    → make_start_on_demand h aliases ≡ frame (2 ∷ wire_demands aliases)
unfolding make_start_on_demand wire_demands
make_start_on_demand-frame h aliases = make-frame h (
    Emits-seq (Emits-id h 2 (omega arith)) (
      Emits-seq (Emits-count h (length aliases)) (Emits-each wire_demand aliases (Emits-demand h))))

pub Reads-demand : (h : Host) (d : Demand) → IsDemand d → Reads h (read_demand h) (wire_demand d) d
unfolding read_demand wire_demand
Reads-demand h (alias, attribs) ok = Reads-bind h _ (Reads-uint32 h alias ok.alias_ok) (
    Reads-bind h _ (Reads-uint32 h (length attribs) ok.few_attribs) (
      Reads-last h (λ (xs : List U16String). (alias, xs))
        (Reads-loop h sized_utf16 IsString (Reads-sized_utf16 h) attribs [] ok.attribs_ok)))

Reads-demands :
    (h : Host) (aliases : List Demand)
    → All IsDemand aliases
    → IsU32 (length aliases)
    → Reads h (read_demands h) (wire_demands aliases) aliases
unfolding read_demands wire_demands
Reads-demands h aliases ok few =
    Reads-bind h _ (Reads-uint32 h (length aliases) few)
      (Reads-loop h wire_demand IsDemand (Reads-demand h) aliases [] ok)

module _ (h h' : Host) (aliases : List Demand) (ok : All IsDemand aliases)
    (few : IsU32 (length aliases)) (fits : IsU32 (length (make_start_on_demand h aliases))) where
  frame_fits : IsU32 (length (frame (2 ∷ wire_demands aliases)))
  frame_fits = subst (λ b. IsU32 (length b)) (make_start_on_demand-frame h aliases) fits

  decode_start_on_demand-frame :
      decode_start_on_demand h' (frame (2 ∷ wire_demands aliases)) ≡ aliases
  unfolding decode_start_on_demand
  decode_start_on_demand-frame =
      decode-frame h' 2 _ _ (omega arith) frame_fits
        (ReadsAll-end h' (Reads-demands h' aliases ok few))

  -- The requests of a start message made on any host, and decoded on any host, come back, if the
  -- values fit their types and the message is shorter than 2 ^ 32 bytes.
  pub decode-make_start_on_demand :
      decode_start_on_demand h' (make_start_on_demand h aliases) ≡ aliases
  decode-make_start_on_demand =
      ap (decode_start_on_demand h') (make_start_on_demand-frame h aliases)
      ∙ decode_start_on_demand-frame

  stop_frame :
      (b : List ℕ)
      → b ≡ frame (3 ∷ wire_demands aliases)
      → decode_stop_on_demand h' b ≡ (aliases, make_start_on_demand h aliases)
  unfolding decode_stop_on_demand
  stop_frame b e =
      let body = wire_demands aliases in
      let enter : decode h' 3 (pure true) false (frame (3 ∷ body))
          ≡ (true, reader_at h' (big_bytes 4 (suc (length body)) ++ (3 ∷ [])) body) =
        decode-enter h' 3 (pure true) false body (omega arith)
          (omega (arith, frame_fits, length-frame (3 ∷ body), length-frame (2 ∷ body)))
        ∙ (unfold pure in refl) in
      rw (e, enter)
        (ap (λ (x : List ℕ). (decode_start_on_demand h' x, x)) (set-frame 3 2 body)
          ∙ ap₂ (λ (x : List Demand) (y : List ℕ). (x, y)) decode_start_on_demand-frame
              (sym (make_start_on_demand-frame h aliases)))

  -- The requests of a stop message made on any host, and decoded on any host, come back, and a start
  -- message is left in the caller's buffer, if the values fit their types and the message is shorter
  -- than 2 ^ 32 bytes.
  decode-make_stop_on_demand :
      decode_stop_on_demand h' (make_stop_on_demand h aliases)
      ≡ (aliases, make_start_on_demand h aliases)
  unfolding make_stop_on_demand
  decode-make_stop_on_demand = stop_frame _ (
      ap (λ (b : List ℕ). set b 4 3) (make_start_on_demand-frame h aliases)
      ∙ set-frame 2 3 (wire_demands aliases))
