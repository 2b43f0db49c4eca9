-- ===== src/WorldModel/Client/Alias/RoundTrip.antt =====
-- The wire form of the alias messages, and that the decoders read back what was made.
use cpp_owl_common.Prelude.{
  ℕ, ◌≤◌, ◌≡◌, sym, ap, ap₂, subst, ◌∙◌, List, [], ◌∷◌, ◌++◌, length, length-append, All, arith,
  set, get_or, ltb, ◌==◌, lt→ltb, eq→==, true,
}
use cpp_owl_common.Netbuffer.Endian.{Host, big_bytes}
use cpp_owl_common.Netbuffer.Endian.Laws.{length-big_bytes}
use cpp_owl_common.Netbuffer.Push.Laws.{wires, sized_utf16}
use cpp_owl_common.Netbuffer.Reader.Reads.{Reads, Reads-bind, Reads-last, ReadsAll-end}
use cpp_owl_common.Netbuffer.Reader.Sequences.{Reads-uint32, Reads-sized_utf16, Reads-loop}
use cpp_owl_common.Message.Draft.Laws.{
  frame, length-frame, set-frame, get_or-frame, make-frame, Emits, Emits-seq, Emits-id, Emits-count,
  Emits-each, Emits-uint32, Emits-sized_utf16,
}
use cpp_owl_common.Message.Decode.Laws.{decode-frame}
use cpp_owl_common.WorldModel.Types.{IsString, IsU32}
use cpp_owl_common.WorldModel.Client.Alias.{
  AliasType, push_alias, make_attr_alias_msg, make_origin_alias_msg, read_alias, read_aliases,
  decode_attr_alias_msg, decode_origin_alias_msg,
}

pub record IsAlias (a : AliasType) : Type 0 where
  pub alias_ok : IsU32 a.alias
  pub type_ok : IsString a.type

unfoldable pub wire_alias : AliasType → List ℕ
wire_alias a = big_bytes 4 a.alias ++ sized_utf16 a.type

-- What follows the message type: the number of aliases, and each alias.
unfoldable pub wire_aliases : List AliasType → List ℕ
wire_aliases aliases = big_bytes 4 (length aliases) ++ wires wire_alias aliases

Emits-alias : (h : Host) (a : AliasType) → Emits (push_alias h a) (wire_alias a)
unfolding push_alias wire_alias
Emits-alias h a = Emits-seq (Emits-uint32 h a.alias) (Emits-sized_utf16 h a.type)

pub make_attr_alias_msg-frame :
    (h : Host) (aliases : List AliasType)
    → make_attr_alias_msg h aliases ≡ frame (4 ∷ wire_aliases aliases)
unfolding make_attr_alias_msg wire_aliases
make_attr_alias_msg-frame h aliases = make-frame h (
    Emits-seq (Emits-id h 4 (omega arith))
      (Emits-seq (Emits-count h (length aliases)) (Emits-each wire_alias aliases (Emits-alias h))))

pub Reads-alias : (h : Host) (a : AliasType) → IsAlias a → Reads h (read_alias h) (wire_alias a) a
unfolding read_alias wire_alias
Reads-alias h a ok =
    Reads-bind h _ (Reads-uint32 h a.alias ok.alias_ok)
      (Reads-last h _ (Reads-sized_utf16 h a.type ok.type_ok))

pub Reads-aliases :
    (h : Host) (aliases : List AliasType)
    → All IsAlias aliases
    → IsU32 (length aliases)
    → Reads h (read_aliases h) (wire_aliases aliases) aliases
unfolding read_aliases wire_aliases
Reads-aliases h aliases ok few =
    Reads-bind h _ (Reads-uint32 h (length aliases) few)
      (Reads-loop h wire_alias IsAlias (Reads-alias h) aliases [] ok)

module _ (h h' : Host) (aliases : List AliasType) (ok : All IsAlias aliases)
    (few : IsU32 (length aliases)) (fits : IsU32 (length (make_attr_alias_msg h aliases))) where
  frame_fits : IsU32 (length (frame (4 ∷ wire_aliases aliases)))
  frame_fits = subst (λ b. IsU32 (length b)) (make_attr_alias_msg-frame h aliases) fits

  decode_attr_alias_msg-frame :
      decode_attr_alias_msg h' (frame (4 ∷ wire_aliases aliases)) ≡ aliases
  unfolding decode_attr_alias_msg
  decode_attr_alias_msg-frame =
      decode-frame h' 4 _ _ (omega arith) frame_fits
        (ReadsAll-end h' (Reads-aliases h' aliases ok few))

  -- Attribute aliases made on any host, and decoded on any host, come back, if the values fit
  -- their types and the message is shorter than 2 ^ 32 bytes.
  pub decode-make_attr_alias_msg :
      decode_attr_alias_msg h' (make_attr_alias_msg h aliases) ≡ aliases
  decode-make_attr_alias_msg =
      ap (decode_attr_alias_msg h') (make_attr_alias_msg-frame h aliases)
      ∙ decode_attr_alias_msg-frame

  -- Origin aliases made on any host, and decoded on any host, come back, and attribute aliases are
  -- left in the caller's buffer, if the values fit their types and the message is shorter than
  -- 2 ^ 32 bytes.
  pub decode-make_origin_alias_msg :
      decode_origin_alias_msg h' (make_origin_alias_msg h aliases)
      ≡ (aliases, make_attr_alias_msg h aliases)
  unfolding decode_origin_alias_msg make_origin_alias_msg
  decode-make_origin_alias_msg =
      let body = wire_aliases aliases in
      let to_frame : set (make_attr_alias_msg h aliases) 4 5 ≡ frame (5 ∷ body) =
        ap (λ (b : List ℕ). set b 4 5) (make_attr_alias_msg-frame h aliases) ∙ set-frame 4 5 body in
      let long : ltb 5 (length (frame (5 ∷ body))) ≡ true =
        lt→ltb 5 _ (omega (arith, length-frame (5 ∷ body), four_more)) in
      let type : (5 == get_or (frame (5 ∷ body)) 4 0) ≡ true =
        eq→== 5 _ (sym (get_or-frame 5 body)) in
      rw (to_frame, long, type)
        (ap (λ (b : List ℕ). (decode_attr_alias_msg h' b, b)) (set-frame 5 4 body)
          ∙ ap₂ (λ (x : List AliasType) (y : List ℕ). (x, y)) decode_attr_alias_msg-frame
              (sym (make_attr_alias_msg-frame h aliases)))
    where
      four_more : 4 ≤ length (wire_aliases aliases)
      four_more =
          unfold wire_aliases in
          omega (
            arith,
            length-append (big_bytes 4 (length aliases)) (wires wire_alias aliases),
            length-big_bytes 4 (length aliases),
          )
