-- ===== src/WorldModel/Solver/Announce/RoundTrip.antt =====
-- The wire form of type announcements, and that they come back.
use cpp_owl_common.Prelude.{
  ℕ, suc, ◌<◌, ◌≡◌, ◌≢◌, refl, sym, ap, subst, ◌∙◌, List, [], ◌∷◌, ◌++◌, length, length-append, All,
  u32_mod, arith, ◌==◌, if◌then◌else◌, true, false, append_assoc, Bool, not, ◌^◌,
}
use cpp_owl_common.Netbuffer.Endian.{Host, big_bytes}
use cpp_owl_common.Netbuffer.Endian.Laws.{length-big_bytes}
use cpp_owl_common.Netbuffer.Primitive.Laws.{wire8}
use cpp_owl_common.Netbuffer.Push.Laws.{wires, sized_utf16}
use cpp_owl_common.Netbuffer.Reader.{BuffReader, Read, ◌>>=◌, pure, new_reader}
use cpp_owl_common.Netbuffer.Reader.Reads.{
  Reads, ReadsAll, Reads-bind, Reads-last, Reads-primitive, ReadsAll-bind, ReadsAll-last,
}
use cpp_owl_common.Netbuffer.Reader.Sequences.{Reads-uint32, Reads-sized_utf16, Reads-loop}
use cpp_owl_common.Message.Draft.Laws.{
  frame, length-frame, make-frame, Emits, Emits-seq, Emits-id, Emits-count, Emits-each, Emits-uint8,
  Emits-uint32, Emits-utf16, Emits-sized_utf16, Emits-eq,
}
use cpp_owl_common.Message.Decode.{or_failure, read_rest_utf16, checked}
use cpp_owl_common.Message.Decode.Laws.{
  ReadsAll-rest_utf16, read_header-frame, checked-own, checked-other, behind_header,
}
use cpp_owl_common.WorldModel.Types.{U16String, IsString, IsU32}
use cpp_owl_common.WorldModel.Solver.Announce.{
  AliasType, push_alias, make_type_announce_msg, read_alias, read_aliases, read_announce,
  decode_type_announce_msg,
}

pub record IsAlias (a : AliasType) : Type 0 where
  pub alias_ok : IsU32 a.alias
  pub type_ok : IsString a.type

unfoldable pub wire_alias : AliasType → List ℕ
wire_alias a =
    big_bytes 4 a.alias ++ (sized_utf16 a.type ++ big_bytes 1 (if a.on_demand then 1 else 0))

-- The number of aliases, and each alias; the origin follows.
unfoldable pub wire_aliases : List AliasType → List ℕ
wire_aliases aliases = big_bytes 4 (length aliases) ++ wires wire_alias aliases

Emits-alias : (h : Host) (a : AliasType) → Emits (push_alias h a) (wire_alias a)
unfolding push_alias wire_alias
Emits-alias h a =
    Emits-seq (Emits-uint32 h a.alias)
      (Emits-seq (Emits-sized_utf16 h a.type) (Emits-uint8 h (if a.on_demand then 1 else 0)))

-- A type announcement is, on either host, the frame of its type, the number of aliases, the aliases
-- and the code units of the origin, all in network order.
pub make_type_announce_msg-frame :
    (h : Host) (aliases : List AliasType) (origin : U16String)
    → make_type_announce_msg h aliases origin
      ≡ frame (1 ∷ (wire_aliases aliases ++ wires (big_bytes 2) origin))
unfolding make_type_announce_msg wire_aliases
make_type_announce_msg-frame h aliases origin = make-frame h (
    Emits-seq (Emits-id h 1 (omega arith)) (
      Emits-eq
        (sym (
          append_assoc (big_bytes 4 (length aliases)) (wires wire_alias aliases)
            (wires (big_bytes 2) origin)))
        (Emits-seq (Emits-count h (length aliases))
          (Emits-seq (Emits-each wire_alias aliases (Emits-alias h)) (Emits-utf16 h origin)))))

flag-small : (b : Bool) → (if b then 1 else 0) < 256 ^ 1
flag-small b = ground arith

flag-back : (b : Bool) → not ((if b then 1 else 0) == 0) ≡ b
flag-back true = refl
flag-back false = refl

Reads-alias : (h : Host) (a : AliasType) → IsAlias a → Reads h (read_alias h) (wire_alias a) a
unfolding read_alias wire_alias
Reads-alias h a ok =
    let flag : ℕ = if a.on_demand then 1 else 0 in
    subst (λ d. Reads h (read_alias h) (wire_alias a) (record a { on_demand = d }))
      (flag-back a.on_demand)
      (Reads-bind h _ (Reads-uint32 h a.alias ok.alias_ok) (
        Reads-bind h _ (Reads-sized_utf16 h a.type ok.type_ok) (
          Reads-last h (λ (d : ℕ). record a { on_demand = not (d == 0) })
            (Reads-primitive h wire8 flag (flag-small a.on_demand)))))

Reads-aliases :
    (h : Host) (aliases : List AliasType)
    → All IsAlias aliases
    → IsU32 (length aliases)
    → Reads h (read_aliases h) (wire_aliases aliases) aliases
unfolding read_aliases wire_aliases
Reads-aliases h aliases ok few =
    Reads-bind h _ (Reads-uint32 h (length aliases) few)
      (Reads-loop h wire_alias IsAlias (Reads-alias h) aliases [] ok)

announce_rest : Host → List AliasType → Read (List AliasType × U16String)
announce_rest h aliases = read_rest_utf16 h >>= λ origin. pure (aliases, origin)

-- The decoder behind the header, with what the test of the header let through.
read_announce-frame :
    (h : Host) (k : ℕ) (bs : List ℕ)
    → k < 256
    → length (frame (k ∷ bs)) < u32_mod
    → read_announce h (new_reader h (frame (k ∷ bs)) true)
      ≡ (checked 1 (read_aliases h) [] (suc (length bs), k) >>= announce_rest h)
          (behind_header h k bs)
unfolding read_announce announce_rest ◌>>=◌
read_announce-frame h k bs bk b =
    ap (λ (p : (ℕ × ℕ) × BuffReader). (checked 1 (read_aliases h) [] p.0 >>= announce_rest h) p.1)
      (read_header-frame h k bs bk b)

-- What the test of the header let through goes on to the origin.
announce_checked :
    (h : Host) (header : ℕ × ℕ) (r : BuffReader) {a : List AliasType} {r' : BuffReader}
    → checked 1 (read_aliases h) [] header r ≡ (a, r')
    → (checked 1 (read_aliases h) [] header >>= announce_rest h) r ≡ announce_rest h a r'
unfolding ◌>>=◌
announce_checked h header r e = ap (λ (p : List AliasType × BuffReader). announce_rest h p.0 p.1) e

announce_body :
    (h : Host) (aliases : List AliasType) (origin : U16String)
    → All IsAlias aliases
    → IsU32 (length aliases)
    → IsString origin
    → ReadsAll {A = List AliasType × U16String} h
        (read_aliases h >>= announce_rest h)
        (wire_aliases aliases ++ wires (big_bytes 2) origin)
        (aliases, origin)
unfolding announce_rest
announce_body h aliases origin ok few origin_ok =
    ReadsAll-bind h _ (Reads-aliases h aliases ok few)
      (ReadsAll-last h (λ (o : U16String). (aliases, o)) (ReadsAll-rest_utf16 h origin origin_ok))

announce_own :
    (h : Host) (bs : List ℕ)
    → length (frame (1 ∷ bs)) < u32_mod
    → (checked 1 (read_aliases h) [] (suc (length bs), 1) >>= announce_rest h)
        (behind_header h 1 bs)
      ≡ (read_aliases h >>= announce_rest h) (behind_header h 1 bs)
unfolding ◌>>=◌
announce_own h bs b =
    ap (λ (p : List AliasType × BuffReader). announce_rest h p.0 p.1)
      (checked-own h 1 (read_aliases h) [] bs b)

origin_alone :
    (h : Host) (str : U16String)
    → IsString str
    → ReadsAll {A = List AliasType × U16String} h
        (announce_rest h [])
        (wires (big_bytes 2) str)
        ([], str)
unfolding announce_rest
origin_alone h str ok = ReadsAll-last h (λ (o : U16String). ([], o)) (ReadsAll-rest_utf16 h str ok)

-- An announcement made on any host, and decoded on any host, gives the aliases and the origin, if
-- the values fit their types and the message is shorter than 2 ^ 32 bytes.
pub decode-make_type_announce_msg :
    (h h' : Host) (aliases : List AliasType) (origin : U16String)
    → All IsAlias aliases
    → IsU32 (length aliases)
    → IsString origin
    → IsU32 (length (make_type_announce_msg h aliases origin))
    → decode_type_announce_msg h' (make_type_announce_msg h aliases origin) ≡ (aliases, origin)
unfolding decode_type_announce_msg or_failure
decode-make_type_announce_msg h h' aliases origin ok few origin_ok fits =
    let body = wire_aliases aliases ++ wires (big_bytes 2) origin in
    let fits' =
      subst (λ b. IsU32 (length b)) (make_type_announce_msg-frame h aliases origin) fits in
    let front = big_bytes 4 (suc (length body)) ++ (1 ∷ []) in
    ap (λ (b : List ℕ). or_failure ([], []) (read_announce h' (new_reader h' b true)))
      (make_type_announce_msg-frame h aliases origin)
    ∙ ap (or_failure ([], [])) (
        read_announce-frame h' 1 body (omega arith) fits'
        ∙ announce_own h' body fits'
        ∙ (announce_body h' aliases origin ok few origin_ok).at front (
            omega (
              arith,
              length-append (big_bytes 4 (suc (length body))) (1 ∷ []),
              length-big_bytes 4 (suc (length body)),
              length-frame (1 ∷ body),
            )))

-- On a message of another type whose body is the code units of a string, the decoder returns that
-- string as the origin, and not the empty origin of a failure, if the type is a byte, the code units
-- fit 16 bits and the message is shorter than 2 ^ 32 bytes.
pub decode_type_announce_msg-other :
    (h : Host) (k : ℕ) (str : U16String)
    → k < 256
    → k ≢ 1
    → IsString str
    → IsU32 (length (frame (k ∷ wires (big_bytes 2) str)))
    → decode_type_announce_msg h (frame (k ∷ wires (big_bytes 2) str)) ≡ ([], str)
unfolding decode_type_announce_msg or_failure
decode_type_announce_msg-other h k str bk ne ok fits =
    let body = wires (big_bytes 2) str in
    let front = big_bytes 4 (suc (length body)) ++ (k ∷ []) in
    ap (or_failure ([], [])) (
      read_announce-frame h k body bk fits
      ∙ announce_checked h (suc (length body), k) (behind_header h k body)
          (checked-other h 1 k (read_aliases h) [] body ne fits)
      ∙ (origin_alone h str ok).at front (
          omega (
            arith,
            length-append (big_bytes 4 (suc (length body))) (k ∷ []),
            length-big_bytes 4 (suc (length body)),
            length-frame (k ∷ body),
          )))
