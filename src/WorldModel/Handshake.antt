-- ===== src/WorldModel/Handshake.antt =====
-- `makeHandshakeMsg` of the namespaces client and solver, and those of the aggregator's and the
-- sensor's protocol, which repeat its statements: the protocol's name behind its length, and
-- two bytes for the version and the extension.
use cpp_owl_common.Prelude.{
  ℕ, ◌≡◌, ap, ◌∙◌, List, [], ◌∷◌, ◌++◌, length, replicate, ◌%◌, u32_mod, append_assoc, refl,
}
use cpp_owl_common.Netbuffer.Endian.{Host, big_bytes}
use cpp_owl_common.Netbuffer.Primitive.{uint32}
use cpp_owl_common.Netbuffer.Primitive.Laws.{wire32}
use cpp_owl_common.Netbuffer.Push.{Buffer, push_back_val_at}
use cpp_owl_common.Netbuffer.Push.Laws.{push_back_val_at-front, big_bytes-mod}

-- "GRAIL client protocol"
abbrev pub client_protocol_string : List ℕ
client_protocol_string =
    71 ∷ 82 ∷ 65 ∷ 73 ∷ 76 ∷ 32 ∷ 99 ∷ 108 ∷ 105 ∷ 101 ∷ 110 ∷ 116 ∷ 32 ∷ 112 ∷ 114 ∷ 111 ∷ 116
    ∷ 111 ∷ 99 ∷ 111 ∷ 108 ∷ []

-- "GRAIL world model protocol"
abbrev pub solver_protocol_string : List ℕ
solver_protocol_string =
    71 ∷ 82 ∷ 65 ∷ 73 ∷ 76 ∷ 32 ∷ 119 ∷ 111 ∷ 114 ∷ 108 ∷ 100 ∷ 32 ∷ 109 ∷ 111 ∷ 100 ∷ 101 ∷ 108
    ∷ 32 ∷ 112 ∷ 114 ∷ 111 ∷ 116 ∷ 111 ∷ 99 ∷ 111 ∷ 108 ∷ []

-- "GRAIL solver protocol"
abbrev pub aggregator_protocol_string : List ℕ
aggregator_protocol_string =
    71 ∷ 82 ∷ 65 ∷ 73 ∷ 76 ∷ 32 ∷ 115 ∷ 111 ∷ 108 ∷ 118 ∷ 101 ∷ 114 ∷ 32 ∷ 112 ∷ 114 ∷ 111 ∷ 116
    ∷ 111 ∷ 99 ∷ 111 ∷ 108 ∷ []

-- "GRAIL sensor protocol"
abbrev pub sensor_protocol_string : List ℕ
sensor_protocol_string =
    71 ∷ 82 ∷ 65 ∷ 73 ∷ 76 ∷ 32 ∷ 115 ∷ 101 ∷ 110 ∷ 115 ∷ 111 ∷ 114 ∷ 32 ∷ 112 ∷ 114 ∷ 111 ∷ 116
    ∷ 111 ∷ 99 ∷ 111 ∷ 108 ∷ []

-- The statements that the functions share.
unfoldable pub make_handshake_msg : Host → List ℕ → Buffer
make_handshake_msg h protocol_string =
    let buff = replicate 4 0 ++ protocol_string in
    let buff' = buff ++ (0 ∷ []) in
    let buff'' = buff' ++ (0 ∷ []) in
    (push_back_val_at h uint32 (length protocol_string % u32_mod) buff'' 0).0

unfoldable pub make_client_handshake_msg : Host → Buffer
make_client_handshake_msg h = make_handshake_msg h client_protocol_string

unfoldable pub make_solver_handshake_msg : Host → Buffer
make_solver_handshake_msg h = make_handshake_msg h solver_protocol_string

unfoldable pub make_aggregator_handshake_msg : Host → Buffer
make_aggregator_handshake_msg h = make_handshake_msg h aggregator_protocol_string

unfoldable pub make_sensor_handshake_msg : Host → Buffer
make_sensor_handshake_msg h = make_handshake_msg h sensor_protocol_string

make_handshake_msg-wire :
    (h : Host) (s : List ℕ) → make_handshake_msg h s ≡ big_bytes 4 (length s) ++ (s ++ (0 ∷ 0 ∷ []))
unfolding make_handshake_msg
make_handshake_msg-wire h s =
    ap (λ (b : List ℕ). (push_back_val_at h uint32 (length s % u32_mod) b 0).0)
      (append_assoc (replicate 4 0 ++ s) (0 ∷ []) (0 ∷ [])
        ∙ append_assoc (replicate 4 0) s (0 ∷ 0 ∷ []))
    ∙ ap (λ (p : List ℕ × ℕ). p.0)
        (push_back_val_at-front h wire32 (length s % u32_mod) (replicate 4 0) (s ++ (0 ∷ 0 ∷ []))
          refl)
    ∙ ap (λ (x : List ℕ). x ++ (s ++ (0 ∷ 0 ∷ []))) (big_bytes-mod (length s))

-- Each handshake is, on either host, the length of the protocol's name in four bytes, highest first,
-- the name, and two zero bytes, which the length does not count.
pub make_handshake_msgs-wire :
    (h : Host)
    → (make_client_handshake_msg h ≡ 0 ∷ 0 ∷ 0 ∷ 21 ∷ (client_protocol_string ++ (0 ∷ 0 ∷ [])))
      × (make_solver_handshake_msg h ≡ 0 ∷ 0 ∷ 0 ∷ 26 ∷ (solver_protocol_string ++ (0 ∷ 0 ∷ [])))
      × (make_aggregator_handshake_msg h
          ≡ 0 ∷ 0 ∷ 0 ∷ 21 ∷ (aggregator_protocol_string ++ (0 ∷ 0 ∷ [])))
      × (make_sensor_handshake_msg h ≡ 0 ∷ 0 ∷ 0 ∷ 21 ∷ (sensor_protocol_string ++ (0 ∷ 0 ∷ [])))
unfolding make_client_handshake_msg make_solver_handshake_msg make_aggregator_handshake_msg
    make_sensor_handshake_msg big_bytes
make_handshake_msgs-wire h = (
  make_handshake_msg-wire h client_protocol_string,
  make_handshake_msg-wire h solver_protocol_string,
  make_handshake_msg-wire h aggregator_protocol_string,
  make_handshake_msg-wire h sensor_protocol_string,
)
