-- ===== src/WorldModel/KeepAlive.antt =====
-- `makeKeepAlive` of the namespaces client and solver.
use cpp_owl_common.Prelude.{ℕ, ◌≡◌, ap, ◌∙◌, List, [], ◌∷◌, arith}
use cpp_owl_common.Netbuffer.Endian.{Host, big_bytes}
use cpp_owl_common.Netbuffer.Primitive.{uint8}
use cpp_owl_common.Netbuffer.Primitive.Laws.{wire32}
use cpp_owl_common.Netbuffer.Push.{push_back_val}
use cpp_owl_common.Netbuffer.Push.Laws.{push_back_val-Appends}
use cpp_owl_common.Message.Draft.{Draft, ◌>>◌, empty, counted, uncounted, push_total}
use cpp_owl_common.Message.Draft.Laws.{frame, Emits-id}
use cpp_owl_common.WorldModel.Client.Ticket
use cpp_owl_common.WorldModel.Solver.Announce

keep_alive_frame :
    (h : Host)
    → ((do push_total h; counted (push_back_val h uint8 0)) (empty 1)).buff ≡ frame (0 ∷ [])
unfolding push_total uncounted ◌>>◌ frame
keep_alive_frame h =
    let room : List ℕ → Draft = λ x. record { buff = x; total_length = 1 } in
    ap (λ (x : List ℕ). (counted (push_back_val h uint8 0) (room x)).buff)
      (ap (λ (p : List ℕ × ℕ). p.0) (push_back_val-Appends h wire32 1 (omega arith) []))
    ∙ ap (λ (d : Draft). d.buff)
        ((Emits-id h 0 (omega arith)).at (room (big_bytes 4 1)) (omega arith))

-- The keep-alive messages of clients and solvers are, on any two hosts, the same five bytes: a frame
-- of the type zero and nothing else.
make_keep_alives-frame :
    (h h' : Host)
    → (Ticket.make_keep_alive h ≡ frame (0 ∷ [])) × (Announce.make_keep_alive h' ≡ frame (0 ∷ []))
unfolding Ticket.make_keep_alive Announce.make_keep_alive
make_keep_alives-frame h h' = (keep_alive_frame h, keep_alive_frame h')
