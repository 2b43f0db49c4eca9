-- ===== src/Sockets/Progress.antt =====
-- The loop of `ClientSocket::send` ends.
use cpp_owl_common.Prelude.{
  ℕ, ◌+◌, ◌-◌, ◌%◌, ◌^◌, ◌<◌, ◌≤◌, ◌≡◌, refl, ap, subst, ◌∙◌, List, [], ◌∷◌, true, false,
  Bool-cases, inl, inr, Option, some, length, drop, ltb, arith,
}
use cpp_owl_common.Sockets.{
  ClientSocket, Call, send, returned, Run, logged, converted, taken_by, Round, send_loop,
  send_buffer,
}
use cpp_owl_common.Sockets.Stream.{
  count, converted-some, after_send, send_loop-done, send_loop-round, minus,
}

-- The socket is ready, and the system takes a byte or more of the `left` ones.
abbrev IsProgress : ℕ → Round → Type 0
IsProgress left round =
    (round.pollout ≡ true) × ((n : ℕ) × (round.answer.result ≡ some n) × (1 ≤ n) × (n ≤ left))

abbrev pub AreProgress : ℕ → List Round → Type 0
AreProgress left [] = Unit
AreProgress left (round ∷ rounds) =
    (0 < left → IsProgress left round) × AreProgress (left - count round.answer.result) rounds

result-logged : (calls : List Call) (run : Run (Unit {0})) → (logged calls run).0 ≡ run.0
unfolding logged
result-logged calls (result, socket, more) = refl

after_send-result :
    (arr : List ℕ) (written : ℕ) (round : Round) (rounds : List Round) (socket : ClientSocket)
    (next n : ℕ)
    → converted round.answer.result ≡ some n
    → (written + n) % 2 ^ 64 ≡ next
    → (after_send arr written round rounds socket).0 ≡ (send_loop arr next rounds socket).0
after_send-result arr written round rounds socket next n e same = rw (after_send, e, same)

module _ (arr : List ℕ) (fits : length arr < 2 ^ 31) where
  loop-returns :
      (rounds : List Round) (written : ℕ) (socket : ClientSocket)
      → length arr ≤ written + length rounds
      → AreProgress (length arr - written) rounds
      → (send_loop arr written rounds socket).0 ≡ returned tt
  unfolding send_loop
  loop-returns [] written socket enough progress =
      let done : ltb written (length arr) ≡ false = ground arith in
      ap (λ (run : Run (Unit {0})). run.0) (send_loop-done arr written [] socket done)
  loop-returns (round ∷ rounds) written socket enough (progress, rest) =
      elim (Bool-cases (ltb written (length arr))) [
        | inl more ↦
            let (ready, (n, e, some_bytes, b)) = progress (ground arith) in
            let same : (written + n) % 2 ^ 64 ≡ written + n = omega (arith, fits) in
            let rest' : AreProgress (length arr - (written + n)) rounds =
              subst (λ k. AreProgress k rounds)
                (ap (λ (a : Option ℕ). length arr - written - count a) e
                  ∙ minus (length arr) written n)
                rest in
            ap (λ (run : Run (Unit {0})). run.0)
              (send_loop-round arr written round rounds socket more ready)
            ∙ result-logged
                (send socket.sock_fd (taken_by round.answer.result (drop written arr)) ∷ [])
                (after_send arr written round rounds socket)
            ∙ after_send-result arr written round rounds socket (written + n) n
                (ap converted e ∙ converted-some n (omega (arith, fits))) same
            ∙ loop-returns rounds (written + n) socket (omega arith) rest'
        | inr done ↦
            ap (λ (run : Run (Unit {0})). run.0)
              (send_loop-done arr written (round ∷ rounds) socket done)
      ]

-- A call of `send` returns without an exception after as many rounds as the buffer has bytes, at the
-- latest, if in each of them the socket is ready and the system takes a byte or more, and no more than
-- it is given, and the buffer is shorter than 2 ^ 31 bytes.
pub send_buffer-returns :
    (rounds : List Round) (buff : List ℕ) (socket : ClientSocket)
    → length buff < 2 ^ 31
    → length buff ≤ length rounds
    → AreProgress (length buff) rounds
    → (send_buffer rounds buff socket).0 ≡ returned tt
unfolding send_buffer
send_buffer-returns rounds buff socket fits enough progress =
    let whole : length buff - 0 ≡ length buff = omega arith in
    loop-returns buff fits rounds 0 socket (omega arith) (rw whole progress)
