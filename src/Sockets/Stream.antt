-- ===== src/Sockets/Stream.antt =====
-- The loop of `ClientSocket::send`: what the system has taken of a buffer when the call ends.
use cpp_owl_common.Prelude.{
  ℕ, ◌+◌, ◌-◌, ◌%◌, ◌^◌, ◌<◌, ◌≤◌, ◌≡◌, refl, sym, ap, subst, ◌∙◌, List, [], ◌∷◌, ◌++◌,
  append_assoc, Bool, true, false, Bool-cases, inl, inr, Option, none, some, length, take, drop,
  take-append-drop, drop-drop, drop_all, ltb, ◌==◌, lt→ltb, ne→==, arith,
}
use cpp_owl_common.Sockets.{
  ClientSocket, ReadAnswer, Call, shutdown, read, close, send, Exception, runtime_error,
  temporarily_unavailable, Result, returned, thrown, running, Run, logged, goes_on, with_read,
  drain, shut_and_close, socket_cleanup, finish, after_cleanup, converted, taken_by,
  send_error_text, Round, send_loop, send_buffer,
}

-- The bytes that the system took, in the order of the calls.
abbrev pub taken : List Call → List ℕ
taken [] = []
taken (send fd bytes ∷ calls) = bytes ++ taken calls
taken (_ ∷ calls) = taken calls

pub taken-append : (xs ys : List Call) → taken (xs ++ ys) ≡ taken xs ++ taken ys
taken-append [] ys = refl
taken-append (send fd bytes ∷ xs) ys =
    ap (λ (x : List ℕ). bytes ++ x) (taken-append xs ys)
    ∙ sym (append_assoc bytes (taken xs) (taken ys))
taken-append (shutdown fd ∷ xs) ys = taken-append xs ys
taken-append (read fd ∷ xs) ys = taken-append xs ys
taken-append (close fd ∷ xs) ys = taken-append xs ys

abbrev pub has_returned : {A : Type 0} → Result A → Bool
has_returned (returned a) = true
has_returned (thrown e) = false
has_returned running = false

-- `::send` does not take more bytes than it is given, as long as any are left.
abbrev IsHonest : ℕ → Option ℕ → Type 0
IsHonest left none = Unit
IsHonest left (some n) = n ≤ left

abbrev pub count : Option ℕ → ℕ
count none = 0
count (some n) = n

abbrev pub AreHonest : ℕ → List Round → Type 0
AreHonest left [] = Unit
AreHonest left (round ∷ rounds) =
    (0 < left → IsHonest left round.answer.result)
    × AreHonest (left - count round.answer.result) rounds

-- What is true of the calls of a run of `send` that has `bytes` to send.
pub record Sends (run : Run (Unit {0})) (bytes : List ℕ) : Type 0 where
  pub unsent : List ℕ
  pub in_order : taken run.2 ++ unsent ≡ bytes
  pub all_sent : has_returned run.0 ≡ true → unsent ≡ []

abbrev taken_if : Option (List Call) → List ℕ
taken_if none = []
taken_if (some calls) = taken calls

taken-with_read :
    (fd : ℕ) (d : Option (List Call)) → taken_if d ≡ [] → taken_if (with_read fd d) ≡ []
unfolding with_read
taken-with_read fd none e = e
taken-with_read fd (some calls) e = e

-- No bytes are sent while a socket is cleaned up.
taken-drain : (fd : ℕ) (answers : List ReadAnswer) → taken_if (drain fd answers) ≡ []
unfolding drain
taken-drain fd [] = refl
taken-drain fd (answer ∷ answers) = elim (Bool-cases (goes_on answer)) [
  | inl more ↦ rw more (taken-with_read fd (drain fd answers) (taken-drain fd answers))
  | inr last ↦ rw last
]

taken-shut_and_close :
    (fd : ℕ) (d : Option (List Call)) {A : Type 0} (result : Result A) (socket : ClientSocket)
    → taken_if d ≡ []
    → taken (finish result socket (shut_and_close fd d)).2 ≡ []
unfolding shut_and_close finish
taken-shut_and_close fd none result socket e = refl
taken-shut_and_close fd (some calls) result socket e =
    taken-append calls (close fd ∷ []) ∙ ap (λ (x : List ℕ). x ++ []) e

taken-after_cleanup :
    {A : Type 0} (answers : List ReadAnswer) (result : Result A) (fd : Option ℕ)
    (socket : ClientSocket)
    → taken (finish result socket (socket_cleanup answers fd)).2 ≡ []
unfolding socket_cleanup finish
taken-after_cleanup answers result none socket = refl
taken-after_cleanup answers result (some fd) socket =
    taken-shut_and_close fd (drain fd answers) result socket (taken-drain fd answers)

has_returned-finish :
    (e : Exception) (socket : ClientSocket) (c : Option (Option ℕ × List Call))
    → has_returned (finish {A = Unit} (thrown e) socket c).0 ≡ false
unfolding finish
has_returned-finish e socket none = refl
has_returned-finish e socket (some (fd, calls)) = refl

-- `written` is added to as a number, while it stays below 2 ^ 31.
pub converted-some : (n : ℕ) → n < 2 ^ 31 → converted (some n) ≡ some n
unfolding converted
converted-some n b =
    let same : n % 2 ^ 32 ≡ n = omega arith in
    let fine : (n % 2 ^ 32 == 2 ^ 32 - 1) ≡ false = ne→== _ _ (omega arith) in
    let small : ltb (n % 2 ^ 32) (2 ^ 31) ≡ true = lt→ltb _ _ (omega arith) in
    rw (fine, small) (ap some same)

converted-none : converted none ≡ none
unfolding converted
converted-none = refl

Sends-nothing :
    (run : Run (Unit {0})) (bytes : List ℕ)
    → has_returned run.0 ≡ false
    → taken run.2 ≡ []
    → Sends run bytes
Sends-nothing run bytes fails e = record {
  unsent = bytes;
  in_order = ap (λ (x : List ℕ). x ++ bytes) e;
  all_sent = λ returns. ground arith;
}

Sends-logged :
    (fd : Option ℕ) (n : ℕ) (bytes : List ℕ) (run : Run (Unit {0}))
    → Sends run (drop n bytes)
    → Sends (logged (send fd (take n bytes) ∷ []) run) bytes
unfolding logged
Sends-logged fd n bytes (result, socket, calls) s = record {
  unsent = s.unsent;
  in_order =
      append_assoc (take n bytes) (taken calls) s.unsent
      ∙ ap (λ (x : List ℕ). take n bytes ++ x) s.in_order
      ∙ take-append-drop n bytes;
  all_sent = s.all_sent;
}

-- The round that follows when bytes are left and the socket is ready.
abbrev pub after_send : List ℕ → ℕ → Round → List Round → ClientSocket → Run (Unit {0})
after_send arr written round rounds socket = elim (converted round.answer.result) [
  | none ↦
      after_cleanup round.reads (thrown (runtime_error (send_error_text round.answer.error_text)))
        socket
  | some n ↦ send_loop arr ((written + n) % 2 ^ 64) rounds socket
]

pub send_loop-done :
    (arr : List ℕ) (written : ℕ) (rounds : List Round) (socket : ClientSocket)
    → ltb written (length arr) ≡ false
    → send_loop arr written rounds socket ≡ (returned tt, socket, [])
unfolding send_loop
send_loop-done arr written [] socket done = rw done
send_loop-done arr written (round ∷ rounds) socket done = rw (send_loop, done)

send_loop-busy :
    (arr : List ℕ) (written : ℕ) (round : Round) (rounds : List Round) (socket : ClientSocket)
    → ltb written (length arr) ≡ true
    → round.pollout ≡ false
    → send_loop arr written (round ∷ rounds) socket ≡ (thrown temporarily_unavailable, socket, [])
unfolding send_loop
send_loop-busy arr written round rounds socket more busy = rw (send_loop, more, busy)

pub send_loop-round :
    (arr : List ℕ) (written : ℕ) (round : Round) (rounds : List Round) (socket : ClientSocket)
    → ltb written (length arr) ≡ true
    → round.pollout ≡ true
    → send_loop arr written (round ∷ rounds) socket
      ≡ logged
          (send socket.sock_fd (taken_by round.answer.result (drop written arr)) ∷ [])
          (after_send arr written round rounds socket)
unfolding send_loop
send_loop-round arr written round rounds socket more ready = rw (send_loop, more, ready)

pub minus : (a b c : ℕ) → a - b - c ≡ a - (b + c)
minus a b c = omega arith

module _ (arr : List ℕ) (fits : length arr < 2 ^ 31) where
  -- One call of `::send`, if the rounds after it are right.
  answer-Sends :
      (answer : Option ℕ) (written : ℕ) (fd : Option ℕ) (failure : Run (Unit {0}))
      (next : ℕ → Run (Unit {0}))
      → written ≤ length arr
      → IsHonest (length arr - written) answer
      → Sends failure (drop written arr)
      → (written + count answer ≤ length arr
          → Sends (next (written + count answer)) (drop (written + count answer) arr))
      → Sends
          (logged
            (send fd (taken_by answer (drop written arr)) ∷ [])
            (elim (converted answer) [ none ↦ failure | some n ↦ next ((written + n) % 2 ^ 64) ]))
          (drop written arr)
  unfolding taken_by
  answer-Sends none written fd failure next b honest failed go =
      rw converted-none (Sends-logged fd 0 (drop written arr) failure failed)
  answer-Sends (some n) written fd failure next b honest failed go =
      let same : (written + n) % 2 ^ 64 ≡ written + n = omega (arith, fits) in
      let goes : Sends (next (written + n)) (drop n (drop written arr)) =
        rw (drop-drop n written arr) (go (omega arith)) in
      rw (converted-some n (omega (arith, fits)), same)
        (Sends-logged fd n (drop written arr) (next (written + n)) goes)

  -- The loop with `written` bytes sent.
  loop-Sends :
      (rounds : List Round) (written : ℕ) (socket : ClientSocket)
      → written ≤ length arr
      → AreHonest (length arr - written) rounds
      → Sends (send_loop arr written rounds socket) (drop written arr)
  unfolding send_loop after_cleanup
  loop-Sends [] written socket b honest = elim (Bool-cases (ltb written (length arr))) [
    | inl more ↦ rw more (Sends-nothing (running, socket, []) (drop written arr) refl refl)
    | inr done ↦ rw done (record {
      unsent = drop written arr;
      in_order = refl;
      all_sent = λ _. drop_all written arr (ground arith);
    })
  ]
  loop-Sends (round ∷ rounds) written socket b (honest, rest) =
      elim (Bool-cases (ltb written (length arr))) [
        | inl more ↦ elim (Bool-cases round.pollout) [
          | inl ready ↦ rw (send_loop-round arr written round rounds socket more ready) (
              answer-Sends round.answer.result written socket.sock_fd _
                (λ (w : ℕ). send_loop arr w rounds socket) b (honest (ground arith))
                (Sends-nothing _ (drop written arr) (has_returned-finish _ socket _)
                  (taken-after_cleanup round.reads _ socket.sock_fd socket))
                (λ b'.
                  loop-Sends rounds (written + count round.answer.result) socket b'
                    (subst (λ k. AreHonest k rounds) (minus (length arr) written _) rest)))
          | inr busy ↦
              rw (send_loop-busy arr written round rounds socket more busy)
                (Sends-nothing _ (drop written arr) refl refl)
        ]
        | inr done ↦ rw (send_loop-done arr written (round ∷ rounds) socket done) (record {
          unsent = drop written arr;
          in_order = refl;
          all_sent = λ _. drop_all written arr (ground arith);
        })
      ]

-- What the system has taken of a buffer shorter than 2 ^ 31 bytes is the front of it when a call of
-- `send` ends, whatever the answers are, and all of it if the call returns without an exception, if
-- no call of the system takes more bytes than it is given.
pub send_buffer-Sends :
    (rounds : List Round) (buff : List ℕ) (socket : ClientSocket)
    → length buff < 2 ^ 31
    → AreHonest (length buff) rounds
    → Sends (send_buffer rounds buff socket) buff
unfolding send_buffer
send_buffer-Sends rounds buff socket fits honest =
    let whole : length buff - 0 ≡ length buff = omega arith in
    loop-Sends buff fits rounds 0 socket (omega arith) (rw whole honest)
