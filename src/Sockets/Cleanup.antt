-- ===== src/Sockets/Cleanup.antt =====
-- When the loop that reads what is left on a socket ends.
use cpp_owl_common.Prelude.{
  ℕ, ◌≡◌, refl, ap, ◌∙◌, List, [], ◌∷◌, Bool, true, false, not, Bool-cases, inl, inr, Option, none,
  some, ◌==◌, ◌||◌,
}
use cpp_owl_common.Sockets.{
  ClientSocket, ReadAnswer, Call, returned, goes_on, with_read, drain, shut_and_close,
  socket_cleanup, finish, after_cleanup, destroy,
}
use cpp_owl_common.Sockets.Stream.{has_returned}
use cpp_owl_common.Sockets.Connect.{ServerSocket, closed_server, destroy_server}

abbrev pub is_some {ℓ} : {A : Type ℓ} → Option A → Bool
is_some none = false
is_some (some a) = true

-- `read` returns 0, or errno is EWOULDBLOCK after it.
abbrev is_end : ReadAnswer → Bool
is_end answer = answer.would_block || elim answer.result [ none ↦ false | some n ↦ n == 0 ]

abbrev pub has_end : List ReadAnswer → Bool
has_end [] = false
has_end (answer ∷ answers) = is_end answer || has_end answers

is_some-with_read : (fd : ℕ) (d : Option (List Call)) → is_some (with_read fd d) ≡ is_some d
unfolding with_read
is_some-with_read fd none = refl
is_some-with_read fd (some calls) = refl

is_end-not :
    (result : Option ℕ) (would_block : Bool)
    → is_end (record { result = result; would_block = would_block })
      ≡ not (goes_on (record { result = result; would_block = would_block }))
unfolding goes_on
is_end-not none true = refl
is_end-not none false = refl
is_end-not (some n) true = elim (Bool-cases (n == 0)) [ inl e ↦ rw e | inr e ↦ rw e ]
is_end-not (some n) false = elim (Bool-cases (n == 0)) [ inl e ↦ rw e | inr e ↦ rw e ]

is_some-drain : (fd : ℕ) (answers : List ReadAnswer) → is_some (drain fd answers) ≡ has_end answers
unfolding drain
is_some-drain fd [] = refl
is_some-drain fd (answer ∷ answers) =
    let last : is_end answer ≡ not (goes_on answer) = is_end-not answer.result answer.would_block in
    elim (Bool-cases (goes_on answer)) [
      | inl more ↦
          let no_end : is_end answer ≡ false = last ∙ ap not more in
          rw (more, no_end) (is_some-with_read fd (drain fd answers) ∙ is_some-drain fd answers)
      | inr ends ↦ let end : is_end answer ≡ true = last ∙ ap not ends in rw (ends, end)
    ]

is_some-shut_and_close :
    (fd : ℕ) (d : Option (List Call)) → is_some (shut_and_close fd d) ≡ is_some d
unfolding shut_and_close
is_some-shut_and_close fd none = refl
is_some-shut_and_close fd (some calls) = refl

has_returned-finish_cleanup :
    (fd : ℕ) (d : Option (List Call)) (socket : ClientSocket)
    → has_returned (finish (returned tt) socket (shut_and_close fd d)).0 ≡ is_some d
unfolding finish shut_and_close
has_returned-finish_cleanup fd none socket = refl
has_returned-finish_cleanup fd (some calls) socket = refl

has_returned-cleanup :
    (answers : List ReadAnswer) (fd : ℕ) (socket : ClientSocket)
    → has_returned (finish (returned tt) socket (socket_cleanup answers (some fd))).0
      ≡ has_end answers
unfolding socket_cleanup
has_returned-cleanup answers fd socket =
    has_returned-finish_cleanup fd (drain fd answers) socket ∙ is_some-drain fd answers

is_some-cleanup :
    (answers : List ReadAnswer) (fd : ℕ)
    → is_some (socket_cleanup answers (some fd)) ≡ has_end answers
unfolding socket_cleanup
is_some-cleanup answers fd = is_some-shut_and_close fd (drain fd answers) ∙ is_some-drain fd answers

has_returned-destroy :
    (answers : List ReadAnswer) (fd : ℕ) (socket : ClientSocket)
    → socket.sock_fd ≡ some fd
    → has_returned (destroy answers socket).0 ≡ has_end answers
unfolding destroy after_cleanup
has_returned-destroy answers fd socket e =
    ap (λ (d : Option ℕ). has_returned (finish (returned tt) socket (socket_cleanup answers d)).0) e
    ∙ has_returned-cleanup answers fd socket

is_some-closed :
    (d : Option (Option ℕ × List Call)) (server : ServerSocket)
    → is_some (closed_server server d) ≡ is_some d
unfolding closed_server
is_some-closed none server = refl
is_some-closed (some (fd, calls)) server = refl

is_some-destroy_server :
    (answers : List ReadAnswer) (fd : ℕ) (server : ServerSocket)
    → server.sock_fd ≡ some fd
    → is_some (destroy_server answers server) ≡ has_end answers
unfolding destroy_server
is_some-destroy_server answers fd server e =
    is_some-closed (socket_cleanup answers server.sock_fd) server
    ∙ ap (λ (d : Option ℕ). is_some (socket_cleanup answers d)) e
    ∙ is_some-cleanup answers fd

-- The destructor of an open socket, a client's or a server's, ends exactly if one of the reads that
-- it makes returns 0 or leaves errno at EWOULDBLOCK; as long as they all fail in another way, as on a
-- socket that is not connected, it goes on reading.
pub destroy-ends :
    (answers : List ReadAnswer) (fd : ℕ) (socket : ClientSocket) (server : ServerSocket)
    → socket.sock_fd ≡ some fd
    → server.sock_fd ≡ some fd
    → (has_returned (destroy answers socket).0 ≡ has_end answers)
      × (is_some (destroy_server answers server) ≡ has_end answers)
destroy-ends answers fd socket server e e' =
    (has_returned-destroy answers fd socket e, is_some-destroy_server answers fd server e')
