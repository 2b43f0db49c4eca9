-- ===== src/Sockets/Connect.antt =====
-- The constructors of `ClientSocket` and `ServerSocket`, and `ServerSocket::next`.
use cpp_owl_common.Prelude.{
  ℕ, List, [], ◌∷◌, ◌++◌, Bool, true, false, not, Option, none, some, ◌==◌, ◌&&◌, if◌then◌else◌,
}
use cpp_owl_common.Sockets.{
  ClientSocket, PollAnswer, ReadAnswer, Call, close, socket_cleanup, has_error, is_one,
}

-- What the calls answer: `socket`, whether `getaddrinfo` returns 0, `connect` and whether errno is
-- EINPROGRESS after it, and the two calls of `poll`.
pub record ConnectAnswers : Type 0 where
  pub made : Option ℕ
  pub resolved : Bool
  pub connected : Option ℕ
  pub in_progress : Bool
  pub input : PollAnswer
  pub output : PollAnswer

-- The last of the two polls that is made.
unfoldable pub last_poll : ConnectAnswers → PollAnswer
unfolding has_error is_one
last_poll answers =
    if is_one answers.input.result && not (has_error answers.input.revents)
    then answers.output
    else answers.input

-- Whether the socket stays open after the polls: not after 0, nor after 1 with an error, nor after -1.
unfoldable pub stays_open : PollAnswer → Bool
unfolding has_error
stays_open poll = elim poll.result [
  | none ↦ false
  | some n ↦ if n == 0 then false else (if n == 1 then not (has_error poll.revents) else true)
]

unfoldable pub is_connected : ConnectAnswers → Bool
unfolding last_poll stays_open
is_connected answers = elim answers.connected [
  | none ↦ if answers.in_progress then stays_open (last_poll answers) else false
  | some n ↦ true
]

-- `ClientSocket(domain, type, protocol, port, ip_address, sock_flags)`
unfoldable pub connect : ConnectAnswers → ℕ → List ℕ → ClientSocket × List Call
unfolding is_connected
connect answers port ip_address =
    let socket : Option ℕ → ClientSocket =
      λ fd. record { port = port; ip_address = ip_address; sock_fd = fd } in
    elim answers.made [
      | none ↦ (socket none, [])
      | some fd ↦
          if answers.resolved && is_connected answers
          then (socket (some fd), [])
          else (socket none, close fd ∷ [])
    ]

pub record ServerSocket : Type 0 where
  pub port : ℕ
  pub sock_fd : Option ℕ

-- For an address of the list: what `socket` answers, and whether `bind` returns 0.
pub record AddressAnswer : Type 0 where
  pub made : Option ℕ
  pub bound : Bool

-- The loop over the addresses, with the value of `sock_fd` before it.
unfoldable pub bind_first : List AddressAnswer → Option ℕ → Option ℕ × List Call
bind_first [] sock_fd = (sock_fd, [])
bind_first (address ∷ addresses) sock_fd =
    let (fd', calls) = bind_first addresses none in
    elim address.made [
      | none ↦ (fd', calls)
      | some fd ↦ if address.bound then (some fd, []) else (fd', close fd ∷ calls)
    ]

unfoldable pub close_memory : Option ℕ → List Call
close_memory none = []
close_memory (some fd) = close fd ∷ []

-- `if (sock_fd >= 0) { int result = listen(sock_fd, 10); ... }`
unfoldable pub start_listening : Bool → Option ℕ → Option ℕ × List Call
start_listening listens none = (none, [])
start_listening listens (some fd) = if listens then (some fd, []) else (none, close fd ∷ [])

-- `ServerSocket(domain, type, sock_flags, port)`. `memory` is what `sock_fd` holds before it is set:
-- where `getaddrinfo` fails, that is what is closed.
unfoldable pub serve : Bool → List AddressAnswer → Bool → ℕ → Option ℕ → ServerSocket × List Call
unfolding bind_first close_memory start_listening
serve resolved addresses listens port memory =
    let (bound, calls) =
      if resolved then bind_first addresses memory else (none, close_memory memory) in
    let (listening, more) = start_listening listens bound in
    (record { port = port; sock_fd = listening }, calls ++ more)

unfoldable pub closed_server :
    ServerSocket → Option (Option ℕ × List Call) → Option (ServerSocket × List Call)
closed_server server none = none
closed_server server (some (fd, calls)) = some (record server { sock_fd = fd }, calls)

-- The destructor, which repeats the statements of `socketCleanup`: none while it is still reading.
unfoldable pub destroy_server : List ReadAnswer → ServerSocket → Option (ServerSocket × List Call)
unfolding socket_cleanup closed_server
destroy_server answers server = closed_server server (socket_cleanup answers server.sock_fd)

-- `ServerSocket::next`: what `poll` and `accept4` answer, and the address that `getnameinfo` writes.
unfoldable pub next : PollAnswer → Option ℕ → List ℕ → ServerSocket → ClientSocket
unfolding has_error is_one
next poll accepted address server =
    if is_one poll.result && not (has_error poll.revents)
    then elim accepted [
      | none ↦ record { port = server.port; ip_address = []; sock_fd = none }
      | some fd ↦ record { port = server.port; ip_address = address; sock_fd = some fd }
    ]
    else record { port = server.port; ip_address = []; sock_fd = none }
