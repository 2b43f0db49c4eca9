-- ===== src/Sockets.antt =====
-- simple_sockets.cpp: `ClientSocket` but for its constructor that connects, and `ServerSocket::next`.
-- What the system calls answer is given beforehand, and the calls that matter are written down.
mod Texts
pub mod Stream
pub mod Progress
pub mod Delivery
pub mod Retry
pub mod Connect
pub mod Store
pub mod Cleanup
pub mod Serving
pub mod Ownership
use cpp_owl_common.Prelude.{
  ℕ, ◌+◌, ◌-◌, ◌%◌, ◌^◌, List, [], ◌∷◌, ◌++◌, Bool, true, false, not, Option, none, some, length,
  take, drop, ltb, ◌==◌, ◌&&◌, ◌||◌, if◌then◌else◌,
}
use Texts.{
  broken_pipe, closed_by_receiver, error_sending, error_connecting, socket_error,
  remote_disconnected, bad_descriptor,
}

-- `sock_fd` is none where the code has a negative number.
pub record ClientSocket : Type 0 where
  pub port : ℕ
  pub ip_address : List ℕ
  pub sock_fd : Option ℕ

-- The flags of `revents` when `poll` is back.
pub record Revents : Type 0 where
  pub pollout : Bool
  pub pollerr : Bool
  pub pollhup : Bool
  pub pollnval : Bool

-- The result of a call is none for -1.
pub record PollAnswer : Type 0 where
  pub result : Option ℕ
  pub revents : Revents

-- What `read` returns, and whether errno is EWOULDBLOCK after it.
pub record ReadAnswer : Type 0 where
  pub result : Option ℕ
  pub would_block : Bool

-- What `::send` returns, and the text for errno after it.
pub record SendAnswer : Type 0 where
  pub result : Option ℕ
  pub error_text : List ℕ

-- The calls on a descriptor, the bytes that `::send` took with it.
pub data Call : Type 0 where
  shutdown : ℕ → Call
  read : ℕ → Call
  close : ℕ → Call
  send : Option ℕ → List ℕ → Call

pub data Exception : Type 0 where
  temporarily_unavailable : Exception
  runtime_error : List ℕ → Exception

-- `running`: the answers are used up, and the call has not come back.
pub data Result (A : Type 0) : Type 0 where
  returned : A → Result A
  thrown : Exception → Result A
  running : Result A

-- A call of a member function: its result, the socket after it, and the calls of the system.
abbrev pub Run : Type 0 → Type 0
Run A = Result A × ClientSocket × List Call

unfoldable pub logged : {A : Type 0} → List Call → Run A → Run A
logged calls (result, socket, more) = (result, socket, calls ++ more)

-- `0 != read(sock_fd, buff, sizeof(buff)) and EWOULDBLOCK != errno`
unfoldable pub goes_on : ReadAnswer → Bool
goes_on answer = elim answer.result [
  | none ↦ not answer.would_block
  | some n ↦ not (n == 0) && not answer.would_block
]

unfoldable pub with_read : ℕ → Option (List Call) → Option (List Call)
with_read fd none = none
with_read fd (some calls) = some (read fd ∷ calls)

-- The loop that reads what is left: none if it has not ended when the answers are used up.
unfoldable pub drain : ℕ → List ReadAnswer → Option (List Call)
unfolding goes_on with_read
drain fd [] = none
drain fd (answer ∷ answers) =
    let rest = drain fd answers in if goes_on answer then with_read fd rest else some (read fd ∷ [])

-- What stands around that loop. `sock_fd` is set to -1.
unfoldable pub shut_and_close : ℕ → Option (List Call) → Option (Option ℕ × List Call)
shut_and_close fd none = none
shut_and_close fd (some calls) = some (none, shutdown fd ∷ (calls ++ (close fd ∷ [])))

-- `socketCleanup`: its result is `sock_fd` after it.
unfoldable pub socket_cleanup : List ReadAnswer → Option ℕ → Option (Option ℕ × List Call)
unfolding drain shut_and_close
socket_cleanup answers none = some (none, [])
socket_cleanup answers (some fd) = shut_and_close fd (drain fd answers)

unfoldable pub finish :
    {A : Type 0} → Result A → ClientSocket → Option (Option ℕ × List Call) → Run A
finish result socket none = (running, socket, [])
finish result socket (some (fd, calls)) = (result, record socket { sock_fd = fd }, calls)

-- `socketCleanup(sock_fd);` and what follows it.
unfoldable pub after_cleanup : {A : Type 0} → List ReadAnswer → Result A → ClientSocket → Run A
unfolding socket_cleanup finish
after_cleanup answers result socket = finish result socket (socket_cleanup answers socket.sock_fd)

-- The constructor that takes a socket, `operator bool`, `port` and `ip_address` are the record.
unfoldable pub is_open : ClientSocket → Bool
is_open socket = elim socket.sock_fd [ none ↦ false | some fd ↦ true ]

unfoldable pub destroy : List ReadAnswer → ClientSocket → Run (Unit {0})
unfolding after_cleanup
destroy answers socket = after_cleanup answers (returned tt) socket

-- `(ufd.revents & (POLLERR | POLLHUP | POLLNVAL)) != 0`
unfoldable pub has_error : Revents → Bool
has_error revents = revents.pollerr || (revents.pollhup || revents.pollnval)

-- The text of the first flag that is set.
unfoldable pub revents_text : Revents → List ℕ
revents_text revents =
    if revents.pollerr
    then socket_error
    else (if revents.pollhup
        then remote_disconnected
        else (if revents.pollnval then bad_descriptor else []))

-- `result == 1`
unfoldable pub is_one : Option ℕ → Bool
is_one none = false
is_one (some n) = n == 1

unfoldable pub input_ready : PollAnswer → List ReadAnswer → ClientSocket → Run Bool
unfolding after_cleanup has_error revents_text is_one
input_ready answer answers socket =
    if is_one answer.result && not (has_error answer.revents)
    then (returned true, socket, [])
    else (if has_error answer.revents
        then after_cleanup answers
            (thrown (runtime_error (error_connecting ++ revents_text answer.revents))) socket
        else (returned false, socket, []))

-- The result of `receive`, and the buffer with the bytes that `read` wrote to its front.
unfoldable pub receive : Option (List ℕ) → List ℕ → Option ℕ × List ℕ
receive none buff = (none, buff)
receive (some bytes) buff = (some (length bytes), bytes ++ drop (length bytes) buff)

unfoldable pub same_text : List ℕ → List ℕ → Bool
same_text [] [] = true
same_text [] (y ∷ ys) = false
same_text (x ∷ xs) [] = false
same_text (x ∷ xs) (y ∷ ys) = let rest = same_text xs ys in x == y && rest

unfoldable pub send_error_text : List ℕ → List ℕ
unfolding same_text
send_error_text error_text =
    error_sending ++ (if same_text error_text broken_pipe then closed_by_receiver else error_text)

-- `int result = ::send(...)` as it is added to the uint64_t `written`: none for -1.
unfoldable pub converted : Option ℕ → Option ℕ
converted none = none
converted (some n) =
    let low = n % 2 ^ 32 in
    if low == 2 ^ 32 - 1
    then none
    else (if ltb low (2 ^ 31) then some low else some (low + (2 ^ 64 - 2 ^ 32)))

-- The bytes that the system took.
unfoldable pub taken_by : Option ℕ → List ℕ → List ℕ
taken_by none bytes = []
taken_by (some n) bytes = take n bytes

-- One round of the loop of `send`: whether `revents` has POLLOUT, what `::send` answers, and what
-- `read` answers when the socket is cleaned up.
pub record Round : Type 0 where
  pub pollout : Bool
  pub answer : SendAnswer
  pub reads : List ReadAnswer

unfoldable pub send_loop : List ℕ → ℕ → List Round → ClientSocket → Run (Unit {0})
unfolding logged after_cleanup send_error_text converted taken_by
send_loop arr written [] socket =
    (if ltb written (length arr) then running else returned tt, socket, [])
send_loop arr written (round ∷ rounds) socket = elim (ltb written (length arr)) [
  | false ↦ (returned tt, socket, [])
  | true ↦ elim round.pollout [
    | false ↦ (thrown temporarily_unavailable, socket, [])
    | true ↦
        logged (send socket.sock_fd (taken_by round.answer.result (drop written arr)) ∷ [])
          (elim (converted round.answer.result) [
            | none ↦
                after_cleanup round.reads
                  (thrown (runtime_error (send_error_text round.answer.error_text))) socket
            | some n ↦ send_loop arr ((written + n) % 2 ^ 64) rounds socket
          ])
  ]
]

unfoldable pub send_buffer : List Round → List ℕ → ClientSocket → Run (Unit {0})
unfolding send_loop
send_buffer rounds buff socket = send_loop buff 0 rounds socket
