-- ===== src/Sockets/Store.antt =====
-- Objects of the class `ClientSocket` that live together: what the destructor, the move constructor
-- and the move assignment do to them, and which descriptors the system holds open.
use cpp_owl_common.Prelude.{
  ℕ, ◌<◌, ◌≡◌, List, [], ◌∷◌, Bool, true, false, not, Option, none, some, length, set, get_or, ◌==◌,
  ◌&&◌, ◌||◌, if◌then◌else◌,
}
use cpp_owl_common.Sockets.{
  ClientSocket, PollAnswer, ReadAnswer, Call, close, socket_cleanup, has_error, is_one,
}
use cpp_owl_common.Sockets.Connect.{ConnectAnswers, connect, ServerSocket, next}

-- The descriptors that the system has given out for these objects and that are open.
-- `misused`: a descriptor has been closed that was not open.
pub record System : Type 0 where
  pub is_open : ℕ → Bool
  pub misused : Bool

abbrev with_open : ℕ → System → System
with_open fd system = record system { is_open = λ x. if x == fd then true else system.is_open x }

abbrev pub with_closed : ℕ → System → System
with_closed fd system = record {
  is_open = λ x. if x == fd then false else system.is_open x;
  misused = system.misused || not (system.is_open fd);
}

abbrev pub carry_out : List Call → System → System
carry_out [] system = system
carry_out (close fd ∷ calls) system = carry_out calls (with_closed fd system)
carry_out (_ ∷ calls) system = carry_out calls system

-- The objects, by their place in the list. A destroyed object stays, with no descriptor.
pub record Store : Type 0 where
  pub objects : List ClientSocket
  pub system : System

abbrev no_socket : ClientSocket
no_socket = record { port = 0; ip_address = []; sock_fd = none }

-- The object at a place.
abbrev pub at : List ClientSocket → ℕ → ClientSocket
at objects i = get_or objects i no_socket

unfoldable pub cleaned : ℕ → Store → Option (Option ℕ × List Call) → Option Store
cleaned i store none = none
cleaned i store (some (fd, calls)) = some (record {
  objects = set store.objects i (record (at store.objects i) { sock_fd = fd });
  system = carry_out calls store.system;
})

-- `socketCleanup(sock_fd)` of an object, as its destructor calls it, and `inputReady` and `send`
-- when they fail: none while it is still reading.
unfoldable pub clean_up : List ReadAnswer → ℕ → Store → Option Store
unfolding socket_cleanup cleaned
clean_up answers i store = cleaned i store (socket_cleanup answers (at store.objects i).sock_fd)

-- `_port = other._port; _ip_address = other._ip_address; sock_fd = other.sock_fd;
-- other.sock_fd = -1;`, where `other` may be the same object.
unfoldable pub take_over : ℕ → ℕ → Store → Store
take_over i j store =
    let objects = set store.objects i (at store.objects j) in
    record store { objects = set objects j (record (at objects j) { sock_fd = none }) }

-- `operator=(ClientSocket&& other)`, with the object at `j` moved to the one at `i`.
unfoldable pub move_assign : List ReadAnswer → ℕ → ℕ → Store → Option Store
unfolding clean_up take_over
move_assign answers i j store = elim (clean_up answers i store) [
  | none ↦ none
  | some store' ↦ some (take_over i j store')
]

-- `ClientSocket(ClientSocket&& other)`: the new object comes first.
unfoldable pub move_construct : ℕ → Store → Store
move_construct j store = record store {
  objects =
      at store.objects j ∷ set store.objects j (record (at store.objects j) { sock_fd = none });
}

-- A new object, and what the calls that made it did.
unfoldable pub add : ClientSocket → List Call → Store → Store
add socket calls store = record {
  objects = socket ∷ store.objects;
  system = carry_out calls store.system;
}

unfoldable pub opens : ℕ → Store → Store
opens fd store = record store { system = with_open fd store.system }

-- `accept4` is called only if the poll says so, and gives out a descriptor if it succeeds.
unfoldable pub accept : PollAnswer → Option ℕ → Store → Store
unfolding opens is_one has_error
accept poll accepted store =
    if is_one poll.result && not (has_error poll.revents)
    then elim accepted [ none ↦ store | some fd ↦ opens fd store ]
    else store

-- What can happen. The system gives out a descriptor that is not open.
pub data Step : Store → Store → Type 0 where
  connecting :
      (answers : ConnectAnswers) (fd port : ℕ) (ip_address : List ℕ) (store : Store)
      → answers.made ≡ some fd
      → store.system.is_open fd ≡ false
      → Step store (
          add
            (connect answers port ip_address).0
            (connect answers port ip_address).1
            (opens fd store))
  not_connecting :
      (answers : ConnectAnswers) (port : ℕ) (ip_address : List ℕ) (store : Store)
      → answers.made ≡ none
      → Step store
          (add (connect answers port ip_address).0 (connect answers port ip_address).1 store)
  accepting :
      (poll : PollAnswer) (accepted : Option ℕ) (address : List ℕ) (server : ServerSocket)
      (store : Store)
      → ((fd : ℕ) → accepted ≡ some fd → store.system.is_open fd ≡ false)
      → Step store (add (next poll accepted address server) [] (accept poll accepted store))
  cleaning :
      (answers : List ReadAnswer) (i : ℕ) (store after : Store)
      → i < length store.objects
      → clean_up answers i store ≡ some after
      → Step store after
  assigning :
      (answers : List ReadAnswer) (i j : ℕ) (store after : Store)
      → i < length store.objects
      → j < length store.objects
      → move_assign answers i j store ≡ some after
      → Step store after
  constructing :
      (j : ℕ) (store : Store) → j < length store.objects → Step store (move_construct j store)

-- What can be reached from a program that has no sockets.
pub data Reachable : Store → Type 0 where
  start :
      (is_open : ℕ → Bool)
      → ((fd : ℕ) → is_open fd ≡ false)
      → Reachable (record { objects = []; system = record { is_open = is_open; misused = false } })
  step : (store after : Store) → Reachable store → Step store after → Reachable after
