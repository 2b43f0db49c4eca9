-- ===== src/Sockets/Serving.antt =====
-- `ServerSocket::ServerSocket` keeps no descriptor that it does not use.
use cpp_owl_common.Prelude.{
  ℕ, ◌≡◌, refl, ap, ◌∙◌, List, [], ◌∷◌, ◌++◌, append_assoc, Bool, true, false, Option, none, some,
  if◌then◌else◌,
}
use cpp_owl_common.Sockets.{Call, shutdown, read, close, send}
use cpp_owl_common.Sockets.Connect.{AddressAnswer, bind_first, start_listening, serve}

abbrev pub closed : List Call → List ℕ
closed [] = []
closed (close fd ∷ calls) = fd ∷ closed calls
closed (_ ∷ calls) = closed calls

abbrev pub held : Option ℕ → List ℕ
held none = []
held (some fd) = fd ∷ []

-- The descriptors that `socket` gives for the addresses, up to the first that can be bound.
abbrev pub opened : List AddressAnswer → List ℕ
opened [] = []
opened (address ∷ addresses) =
    let rest = opened addresses in
    elim address.made [ none ↦ rest | some fd ↦ if address.bound then fd ∷ [] else fd ∷ rest ]

closed-append : (front back : List Call) → closed (front ++ back) ≡ closed front ++ closed back
closed-append [] back = refl
closed-append (close fd ∷ front) back = ap (λ (x : List ℕ). fd ∷ x) (closed-append front back)
closed-append (shutdown fd ∷ front) back = closed-append front back
closed-append (read fd ∷ front) back = closed-append front back
closed-append (send fd bytes ∷ front) back = closed-append front back

address-bind_first :
    (made : Option ℕ) (bound : Bool) (rest : Option ℕ × List Call) (after : List ℕ)
    → closed rest.1 ++ held rest.0 ≡ after
    → (let r : Option ℕ × List Call = elim made [
      | none ↦ rest
      | some fd ↦ if bound then (some fd, []) else (rest.0, close fd ∷ rest.1)
    ] in
        closed r.1 ++ held r.0)
      ≡ elim made [ none ↦ after | some fd ↦ if bound then fd ∷ [] else fd ∷ after ]
address-bind_first none bound rest after e = e
address-bind_first (some fd) true rest after e = refl
address-bind_first (some fd) false rest after e = ap (λ (x : List ℕ). fd ∷ x) e

opened-bind_first :
    (addresses : List AddressAnswer)
    → closed (bind_first addresses none).1 ++ held (bind_first addresses none).0 ≡ opened addresses
unfolding bind_first
opened-bind_first [] = refl
opened-bind_first (address ∷ addresses) =
    address-bind_first address.made address.bound (bind_first addresses none) (opened addresses)
      (opened-bind_first addresses)

held-start_listening :
    (listens : Bool) (fd : Option ℕ)
    → closed (start_listening listens fd).1 ++ held (start_listening listens fd).0 ≡ held fd
unfolding start_listening
held-start_listening listens none = refl
held-start_listening true (some fd) = refl
held-start_listening false (some fd) = refl

-- Where `getaddrinfo` finds an address or more, the constructor of a ServerSocket closes, in their
-- order, all the descriptors that it has been given but the one that the object has in the end,
-- which is the last one, if any.
pub serve-opened :
    (address : AddressAnswer) (addresses : List AddressAnswer) (listens : Bool) (port : ℕ)
    (memory : Option ℕ)
    → closed (serve true (address ∷ addresses) listens port memory).1
        ++ held (serve true (address ∷ addresses) listens port memory).0.sock_fd
      ≡ opened (address ∷ addresses)
unfolding serve bind_first
serve-opened address addresses listens port memory =
    let all = address ∷ addresses in
    let bound = bind_first all none in
    let listening = start_listening listens bound.0 in
    ap (λ (x : List ℕ). x ++ held listening.0) (closed-append bound.1 listening.1)
    ∙ append_assoc (closed bound.1) (closed listening.1) (held listening.0)
    ∙ ap (λ (x : List ℕ). closed bound.1 ++ x) (held-start_listening listens bound.0)
    ∙ opened-bind_first all
