-- ===== src/Sockets/Ownership/Moves.antt =====
-- Closing and moving sockets keeps each open descriptor with one object.
use cpp_owl_common.Prelude.{
  ℕ, zero, suc, ◌+◌, ◌<◌, ◌≤◌, ◌≡◌, refl, sym, ap, subst, ◌∙◌, List, [], ◌∷◌, Option, none, some,
  length, set, arith,
}
use cpp_owl_common.Sockets.{ClientSocket, ReadAnswer, Call, drain, shut_and_close, socket_cleanup}
use cpp_owl_common.Sockets.Store.{
  System, with_closed, Store, at, cleaned, clean_up, take_over, move_assign, move_construct,
}
use cpp_owl_common.Sockets.Ownership.{
  holds, holders, IsOwned, holders-set, holds-holders, length-set, at-set, AreReadsIf,
  drain-AreReads, carry_out-reads, bit-closed, bit-positive, or-not, add_zero,
}

-- The object at `i` has closed its descriptor `fd`.
closed-IsOwned :
    (i fd : ℕ) (store : Store)
    → i < length store.objects
    → (at store.objects i).sock_fd ≡ some fd
    → IsOwned store
    → IsOwned (record {
      objects = set store.objects i (record (at store.objects i) { sock_fd = none });
      system = with_closed fd store.system;
    })
closed-IsOwned i fd store b e o = record {
  owned = λ x.
      bit-closed (store.system.is_open x) x fd _ (holders x store.objects)
        (ap
            (λ (d : Option ℕ).
              holders x (set store.objects i (record (at store.objects i) { sock_fd = none }))
              + holds x d)
            (sym e)
          ∙ holders-set x store.objects i (record (at store.objects i) { sock_fd = none }) b
          ∙ omega arith)
        (o.owned x);
  no_misuse = or-not store.system.misused (store.system.is_open fd) o.no_misuse (
      bit-positive (store.system.is_open fd) fd (holders fd store.objects)
        (subst (λ (d : Option ℕ). holds fd d ≤ holders fd store.objects) e
          (holds-holders fd store.objects i b))
        (o.owned fd));
}

-- The store after `i` is cleaned up.
pub record IsCleaned (i n : ℕ) (store : Store) : Type 0 where
  pub still_owned : IsOwned store
  pub no_socket_left : (at store.objects i).sock_fd ≡ none
  pub same_length : length store.objects ≡ n

abbrev IsCleanedIf : ℕ → ℕ → Option Store → Type 0
IsCleanedIf i n none = Unit
IsCleanedIf i n (some store) = IsCleaned i n store

at-set_same :
    (cs : List ClientSocket) (i : ℕ) (c : ClientSocket) → i < length cs → at (set cs i c) i ≡ c
at-set_same [] i c b = elim b [ ]
at-set_same (x ∷ cs) zero c b = refl
at-set_same (x ∷ cs) (suc i) c b = at-set_same cs i c (omega arith)

module _ (i : ℕ) (store : Store) (b : i < length store.objects) (o : IsOwned store) where
  abbrev emptied : List ClientSocket
  emptied = set store.objects i (record (at store.objects i) { sock_fd = none })

  emptied-IsCleaned :
      (system : System)
      → IsOwned (record { objects = emptied; system = system })
      → IsCleaned i (length store.objects) (record { objects = emptied; system = system })
  emptied-IsCleaned system owned = record {
    still_owned = owned;
    no_socket_left =
        ap (λ (c : ClientSocket). c.sock_fd)
          (at-set_same store.objects i (record (at store.objects i) { sock_fd = none }) b);
    same_length = length-set store.objects i (record (at store.objects i) { sock_fd = none });
  }

  shut_and_close-IsCleaned :
      (fd : ℕ) (d : Option (List Call))
      → (at store.objects i).sock_fd ≡ some fd
      → AreReadsIf d
      → IsCleanedIf i (length store.objects) (cleaned i store (shut_and_close fd d))
  unfolding cleaned shut_and_close
  shut_and_close-IsCleaned fd none e reads = tt
  shut_and_close-IsCleaned fd (some calls) e reads =
      rw (carry_out-reads calls fd store.system reads)
        (emptied-IsCleaned (with_closed fd store.system) (closed-IsOwned i fd store b e o))

  socket_cleanup-IsCleaned :
      (answers : List ReadAnswer) (fd : Option ℕ)
      → (at store.objects i).sock_fd ≡ fd
      → IsCleanedIf i (length store.objects) (cleaned i store (socket_cleanup answers fd))
  unfolding socket_cleanup cleaned
  socket_cleanup-IsCleaned answers none e = emptied-IsCleaned store.system (record {
    owned = λ x.
        add_zero (holders x emptied)
        ∙ ap (λ (d : Option ℕ). holders x emptied + holds x d) (sym e)
        ∙ holders-set x store.objects i (record (at store.objects i) { sock_fd = none }) b
        ∙ sym (add_zero (holders x store.objects))
        ∙ o.owned x;
    no_misuse = o.no_misuse;
  })
  socket_cleanup-IsCleaned answers (some fd) e =
      shut_and_close-IsCleaned fd (drain fd answers) e (drain-AreReads fd answers)

  pub clean_up-IsCleaned :
      (answers : List ReadAnswer) → IsCleanedIf i (length store.objects) (clean_up answers i store)
  unfolding clean_up
  clean_up-IsCleaned answers = socket_cleanup-IsCleaned answers (at store.objects i).sock_fd refl

-- Moving an object to one without a socket keeps the number of holders.
take_over-IsOwned :
    (i j : ℕ) (store : Store)
    → i < length store.objects
    → j < length store.objects
    → (at store.objects i).sock_fd ≡ none
    → IsOwned store
    → IsOwned (take_over i j store)
unfolding take_over
take_over-IsOwned i j store bi bj e o = record {
  owned = λ fd.
      let cs = store.objects in
      let other = at cs j in
      let moved = set cs i other in
      let first : holders fd moved + 0 ≡ holders fd cs + holds fd other.sock_fd =
        ap (λ (d : Option ℕ). holders fd moved + holds fd d) (sym e)
        ∙ holders-set fd cs i other bi in
      let bj' : j < length moved = omega (arith, length-set cs i other, bj) in
      let second : (holders fd (set moved j (record (at moved j) { sock_fd = none }))
            + holds fd other.sock_fd
          ≡ holders fd moved + 0) =
        ap
          (λ (c : ClientSocket).
            holders fd (set moved j (record (at moved j) { sock_fd = none })) + holds fd c.sock_fd)
          (sym (at-set cs i j))
        ∙ holders-set fd moved j (record (at moved j) { sock_fd = none }) bj' in
      omega (arith, first, second, o.owned fd);
  no_misuse = o.no_misuse;
}

abbrev pub IsOwnedIf : Option Store → Type 0
IsOwnedIf none = Unit
IsOwnedIf (some store) = IsOwned store

pub clean_up-IsOwned : (i n : ℕ) (d : Option Store) → IsCleanedIf i n d → IsOwnedIf d
clean_up-IsOwned i n none c = tt
clean_up-IsOwned i n (some store) c = c.still_owned

after_clean_up-IsOwned :
    (i j n : ℕ) (d : Option Store)
    → i < n
    → j < n
    → IsCleanedIf i n d
    → IsOwnedIf (elim d [ none ↦ none | some store ↦ some (take_over i j store) ])
after_clean_up-IsOwned i j n none bi bj c = tt
after_clean_up-IsOwned i j n (some store) bi bj c =
    take_over-IsOwned i j store (omega (arith, bi, c.same_length))
      (omega (arith, bj, c.same_length)) c.no_socket_left c.still_owned

pub move_assign-IsOwned :
    (answers : List ReadAnswer) (i j : ℕ) (store : Store)
    → i < length store.objects
    → j < length store.objects
    → IsOwned store
    → IsOwnedIf (move_assign answers i j store)
unfolding move_assign
move_assign-IsOwned answers i j store bi bj o =
    after_clean_up-IsOwned i j (length store.objects) (clean_up answers i store) bi bj
      (clean_up-IsCleaned i store bi o answers)

pub move_construct-IsOwned :
    (j : ℕ) (store : Store)
    → j < length store.objects
    → IsOwned store
    → IsOwned (move_construct j store)
unfolding move_construct
move_construct-IsOwned j store b o = record {
  owned = λ fd. omega (
    arith,
    holders-set fd store.objects j (record (at store.objects j) { sock_fd = none }) b,
    o.owned fd,
  );
  no_misuse = o.no_misuse;
}
