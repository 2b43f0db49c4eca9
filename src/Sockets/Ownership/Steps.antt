-- ===== src/Sockets/Ownership/Steps.antt =====
-- Whatever happens, each open descriptor belongs to one object.
use cpp_owl_common.Prelude.{
  ℕ, ◌+◌, ◌≡◌, refl, sym, ap, subst, ◌∙◌, List, [], ◌∷◌, false, not, Bool-cases, inl, inr, Option,
  none, some, length, ◌&&◌,
}
use cpp_owl_common.Sockets.{ClientSocket, PollAnswer, close, has_error, is_one}
use cpp_owl_common.Sockets.Connect.{ConnectAnswers, is_connected, connect, ServerSocket, next}
use cpp_owl_common.Sockets.Store.{
  Store, clean_up, add, opens, accept, Step, connecting, not_connecting, accepting, cleaning,
  assigning, constructing, Reachable, start, step,
}
use cpp_owl_common.Sockets.Ownership.{
  holds, holders, bit, IsOwned, bit-opened, or-not, zero_add, bit-reopened, opens_itself,
}
use cpp_owl_common.Sockets.Ownership.Moves.{
  clean_up-IsCleaned, IsOwnedIf, clean_up-IsOwned, move_assign-IsOwned, move_construct-IsOwned,
}

-- A new object with a descriptor that the system has given out.
opened-IsOwned :
    (c : ClientSocket) (fd : ℕ) (store : Store)
    → c.sock_fd ≡ some fd
    → store.system.is_open fd ≡ false
    → IsOwned store
    → IsOwned (add c [] (opens fd store))
unfolding add opens
opened-IsOwned c fd store e fresh o = record {
  owned = λ x.
      ap (λ (d : Option ℕ). holds x d + holders x store.objects) e
      ∙ bit-opened (store.system.is_open x) x fd (holders x store.objects)
          (λ same. ap store.system.is_open same ∙ fresh) (o.owned x);
  no_misuse = o.no_misuse;
}

idle-IsOwned :
    (c : ClientSocket) (store : Store) → c.sock_fd ≡ none → IsOwned store → IsOwned (add c [] store)
unfolding add
idle-IsOwned c store e o = record {
  owned = λ x.
      ap (λ (d : Option ℕ). holds x d + holders x store.objects) e
      ∙ zero_add (holders x store.objects)
      ∙ o.owned x;
  no_misuse = o.no_misuse;
}

-- A new object without one, where the descriptor given out has been closed again.
dropped-IsOwned :
    (c : ClientSocket) (fd : ℕ) (store : Store)
    → c.sock_fd ≡ none
    → store.system.is_open fd ≡ false
    → IsOwned store
    → IsOwned (add c (close fd ∷ []) (opens fd store))
unfolding add opens
dropped-IsOwned c fd store e fresh o = record {
  owned = λ x.
      ap (λ (d : Option ℕ). holds x d + holders x store.objects) e
      ∙ zero_add (holders x store.objects)
      ∙ o.owned x
      ∙ bit-reopened (store.system.is_open x) x fd (λ same. ap store.system.is_open same ∙ fresh);
  no_misuse = or-not store.system.misused _ o.no_misuse (opens_itself fd (store.system.is_open fd));
}

connect-IsOwned :
    (answers : ConnectAnswers) (fd port : ℕ) (ip_address : List ℕ) (store : Store)
    → answers.made ≡ some fd
    → store.system.is_open fd ≡ false
    → IsOwned store
    → IsOwned (
        add
          (connect answers port ip_address).0
          (connect answers port ip_address).1
          (opens fd store))
unfolding connect
connect-IsOwned answers fd port ip_address store e fresh o =
    elim (Bool-cases (answers.resolved && is_connected answers)) [
      | inl up ↦ rw (connect, e, up) (opened-IsOwned _ fd store refl fresh o)
      | inr down ↦ rw (connect, e, down) (dropped-IsOwned _ fd store refl fresh o)
    ]

not_connect-IsOwned :
    (answers : ConnectAnswers) (port : ℕ) (ip_address : List ℕ) (store : Store)
    → answers.made ≡ none
    → IsOwned store
    → IsOwned (add (connect answers port ip_address).0 (connect answers port ip_address).1 store)
unfolding connect
not_connect-IsOwned answers port ip_address store e o =
    rw (connect, e) (idle-IsOwned _ store refl o)

accept-IsOwned :
    (poll : PollAnswer) (accepted : Option ℕ) (address : List ℕ) (server : ServerSocket)
    (store : Store)
    → ((fd : ℕ) → accepted ≡ some fd → store.system.is_open fd ≡ false)
    → IsOwned store
    → IsOwned (add (next poll accepted address server) [] (accept poll accepted store))
unfolding next accept
accept-IsOwned poll none address server store fresh o =
    elim (Bool-cases (is_one poll.result && not (has_error poll.revents))) [
      | inl ready ↦ rw ready (idle-IsOwned _ store refl o)
      | inr not_ready ↦ rw not_ready (idle-IsOwned _ store refl o)
    ]
accept-IsOwned poll (some fd) address server store fresh o =
    elim (Bool-cases (is_one poll.result && not (has_error poll.revents))) [
      | inl ready ↦ rw ready (opened-IsOwned _ fd store refl (fresh fd refl) o)
      | inr not_ready ↦ rw not_ready (idle-IsOwned _ store refl o)
    ]

-- What can happen to the sockets keeps each open descriptor with one object.
Step-IsOwned : (store after : Store) → Step store after → IsOwned store → IsOwned after
Step-IsOwned _ _ (connecting answers fd port ip_address store e fresh) o =
    connect-IsOwned answers fd port ip_address store e fresh o
Step-IsOwned _ _ (not_connecting answers port ip_address store e) o =
    not_connect-IsOwned answers port ip_address store e o
Step-IsOwned _ _ (accepting poll accepted address server store fresh) o =
    accept-IsOwned poll accepted address server store fresh o
Step-IsOwned _ _ (cleaning answers i store after b e) o = subst IsOwnedIf e (
    clean_up-IsOwned i (length store.objects) (clean_up answers i store)
      (clean_up-IsCleaned i store b o answers))
Step-IsOwned _ _ (assigning answers i j store after bi bj e) o =
    subst IsOwnedIf e (move_assign-IsOwned answers i j store bi bj o)
Step-IsOwned _ _ (constructing j store b) o = move_construct-IsOwned j store b o

-- From a start with no objects and no open descriptors, however objects of ClientSocket are connected,
-- accepted, moved, cleaned up and destroyed in calls that end, each open descriptor belongs to exactly
-- one of them, none of them has a descriptor that is not open, and nothing has been closed that was
-- not open, if the system gives out only descriptors that are not open.
pub Reachable-IsOwned : (store : Store) → Reachable store → IsOwned store
Reachable-IsOwned _ (start is_open closed) = record {
  owned = λ fd. sym (ap bit (closed fd));
  no_misuse = refl;
}
Reachable-IsOwned _ (step store after reachable s) =
    Step-IsOwned store after s (Reachable-IsOwned store reachable)
