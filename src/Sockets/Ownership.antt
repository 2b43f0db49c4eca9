-- ===== src/Sockets/Ownership.antt =====
-- Which descriptors the objects have, and which are open.
pub mod Moves
pub mod Steps
use cpp_owl_common.Prelude.{
  ℕ, zero, suc, ◌+◌, ◌<◌, ◌≤◌, ◌≡◌, refl, ap, List, [], ◌∷◌, ◌++◌, Bool, true, false, not,
  Bool-cases, inl, inr, Option, none, some, length, set, ◌==◌, ◌||◌, if◌then◌else◌, arith,
}
use cpp_owl_common.Sockets.{
  ClientSocket, ReadAnswer, Call, shutdown, read, close, send, goes_on, with_read, drain,
}
use cpp_owl_common.Sockets.Store.{System, with_closed, carry_out, Store, at}

-- How many descriptors a value of `sock_fd` names, and whether `fd` is the one.
abbrev pub holds : ℕ → Option ℕ → ℕ
holds fd none = 0
holds fd (some x) = if x == fd then 1 else 0

-- The number of objects whose descriptor is `fd`.
abbrev pub holders : ℕ → List ClientSocket → ℕ
holders fd [] = 0
holders fd (c ∷ cs) = holds fd c.sock_fd + holders fd cs

abbrev pub bit : Bool → ℕ
bit true = 1
bit false = 0

-- Every open descriptor belongs to one object, no object has a descriptor that is not open, and no
-- descriptor has been closed that was not open.
pub record IsOwned (store : Store) : Type 0 where
  pub owned : (fd : ℕ) → holders fd store.objects ≡ bit (store.system.is_open fd)
  pub no_misuse : store.system.misused ≡ false

pub holders-set :
    (fd : ℕ) (cs : List ClientSocket) (i : ℕ) (c : ClientSocket)
    → i < length cs
    → holders fd (set cs i c) + holds fd (at cs i).sock_fd ≡ holders fd cs + holds fd c.sock_fd
holders-set fd [] i c b = elim b [ ]
holders-set fd (x ∷ cs) zero c b = omega arith
holders-set fd (x ∷ cs) (suc i) c b = omega (arith, holders-set fd cs i c (omega arith))

pub holds-holders :
    (fd : ℕ) (cs : List ClientSocket) (i : ℕ)
    → i < length cs
    → holds fd (at cs i).sock_fd ≤ holders fd cs
holds-holders fd [] i b = elim b [ ]
holds-holders fd (x ∷ cs) zero b = omega arith
holds-holders fd (x ∷ cs) (suc i) b = omega (arith, holds-holders fd cs i (omega arith))

pub length-set :
    (cs : List ClientSocket) (i : ℕ) (c : ClientSocket) → length (set cs i c) ≡ length cs
length-set [] i c = refl
length-set (x ∷ cs) zero c = refl
length-set (x ∷ cs) (suc i) c = ap suc (length-set cs i c)

at-set_general :
    (cs : List ClientSocket) (i j : ℕ) (c : ClientSocket) → at cs j ≡ c → at (set cs i c) j ≡ c
at-set_general [] i j c e = e
at-set_general (x ∷ cs) zero zero c e = refl
at-set_general (x ∷ cs) zero (suc j) c e = e
at-set_general (x ∷ cs) (suc i) zero c e = e
at-set_general (x ∷ cs) (suc i) (suc j) c e = at-set_general cs i j c e

-- Writing the object at `j` to another place leaves the one at `j` as it is.
pub at-set : (cs : List ClientSocket) (i j : ℕ) → at (set cs i (at cs j)) j ≡ at cs j
at-set cs i j = at-set_general cs i j (at cs j) refl

abbrev AreReads : List Call → Type 0
AreReads [] = Unit
AreReads (read fd ∷ calls) = AreReads calls
AreReads (_ ∷ calls) = ⊥

abbrev pub AreReadsIf : Option (List Call) → Type 0
AreReadsIf none = Unit
AreReadsIf (some calls) = AreReads calls

with_read-AreReads : (fd : ℕ) (d : Option (List Call)) → AreReadsIf d → AreReadsIf (with_read fd d)
unfolding with_read
with_read-AreReads fd none reads = tt
with_read-AreReads fd (some calls) reads = reads

pub drain-AreReads : (fd : ℕ) (answers : List ReadAnswer) → AreReadsIf (drain fd answers)
unfolding drain
drain-AreReads fd [] = tt
drain-AreReads fd (answer ∷ answers) = elim (Bool-cases (goes_on answer)) [
  | inl more ↦ rw more (with_read-AreReads fd (drain fd answers) (drain-AreReads fd answers))
  | inr last ↦ rw last tt
]

pub carry_out-reads :
    (calls : List Call) (fd : ℕ) (system : System)
    → AreReads calls
    → carry_out (calls ++ (close fd ∷ [])) system ≡ with_closed fd system
carry_out-reads [] fd system reads = refl
carry_out-reads (read x ∷ calls) fd system reads = carry_out-reads calls fd system reads
carry_out-reads (shutdown x ∷ calls) fd system reads = elim reads [ ]
carry_out-reads (close x ∷ calls) fd system reads = elim reads [ ]
carry_out-reads (send x bytes ∷ calls) fd system reads = elim reads [ ]

pub bit-closed :
    (opened : Bool) (x fd n m : ℕ)
    → n + (if fd == x then 1 else 0) ≡ m
    → m ≡ bit opened
    → n ≡ bit (if x == fd then false else opened)
bit-closed true x fd n m e f = ground arith
bit-closed false x fd n m e f = ground arith

pub bit-opened :
    (opened : Bool) (x fd m : ℕ)
    → (x ≡ fd → opened ≡ false)
    → m ≡ bit opened
    → (if fd == x then 1 else 0) + m ≡ bit (if x == fd then true else opened)
bit-opened true x fd m fresh f = ground arith
bit-opened false x fd m fresh f = ground arith

pub bit-positive :
    (opened : Bool) (fd m : ℕ) → (if fd == fd then 1 else 0) ≤ m → m ≡ bit opened → opened ≡ true
bit-positive true fd m b f = refl
bit-positive false fd m b f = ground arith

pub or-not :
    (misused opened : Bool) → misused ≡ false → opened ≡ true → (misused || not opened) ≡ false
or-not misused opened e f = rw (e, f)

pub zero_add : (n : ℕ) → 0 + n ≡ n
zero_add n = omega arith

pub bit-reopened :
    (opened : Bool) (x fd : ℕ)
    → (x ≡ fd → opened ≡ false)
    → bit opened ≡ bit (if x == fd then false else (if x == fd then true else opened))
bit-reopened true x fd fresh = ground arith
bit-reopened false x fd fresh = ground arith

pub opens_itself : (fd : ℕ) (opened : Bool) → (if fd == fd then true else opened) ≡ true
opens_itself fd opened = ground arith

pub add_zero : (n : ℕ) → n ≡ n + 0
add_zero n = omega arith
