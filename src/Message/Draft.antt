-- ===== src/Message/Draft.antt =====
-- The local variables `buff` and `total_length` of each `make...` function, and the statements
-- that change them.
pub mod Laws
use cpp_owl_common.Prelude.{ℕ, ◌+◌, ◌%◌, List, [], ◌∷◌, ◌++◌, u32_mod}
use cpp_owl_common.Netbuffer.Endian.{Host}
use cpp_owl_common.Netbuffer.Primitive.{uint32}
use cpp_owl_common.Netbuffer.Push.{Buffer, push_back_val, push_back_val_at}

pub record Draft : Type 0 where
  pub buff : Buffer
  pub total_length : ℕ

-- One statement after the other.
infixl 5 ◌>>◌
unfoldable pub ◌>>◌ : (Draft → Draft) → (Draft → Draft) → Draft → Draft
◌>>◌ f g d = g (f d)

-- `Buffer buff; uint32_t total_length = n;`
abbrev pub empty : ℕ → Draft
empty n = record { buff = []; total_length = n }

-- `total_length += push(..., buff)`, in a uint32_t.
unfoldable pub counted : (Buffer → Buffer × ℕ) → Draft → Draft
counted push d =
    let (buff', n) = push d.buff in
    record { buff = buff'; total_length = (d.total_length + n) % u32_mod }

-- `push(..., buff)` with the count dropped.
unfoldable pub uncounted : (Buffer → Buffer × ℕ) → Draft → Draft
uncounted push d = record d { buff = (push d.buff).0 }

-- `for (I = begin; I != end; ++I) statement`
unfoldable pub for_each {ℓ} : {A : Type ℓ} → (A → Draft → Draft) → List A → Draft → Draft
for_each statement [] d = d
for_each statement (x ∷ xs) d = for_each statement xs (statement x d)

module _ (h : Host) where
  -- `pushBackVal(total_length, buff)`: room for the length, filled in at the end.
  unfoldable pub push_total : Draft → Draft
  unfolding uncounted
  push_total d = uncounted (push_back_val h uint32 d.total_length) d

  -- `pushBackVal(total_length, buff, 0)`
  unfoldable pub store_total : Draft → Draft
  unfolding uncounted
  store_total d = uncounted (λ buff. push_back_val_at h uint32 d.total_length buff 0) d

  -- The shape of most `make...` functions: room for the length, the statements that push the
  -- message type and what follows it, the length stored, `return buff`.
  unfoldable pub make : (Draft → Draft) → Buffer
  make statements = ((do push_total; statements; store_total) (empty 0)).buff

-- `buff.push_back(b)`
unfoldable pub push_byte : ℕ → Draft → Draft
push_byte b d = record d { buff = d.buff ++ (b ∷ []) }

-- Four times `buff.push_back(0)`: room for the length.
unfoldable pub push_room : Draft → Draft
unfolding push_byte
push_room d = push_byte 0 (push_byte 0 (push_byte 0 (push_byte 0 d)))
