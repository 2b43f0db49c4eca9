-- ===== src/Message/Draft/Laws.antt =====
-- A message is a frame: the length of its body in four bytes, and the body.
use cpp_owl_common.Prelude.{
  ℕ, ◌+◌, ◌%◌, ◌<◌, ◌≡◌, refl, sym, ap, subst, ◌∙◌, List, [], ◌∷◌, ◌++◌, append-nil, append_assoc,
  length, length-append, u32_mod, arith, set, get_or,
}
use cpp_owl_common.Netbuffer.Endian.{Host, big_bytes}
use cpp_owl_common.Netbuffer.Endian.Laws.{length-big_bytes}
use cpp_owl_common.Netbuffer.Primitive.{Primitive, uint8, uint32, uint64}
use cpp_owl_common.Netbuffer.Primitive.Laws.{Wire, wire8, wire32, wire64}
use cpp_owl_common.Netbuffer.Push.{
  Buffer, push_back_val, push_back_val_at, push_back_utf16, push_back_sized_utf16,
  push_sized_container,
}
use cpp_owl_common.Netbuffer.Push.Laws.{
  Appends, wires, sized_utf16, push_back_val-Appends, push_back_val_at-front, big_bytes-mod,
  push_back_utf16-Appends, push_back_sized_utf16-Appends, sized, push_sized_container-Appends,
}
use cpp_owl_common.Message.Draft.{
  Draft, ◌>>◌, empty, counted, uncounted, for_each, push_total, store_total, make,
}

-- The length of the body, highest byte first, and the body.
unfoldable pub frame : List ℕ → List ℕ
frame body = big_bytes 4 (length body) ++ body

pub length-frame : (body : List ℕ) → length (frame body) ≡ length body + 4
unfolding frame
length-frame body =
    omega (arith, length-append (big_bytes 4 (length body)) body, length-big_bytes 4 (length body))

-- `buff[4] = id` changes the message type, which is the first byte of the body.
pub set-frame : (id new : ℕ) (body : List ℕ) → set (frame (id ∷ body)) 4 new ≡ frame (new ∷ body)
unfolding frame big_bytes
set-frame id new body = refl

pub get_or-frame : (id : ℕ) (body : List ℕ) → get_or (frame (id ∷ body)) 4 0 ≡ id
unfolding frame big_bytes
get_or-frame id body = refl

Draft-eq : {d e : Draft} → d.buff ≡ e.buff → d.total_length ≡ e.total_length → d ≡ e
Draft-eq p q = λ i. record { buff = p i; total_length = q i }

-- The statement `f` appends `bs` to the buffer and their number to `total_length`.
pub record Emits (f : Draft → Draft) (bs : List ℕ) : Type 0 where
  pub at :
      (d : Draft)
      → d.total_length < u32_mod
      → f d ≡ record { buff = d.buff ++ bs; total_length = (d.total_length + length bs) % u32_mod }

pub Emits-counted :
    {push : Buffer → Buffer × ℕ} {bs : List ℕ} → Appends push bs → Emits (counted push) bs
unfolding counted
Emits-counted {bs} a = record {
  at = λ d b.
      ap
        (λ (p : Buffer × ℕ). record { buff = p.0; total_length = (d.total_length + p.1) % u32_mod })
        (a d.buff)
      ∙ Draft-eq refl (omega arith);
}

pub Emits-seq :
    {f g : Draft → Draft} {bs cs : List ℕ} → Emits f bs → Emits g cs → Emits (f >> g) (bs ++ cs)
unfolding ◌>>◌
Emits-seq {g} {bs} {cs} ef eg = record {
  at = λ d b.
      ap g (ef.at d b)
      ∙ eg.at _ (omega arith)
      ∙ Draft-eq (append_assoc d.buff bs cs) (omega (arith, length-append bs cs));
}

pub Emits-eq : {f : Draft → Draft} {bs cs : List ℕ} → bs ≡ cs → Emits f bs → Emits f cs
Emits-eq {f} e em = subst (λ x. Emits f x) e em

-- A statement that does nothing.
pub Emits-none : Emits (λ d. d) []
Emits-none = record { at = λ d b. Draft-eq (sym (append-nil d.buff)) (omega arith) }

for_each_round {ℓ} :
    {A : Type ℓ} (f : A → Draft → Draft) (x : A) (xs : List A)
    → for_each f (x ∷ xs) ≡ (f x >> for_each f xs)
unfolding for_each ◌>>◌
for_each_round f x xs = refl

pub Emits-each {ℓ} :
    {A : Type ℓ} {f : A → Draft → Draft} (w : A → List ℕ) (xs : List A)
    → ((x : A) → Emits (f x) (w x))
    → Emits (for_each f xs) (wires w xs)
Emits-each w [] e = record {
  at = λ d b. unfold for_each in Draft-eq (sym (append-nil d.buff)) (omega arith);
}
Emits-each {f} w (x ∷ xs) e = rw (for_each_round f x xs) (Emits-seq (e x) (Emits-each w xs e))

pub Emits-val :
    {T : Type 0} (h : Host) {t : Primitive T} (w : Wire t) (v : T)
    → t.size < u32_mod
    → Emits (counted (push_back_val h t v)) (w.wire v)
Emits-val h w v s = Emits-counted (push_back_val-Appends h w v s)

pub Emits-uint8 : (h : Host) (v : ℕ) → Emits (counted (push_back_val h uint8 v)) (big_bytes 1 v)
Emits-uint8 h v = Emits-val h wire8 v (omega arith)

pub Emits-uint32 : (h : Host) (v : ℕ) → Emits (counted (push_back_val h uint32 v)) (big_bytes 4 v)
Emits-uint32 h v = Emits-val h wire32 v (omega arith)

pub Emits-uint64 : (h : Host) (v : ℕ) → Emits (counted (push_back_val h uint64 v)) (big_bytes 8 v)
Emits-uint64 h v = Emits-val h wire64 v (omega arith)

-- `(uint32_t)container.size()`
pub Emits-count :
    (h : Host) (n : ℕ) → Emits (counted (push_back_val h uint32 (n % u32_mod))) (big_bytes 4 n)
Emits-count h n =
    subst (λ bs. Emits (counted (push_back_val h uint32 (n % u32_mod))) bs) (big_bytes-mod n)
      (Emits-uint32 h (n % u32_mod))

-- A byte is its own wire form.
pub octet : (k : ℕ) → k < 256 → big_bytes 1 k ≡ k ∷ []
unfolding big_bytes
octet k b = ap (λ (x : ℕ). x ∷ []) (omega arith)

-- The message type.
pub Emits-id : (h : Host) (k : ℕ) → k < 256 → Emits (counted (push_back_val h uint8 k)) (k ∷ [])
Emits-id h k b =
    subst (λ bs. Emits (counted (push_back_val h uint8 k)) bs) (octet k b) (Emits-uint8 h k)

pub Emits-utf16 :
    (h : Host) (str : List ℕ) → Emits (counted (push_back_utf16 h str)) (wires (big_bytes 2) str)
Emits-utf16 h str = Emits-counted (push_back_utf16-Appends h str)

pub Emits-sized_utf16 :
    (h : Host) (str : List ℕ) → Emits (counted (push_back_sized_utf16 h str)) (sized_utf16 str)
Emits-sized_utf16 h str = Emits-counted (push_back_sized_utf16-Appends h str)

pub Emits-sized_bytes :
    (h : Host) (bytes : List ℕ)
    → Emits (counted (push_sized_container h uint8 bytes)) (sized 1 (big_bytes 1) bytes)
Emits-sized_bytes h bytes = Emits-counted (push_sized_container-Appends h wire8 bytes (omega arith))

-- Room for the length, statements that append the body, and the length stored: a frame.
pub make-frame :
    (h : Host) {f : Draft → Draft} {body : List ℕ} → Emits f body → make h f ≡ frame body
unfolding make push_total store_total uncounted ◌>>◌ frame
make-frame h {f} {body} e =
    let room : Draft = record { buff = big_bytes 4 0; total_length = 0 } in
    ap (λ (d : Draft). (store_total h (f d)).buff)
      (Draft-eq {d = push_total h (empty 0)} {e = room}
        (ap (λ (p : Buffer × ℕ). p.0) (push_back_val-Appends h wire32 0 (omega arith) [])) refl)
    ∙ ap (λ (d : Draft). (store_total h d).buff) (e.at room (omega arith))
    ∙ ap (λ (p : Buffer × ℕ). p.0)
        (push_back_val_at-front h wire32 ((0 + length body) % u32_mod) (big_bytes 4 0) body
          (length-big_bytes 4 0))
    ∙ ap (λ (x : List ℕ). x ++ body)
        (big_bytes-mod (0 + length body) ∙ ap (big_bytes 4) (omega arith))

-- The same where the bytes `head` behind the room are counted from the start.
pub store-frame :
    (h : Host) {f : Draft → Draft} {head body : List ℕ} (room : Draft)
    → Emits f body
    → room ≡ record { buff = (0 ∷ 0 ∷ 0 ∷ 0 ∷ []) ++ head; total_length = length head }
    → length head < u32_mod
    → (store_total h (f room)).buff ≡ frame (head ++ body)
unfolding store_total uncounted frame
store-frame h {f} {head} {body} room e same small =
    let four = 0 ∷ 0 ∷ 0 ∷ 0 ∷ [] in
    let total = (length head + length body) % u32_mod in
    ap (λ (d : Draft). (store_total h (f d)).buff) same
    ∙ ap (λ (d : Draft). (store_total h d).buff)
        (e.at (record { buff = four ++ head; total_length = length head }) small)
    ∙ ap (λ (x : List ℕ). (push_back_val_at h uint32 total x 0).0) (append_assoc four head body)
    ∙ ap (λ (p : Buffer × ℕ). p.0) (push_back_val_at-front h wire32 total four (head ++ body) refl)
    ∙ ap (λ (x : List ℕ). x ++ (head ++ body))
        (big_bytes-mod (length head + length body)
          ∙ ap (big_bytes 4) (sym (length-append head body)))
