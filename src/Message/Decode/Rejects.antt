-- ===== src/Message/Decode/Rejects.antt =====
-- Messages that a decoder turns away at their header: their length is not the one that their length
-- field gives, or their type is not the decoder's.
use cpp_owl_common.Prelude.{
  ℕ, ◌+◌, ◌%◌, ◌<◌, ◌≤◌, ◌≡◌, ◌≢◌, ◌⊎◌, inl, inr, refl, sym, ap, ◌∙◌, List, [], ◌∷◌, ◌++◌,
  append_assoc, length, length-append, u32_mod, arith, set, ◌==◌, ◌&&◌, true, false,
}
use cpp_owl_common.Netbuffer.Endian.{Host, big_bytes}
use cpp_owl_common.Netbuffer.Endian.Laws.{length-big_bytes}
use cpp_owl_common.Netbuffer.Reader.{BuffReader, new_reader, Read, ◌>>=◌}
use cpp_owl_common.Netbuffer.Reader.Reads.{reader_at}
use cpp_owl_common.Message.Decode.{read_header, checked, decode, or_failure}
use cpp_owl_common.Message.Decode.Laws.{Reads-header}

-- Any buffer of five bytes or more: a length field, a type and what follows.
unfoldable pub packet : ℕ → ℕ → List ℕ → List ℕ
packet n k bs = big_bytes 4 n ++ (k ∷ bs)

-- Values that fit, in a buffer shorter than 2 ^ 32 bytes.
pub record IsPacket (n k : ℕ) (bs : List ℕ) : Type 0 where
  pub length_ok : n < u32_mod
  pub type_ok : k < 256
  pub short : length bs + 5 < u32_mod

-- The length field gives another length, or the type is not `id`.
abbrev pub IsForeign : ℕ → ℕ → ℕ → List ℕ → Type 0
IsForeign id n k bs = (length bs + 5 ≢ (n + 4) % u32_mod) ⊎ (k ≢ id)

-- The message is not as long as its length field says.
abbrev pub IsMisfit : ℕ → List ℕ → Type 0
IsMisfit n bs = length bs + 5 ≢ (n + 4) % u32_mod

-- A message of another length, or of a type above all those in use, is foreign to each of these.
pub misfit-IsForeign :
    {top : ℕ} (n k : ℕ) (bs : List ℕ) (id : ℕ)
    → IsMisfit n bs ⊎ (top < k)
    → id ≤ top
    → IsForeign id n k bs
misfit-IsForeign n k bs id (inl misfit) b = inl misfit
misfit-IsForeign n k bs id (inr unknown) b = inr (omega arith)

pub set-packet : (n k new : ℕ) (bs : List ℕ) → set (packet n k bs) 4 new ≡ packet n new bs
unfolding packet big_bytes
set-packet n k new bs = refl

module _ {n k : ℕ} {bs : List ℕ} (h : Host) (ok : IsPacket n k bs) where
  abbrev pub behind : BuffReader
  behind = reader_at h (big_bytes 4 n ++ (k ∷ [])) bs

  pub read_header-packet : read_header h (new_reader h (packet n k bs) true) ≡ ((n, k), behind)
  unfolding new_reader packet
  read_header-packet =
      ap (λ (x : List ℕ). read_header h (reader_at h [] x))
        (sym (append_assoc (big_bytes 4 n) (k ∷ []) bs))
      ∙ (Reads-header h n k ok.length_ok ok.type_ok).at [] bs
          (omega (arith, ok.short, length-append (big_bytes 4 n) (k ∷ []), length-big_bytes 4 n))

  test_fails :
      (id : ℕ) → IsForeign id n k bs → (length behind.buff == (n + 4) % u32_mod && k == id) ≡ false
  test_fails id foreign =
      let size : length behind.buff ≡ length bs + 5 = omega (
        arith,
        length-append (big_bytes 4 n ++ (k ∷ [])) bs,
        length-append (big_bytes 4 n) (k ∷ []),
        length-big_bytes 4 n,
      ) in
      ground arith

  -- The decoder does not look at what follows the type.
  pub decode-foreign {ℓ} :
      {A : Type ℓ} (id : ℕ) (body : Read A) (fallback : A)
      → IsForeign id n k bs
      → decode h id body fallback (packet n k bs) ≡ (fallback, behind)
  unfolding decode ◌>>=◌ checked
  decode-foreign id body fallback foreign =
      ap (λ (p : (ℕ × ℕ) × BuffReader). checked id body fallback p.0 p.1) read_header-packet
      ∙ rw (test_fails id foreign)

  -- So it returns what its variables hold before they are read.
  pub or_failure-decode {ℓ} :
      {A : Type ℓ} (id : ℕ) (body : Read A) (fallback failure : A)
      → IsForeign id n k bs
      → or_failure failure (decode h id body fallback (packet n k bs)) ≡ fallback
  unfolding or_failure
  or_failure-decode id body fallback failure foreign =
      ap (or_failure failure) (decode-foreign id body fallback foreign)
